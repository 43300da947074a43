-- ===== src/Pin/Windows.antt =====
-- internal/pin/pin.go: the rotating code within its window, and its shape.
use Prim.Native.Char.{code}
use vibe_net_backend.Base.{
  ℕ, suc, ◌+◌, ◌-◌, ◌≤◌, ◌<◌, ◌↔◌, ◌==◌, String_eq, zero, ◌/◌, ltb, true, String, false, List, ◌≡◌,
  refl, arith, cons-ne-empty,
}
use vibe_net_backend.Pin.{
  window, six_digits, digit_char, ◌▹◌, rotating, code_for_window, current_expiry,
}

-- ASCII decimal digits only, and `n` of them.
abbrev pub Digits : ℕ → String → Type 0
Digits n String.[] = n ≡ 0
Digits n (String.◌∷◌ c s) = (b'0' ≤ code c) × (code c ≤ b'9') × (n ≡ 1 + (n - 1)) × Digits (n - 1) s

digit_char_bounds : (d : ℕ) → (b'0' ≤ code (digit_char d)) × (code (digit_char d) ≤ b'9')
digit_char_bounds zero = omega arith
digit_char_bounds (suc zero) = omega arith
digit_char_bounds (suc (suc zero)) = omega arith
digit_char_bounds (suc (suc (suc zero))) = omega arith
digit_char_bounds (suc (suc (suc (suc zero)))) = omega arith
digit_char_bounds (suc (suc (suc (suc (suc zero))))) = omega arith
digit_char_bounds (suc (suc (suc (suc (suc (suc zero)))))) = omega arith
digit_char_bounds (suc (suc (suc (suc (suc (suc (suc zero))))))) = omega arith
digit_char_bounds (suc (suc (suc (suc (suc (suc (suc (suc zero)))))))) = omega arith
digit_char_bounds _ = omega arith

-- The digits of a number below a million, zeros in front.
abbrev padded : ℕ → String
padded n = (n / 100000) ▹ (n / 10000) ▹ (n / 1000) ▹ (n / 100) ▹ (n / 10) ▹ n ▹ ""

six_digits-padded : (n : ℕ) → n < 1000000 → six_digits n ≡ padded n
unfolding six_digits
six_digits-padded n few = let small : ltb n 1000000 ≡ true = ground arith in rw small refl

padded-Digits : (n : ℕ) → Digits 6 (padded n)
padded-Digits n =
    let b = digit_char_bounds in
    (
      (b _).0,
      (b _).1,
      refl,
      (
        (b _).0,
        (b _).1,
        refl,
        (
          (b _).0,
          (b _).1,
          refl,
          ((b _).0, (b _).1, refl, ((b _).0, (b _).1, refl, ((b _).0, (b _).1, refl, refl))),
        ),
      ),
    )

-- The code is made of the last six digits of some number.
code_for_window-padded :
    (hmac : String → List ℕ → List ℕ) (key : String) (user_id w : ℕ)
    → (n : ℕ) × (code_for_window hmac key user_id w ≡ padded n)
unfolding code_for_window
code_for_window-padded hmac key user_id w = (_, six_digits-padded _ (omega arith))

module _ (hmac : String → List ℕ → List ℕ) (key : String) (user_id : ℕ) where
  pub code_for_window-ne-empty : (w : ℕ) → (code_for_window hmac key user_id w == "") ≡ false
  code_for_window-ne-empty w =
      let (n, e) = code_for_window-padded hmac key user_id w in rw e (cons-ne-empty _ _)

  -- The rotating code is six ASCII digits, for any HMAC.
  pub rotating-Digits : (t : ℕ) → Digits 6 (rotating hmac key user_id t)
  unfolding rotating
  rotating-Digits t =
      let (n, e) = code_for_window-padded hmac key user_id (window t) in rw e (padded-Digits n)

-- The announced expiry is after the moment and at most 300 seconds after it, and another moment
-- has the same window exactly if it lies in the 300 seconds before that expiry.
pub current_expiry_bounds :
    (t u : ℕ)
    → (t < current_expiry t)
      × (current_expiry t ≤ t + 300)
      × ((current_expiry t ≤ u + 300) × (u < current_expiry t) ↔ (window u ≡ window t))
unfolding current_expiry window
current_expiry_bounds t u =
    (omega arith, omega arith, ((λ h. omega arith), (λ h. (omega arith, omega arith))))
