-- ===== src/Api/Provisioned.antt =====
-- internal/api/handler.go and internal/auth/google.go: which names of Google accounts the profile
-- editor takes back.
use Prim.Native.Char.{Char, code}
use vibe_net_backend.Base.{
  ℕ, ◌≤◌, ◌<◌, String, true, false, none, some, ◌≡◌, ◌↔◌, refl, ℕ_eq, String_eq, ltb, byte_len,
  Bool-cases, inl, inr, arith,
}
use vibe_net_backend.Auth.{derive_username, len}
use vibe_net_backend.Auth.Usernames.{PlainRune, Plain, IsUsername, derive_username-IsUsername}
use vibe_net_backend.Api.Validation.{
  validate_username, username_pattern, all_runes, is_username_rune, is_digit,
}

PlainRune-is_username_rune : (c : Char) → PlainRune c → is_username_rune c ≡ true
unfolding is_username_rune is_digit
PlainRune-is_username_rune c (inl h) = ground (arith, h.0, h.1)
PlainRune-is_username_rune c (inr (inl h)) = ground (arith, h.0, h.1)
PlainRune-is_username_rune c (inr (inr (inl h))) = ground (arith, h)
PlainRune-is_username_rune c (inr (inr (inr h))) = ground (arith, h)

PlainRune-bound : (c : Char) → PlainRune c → code c < 0x80
PlainRune-bound c (inl h) = omega (arith, h.1)
PlainRune-bound c (inr (inl h)) = omega (arith, h.1)
PlainRune-bound c (inr (inr (inl h))) = omega (arith, h)
PlainRune-bound c (inr (inr (inr h))) = omega (arith, h)

Plain-all_runes : (s : String) → Plain s → all_runes is_username_rune s ≡ true
unfolding all_runes
Plain-all_runes String.[] h = refl
Plain-all_runes (String.◌∷◌ c s) (h, hs) =
    rw (PlainRune-is_username_rune c h) (Plain-all_runes s hs)

below : (n : ℕ) → n < 0x80 → ltb n 0x80 ≡ true
below n h = ground (arith, h)

Plain-byte_len : (s : String) → Plain s → byte_len s ≡ len s
unfolding byte_len len
Plain-byte_len String.[] h = refl
Plain-byte_len (String.◌∷◌ c s) (h, hs) =
    rw (below (code c) (PlainRune-bound c h)) (omega (arith, Plain-byte_len s hs))

username_lem : (s : String) → IsUsername s → (validate_username s ≡ none) ↔ (3 ≤ len s)
unfolding validate_username username_pattern
username_lem s (ne, plain, short) = elim (Bool-cases (ltb (byte_len s) 3)) [
  | inl few ↦ (λ h. absurd (refused_lem (rw few at h)), λ h. absurd (ground (arith, few, size, h)))
  | inr enough ↦ (λ h. ground (arith, enough, size), λ h. rw (enough, long, ne, runes) refl)
]
  where
    size : byte_len s ≡ len s
    size = Plain-byte_len s plain

    runes : all_runes is_username_rune s ≡ true
    runes = Plain-all_runes s plain

    long : ltb 48 (byte_len s) ≡ false
    long = ground (arith, size, short)

    refused_lem : {message : String} → some message ≡ none → ⊥
    refused_lem h = cc

-- The profile editor accepts the username that `DeriveUsername` makes exactly if it has at least
-- 3 characters.
pub validate_username-derive_username :
    (lower : Char → Char) (display_name email : String)
    → (validate_username (derive_username lower display_name email) ≡ none)
      ↔ (3 ≤ len (derive_username lower display_name email))
validate_username-derive_username lower display_name email =
    username_lem (derive_username lower display_name email)
      (derive_username-IsUsername lower display_name email)
