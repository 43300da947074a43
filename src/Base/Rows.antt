-- ===== src/Base/Rows.antt =====
-- Lists measured by native numbers, and the number of entries that satisfy a test.
use Prim.Native.Nat.{ℕ, suc, ◌+◌, ◌≤◌}
use mathlib.Core.Path.{◌≡◌, refl, ap, fun_ext}
use mathlib.Core.Bool.{Bool, true, not, ◌&&◌, ◌||◌}
use mathlib.Core.Option.{Option, none, some}
use mathlib.Core.List.{List, [], ◌∷◌, ◌++◌}
use native.Mathlib.Omega.{arith}
use vibe_net_backend.Base.Tests.{if◌then◌else◌}

module _ {ℓ} {A : Type ℓ} where
  abbrev pub length : List A → ℕ
  length [] = 0
  length (x ∷ xs) = suc (length xs)

  pub length-append : (xs ys : List A) → length (xs ++ ys) ≡ length xs + length ys
  length-append [] ys = omega arith
  length-append (x ∷ xs) ys = omega (arith, length-append xs ys)

  abbrev pub head? : List A → Option A
  head? [] = none
  head? (x ∷ xs) = some x

  abbrev pub count_p : (A → Bool) → List A → ℕ
  count_p p [] = 0
  count_p p (x ∷ xs) = (if p x then 1 else 0) + count_p p xs

  -- The entries that satisfy a test.
  abbrev pub keep : (A → Bool) → List A → List A
  keep p [] = []
  keep p (x ∷ xs) = if p x then x ∷ keep p xs else keep p xs

  pub count_p-congr :
      (p q : A → Bool) (xs : List A) → ((x : A) → p x ≡ q x) → count_p p xs ≡ count_p q xs
  count_p-congr p q xs h = ap (λ r. count_p r xs) (fun_ext h)

  pub count_p-split :
      (p q : A → Bool) (xs : List A)
      → count_p p xs ≡ count_p (λ x. p x && q x) xs + count_p (λ x. p x && not (q x)) xs
  count_p-split p q [] = omega arith
  count_p-split p q (x ∷ xs) = ground (arith, count_p-split p q xs)

  pub count_p_mono :
      (p q : A → Bool) (xs : List A)
      → ((x : A) → p x ≡ true → q x ≡ true)
      → count_p p xs ≤ count_p q xs
  count_p_mono p q [] h = omega arith
  count_p_mono p q (x ∷ xs) h = ground (arith, h x, count_p_mono p q xs h)

  pub count_p-head :
      (p : A → Bool) (xs : List A) {x : A} → head? xs ≡ some x → p x ≡ true → 1 ≤ count_p p xs
  count_p-head p [] e h = absurd (ground arith)
  count_p-head p (y ∷ xs) e h = ground arith

  pub count_p-nil : (p : A → Bool) (xs : List A) → head? xs ≡ none → count_p p xs ≡ 0
  count_p-nil p [] e = refl
  count_p-nil p (x ∷ xs) e = absurd (ground arith)

  -- Rows that fail a test count as before once the others are changed.
  pub count_p-none :
      (p q : A → Bool) (f : A → A) (xs : List A)
      → count_p p xs ≡ 0
      → count_p (λ x. if p x then q (f x) else q x) xs ≡ count_p q xs
  count_p-none p q f [] h = refl
  count_p-none p q f (x ∷ xs) h = ground (arith, count_p-none p q f xs)

  pub count_p-append :
      (p : A → Bool) (xs ys : List A) → count_p p (xs ++ ys) ≡ count_p p xs + count_p p ys
  count_p-append p [] ys = omega arith
  count_p-append p (x ∷ xs) ys = omega (arith, count_p-append p xs ys)

  pub count_p-true : (xs : List A) → count_p (λ _. true) xs ≡ length xs
  count_p-true [] = refl
  count_p-true (x ∷ xs) = omega (arith, count_p-true xs)

  pub count_p-and-not : (p : A → Bool) (xs : List A) → count_p (λ x. p x && not (p x)) xs ≡ 0
  count_p-and-not p [] = refl
  count_p-and-not p (x ∷ xs) = ground (arith, count_p-and-not p xs)

  pub count_p-or-le :
      (p q : A → Bool) (xs : List A) → count_p (λ x. p x || q x) xs ≤ count_p p xs + count_p q xs
  count_p-or-le p q [] = omega arith
  count_p-or-le p q (x ∷ xs) = ground (arith, count_p-or-le p q xs)
