-- ===== src/Base/Maps.antt =====
-- Go's maps with numeric keys, as lists of entries. The order of the entries stands for the order
-- of a `range` loop, which Go leaves open.
use Prim.Native.Nat.{ℕ}
use mathlib.Core.Path.{◌≡◌, refl, sym, ◌∙◌}
use mathlib.Core.Logic.{inl, inr, ◌⊎◌}
use mathlib.Core.Bool.{false, not}
use mathlib.Core.Option.{Option, none, some}
use mathlib.Core.List.{List, [], ◌∷◌}
use native.Mathlib.Omega.{arith}
use vibe_net_backend.Base.Tests.{if◌then◌else◌, ◌==◌, ==_iff, ℕ_eq, Bool-cases}
use vibe_net_backend.Base.Rows.{keep}

module _ {ℓ} {A : Type ℓ} where
  abbrev pub lookup : ℕ → List (ℕ × A) → Option A
  lookup k [] = none
  lookup k ((j, a) ∷ m) = if j == k then some a else lookup k m

  abbrev pub erase : ℕ → List (ℕ × A) → List (ℕ × A)
  erase k m = keep (λ e. not (e.0 == k)) m

  abbrev pub store : ℕ → A → List (ℕ × A) → List (ℕ × A)
  store k a m = (k, a) ∷ erase k m

  pub lookup-erase_same : (k : ℕ) (m : List (ℕ × A)) → lookup k (erase k m) ≡ none
  lookup-erase_same k [] = refl
  lookup-erase_same k ((j, a) ∷ m) = elim (Bool-cases (j == k)) [
    | inl e ↦ rw e (lookup-erase_same k m)
    | inr e ↦ rw (e, e) (lookup-erase_same k m)
  ]

  pub lookup-erase_other :
      (k l : ℕ) (m : List (ℕ × A)) → (l == k) ≡ false → lookup k (erase l m) ≡ lookup k m
  lookup-erase_other k l [] ne = refl
  lookup-erase_other k l ((j, a) ∷ m) ne = elim (Bool-cases (j == l)) [
    | inl e ↦ ground (arith, lookup-erase_other k l m ne, ==_iff j l, ==_iff l k, ==_iff j k)
    | inr e ↦ rw e (ground (arith, lookup-erase_other k l m ne))
  ]

  -- What a map holds once an entry is stored: the new value, or what it held.
  pub lookup-store :
      (k j : ℕ) (a : A) (m : List (ℕ × A)) {b : A}
      → lookup k (store j a m) ≡ some b
      → ((j ≡ k) × (a ≡ b)) ⊎ (lookup k m ≡ some b)
  lookup-store k j a m e = elim (Bool-cases (j == k)) [
    | inl s ↦ inl ((==_iff j k).0 s, ground arith)
    | inr n ↦ inr (sym (lookup-erase_other k j m n) ∙ (rw n at e))
  ]
