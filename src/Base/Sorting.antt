-- ===== src/Base/Sorting.antt =====
-- Lists in ascending order, and what the program uses of Go's `sort` and of slices.
use Prim.Native.Nat.{ℕ, zero, suc, ◌+◌, ◌≤◌}
use mathlib.Core.Path.{◌≡◌, refl, ap, ◌∙◌, sym}
use mathlib.Core.Logic.{inl, inr}
use mathlib.Core.Bool.{Bool, true}
use mathlib.Core.List.{List, [], ◌∷◌, ◌++◌}
use native.Mathlib.Omega.{arith}
use vibe_net_backend.Base.Tests.{if◌then◌else◌, leb, Bool-cases}
use vibe_net_backend.Base.Rows.{count_p, length, count_p-true, count_p-append}

abbrev pub IsOrdered : {R : Type 0} → (R → ℕ) → List R → Type 0
IsOrdered key [] = Unit
IsOrdered key (r ∷ []) = Unit
IsOrdered key (r ∷ s ∷ t) = (key r ≤ key s) × IsOrdered key (s ∷ t)

module _ {R : Type 0} where
  abbrev pub insert_by : (R → ℕ) → R → List R → List R
  insert_by key r [] = r ∷ []
  insert_by key r (s ∷ t) = if leb (key r) (key s) then r ∷ s ∷ t else s ∷ insert_by key r t

  abbrev pub sort_by : (R → ℕ) → List R → List R
  sort_by key [] = []
  sort_by key (r ∷ t) = insert_by key r (sort_by key t)

  count_p-insert_by :
      (key : R → ℕ) (r : R) (q : R → Bool) (t : List R)
      → count_p q (insert_by key r t) ≡ (if q r then 1 else 0) + count_p q t
  count_p-insert_by key r q [] = refl
  count_p-insert_by key r q (s ∷ t) = ground (arith, count_p-insert_by key r q t)

  pub count_p-sort_by :
      (key : R → ℕ) (q : R → Bool) (t : List R) → count_p q (sort_by key t) ≡ count_p q t
  count_p-sort_by key q [] = refl
  count_p-sort_by key q (r ∷ t) =
      count_p-insert_by key r q (sort_by key t)
      ∙ ap (λ n. (if q r then 1 else 0) + n) (count_p-sort_by key q t)

  insert_by-IsOrdered :
      (key : R → ℕ) (r : R) (t : List R) → IsOrdered key t → IsOrdered key (insert_by key r t)
  insert_by-IsOrdered key r [] h = tt
  insert_by-IsOrdered key r (s ∷ []) h = elim (Bool-cases (leb (key r) (key s))) [
    | inl e ↦ rw e (ground arith, tt)
    | inr e ↦ rw e (ground arith, tt)
  ]
  insert_by-IsOrdered key r (s ∷ x ∷ t) h = elim (Bool-cases (leb (key r) (key s))) [
    | inl e ↦ rw e (ground arith, h)
    | inr e ↦ elim (Bool-cases (leb (key r) (key x))) [
      | inl k ↦ rw (e, k) (ground arith, (ground arith, h.1))
      | inr k ↦ rw (e, k) (h.0, (rw k at (insert_by-IsOrdered key r (x ∷ t) h.1)))
    ]
  ]

  pub sort_by-IsOrdered : (key : R → ℕ) (t : List R) → IsOrdered key (sort_by key t)
  sort_by-IsOrdered key [] = tt
  sort_by-IsOrdered key (r ∷ t) =
      insert_by-IsOrdered key r (sort_by key t) (sort_by-IsOrdered key t)

  -- The last and the first entries.
  abbrev pub backwards : List R → List R
  backwards [] = []
  backwards (r ∷ t) = backwards t ++ r ∷ []

  abbrev pub take : ℕ → List R → List R
  take zero t = []
  take (suc n) [] = []
  take (suc n) (r ∷ t) = r ∷ take n t

  pub count_p-backwards : (q : R → Bool) (t : List R) → count_p q (backwards t) ≡ count_p q t
  count_p-backwards q [] = refl
  count_p-backwards q (r ∷ t) =
      ground (arith, count_p-append q (backwards t) (r ∷ []), count_p-backwards q t)

  pub count_p-take : (q : R → Bool) (n : ℕ) (t : List R) → count_p q (take n t) ≤ count_p q t
  count_p-take q zero t = omega arith
  count_p-take q (suc n) [] = omega arith
  count_p-take q (suc n) (r ∷ t) = ground (arith, count_p-take q n t)

  pub length-take : (n : ℕ) (t : List R) → length (take n t) ≤ n
  length-take zero t = omega arith
  length-take (suc n) [] = omega arith
  length-take (suc n) (r ∷ t) = omega (arith, length-take n t)

  pub length-sort_by : (key : R → ℕ) (t : List R) → length (sort_by key t) ≡ length t
  length-sort_by key t =
      sym (count_p-true (sort_by key t)) ∙ count_p-sort_by key (λ _. true) t ∙ count_p-true t
