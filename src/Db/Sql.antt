-- ===== src/Db/Sql.antt =====
-- What the repositories rely on of PostgreSQL, as it is reached through GORM.
pub mod Counts
use vibe_net_backend.Base.{
  ℕ, suc, ◌+◌, ◌≤◌, Bool, true, false, not, ◌&&◌, Option, none, some, List, [], ◌∷◌, ◌≡◌, arith,
  if◌then◌else◌, count_p, IsOrdered,
}

-- The database as the program sees it. A table is a list of rows in no particular order, so the
-- laws only say how many rows satisfy a test `q`. The n-th statement of a connection, sent while
-- `failed` says whether an earlier one of its transaction failed, may fail for any reason.
pub record Sql : Type 1 where
  -- SELECT … WHERE p
  pub select : (R : Type 0) → (R → Bool) → List R → List R
  -- … ORDER BY key ASC
  pub order_by : (R : Type 0) → (R → ℕ) → List R → List R
  -- DELETE … WHERE p
  pub delete : (R : Type 0) → (R → Bool) → List R → List R
  -- UPDATE … SET f WHERE p
  pub update : (R : Type 0) → (R → Bool) → (R → R) → List R → List R
  pub insert : (R : Type 0) → R → List R → List R
  -- The identifier that gen_random_uuid() gives the n-th statement.
  pub new_uuid : ℕ → ℕ
  pub answers : (n : ℕ) (failed : Bool) → Bool
  pub commits : (n : ℕ) (failed : Bool) → Bool
  pub count_p-select :
      (R : Type 0) (p q : R → Bool) (t : List R)
      → count_p q (select R p t) ≡ count_p (λ r. p r && q r) t
  pub count_p-order_by :
      (R : Type 0) (key : R → ℕ) (q : R → Bool) (t : List R)
      → count_p q (order_by R key t) ≡ count_p q t
  pub order_by-IsOrdered :
      (R : Type 0) (key : R → ℕ) (t : List R) → IsOrdered key (order_by R key t)
  pub count_p-delete :
      (R : Type 0) (p q : R → Bool) (t : List R)
      → count_p q (delete R p t) ≡ count_p (λ r. q r && not (p r)) t
  pub count_p-update :
      (R : Type 0) (p : R → Bool) (f : R → R) (q : R → Bool) (t : List R)
      → count_p q (update R p f t) ≡ count_p (λ r. if p r then q (f r) else q r) t
  pub count_p-insert :
      (R : Type 0) (r : R) (q : R → Bool) (t : List R)
      → count_p q (insert R r t) ≡ (if q r then 1 else 0) + count_p q t
  -- Once a statement of a transaction has failed, the others are refused, and COMMIT rolls back.
  pub answers_failed : (n : ℕ) → answers n true ≡ false
  pub commits_failed : (n : ℕ) → commits n true ≡ false
