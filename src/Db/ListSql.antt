-- ===== src/Db/ListSql.antt =====
-- A database over plain lists: it meets the laws of `Sql`, and the tests run on it.
use vibe_net_backend.Base.{
  sort_by, count_p-sort_by, sort_by-IsOrdered, ℕ, ◌+◌, Bool, false, not, ◌&&◌, List, [], ◌∷◌, ◌≡◌,
  refl, if◌then◌else◌, arith, count_p, keep, ◌==◌, ℕ_eq,
}
use vibe_net_backend.Db.Sql.{Sql}

module _ {R : Type 0} where
  pub count_p-keep :
      (p q : R → Bool) (t : List R) → count_p q (keep p t) ≡ count_p (λ r. p r && q r) t
  count_p-keep p q [] = refl
  count_p-keep p q (r ∷ t) = ground (arith, count_p-keep p q t)

  pub count_p-keep-not :
      (p q : R → Bool) (t : List R)
      → count_p q (keep (λ r. not (p r)) t) ≡ count_p (λ r. q r && not (p r)) t
  count_p-keep-not p q [] = refl
  count_p-keep-not p q (r ∷ t) = ground (arith, count_p-keep-not p q t)

  abbrev change : (R → Bool) → (R → R) → List R → List R
  change p f [] = []
  change p f (r ∷ t) = (if p r then f r else r) ∷ change p f t

  pub count_p-change :
      (p : R → Bool) (f : R → R) (q : R → Bool) (t : List R)
      → count_p q (change p f t) ≡ count_p (λ r. if p r then q (f r) else q r) t
  count_p-change p f q [] = refl
  count_p-change p f q (r ∷ t) = ground (arith, count_p-change p f q t)

-- Identifiers count up from 1000, and the statement numbered `broken` fails.
abbrev pub list_sql : ℕ → Sql
list_sql broken = record {
  select = λ R p t. keep p t;
  order_by = λ R key t. sort_by key t;
  delete = λ R p t. keep (λ r. not (p r)) t;
  update = λ R p f t. change p f t;
  insert = λ R r t. r ∷ t;
  new_uuid = λ n. 1000 + n;
  answers = λ n failed. if failed then false else not (n == broken);
  commits = λ n failed. not failed;
  count_p-select = λ R p q t. count_p-keep p q t;
  count_p-order_by = λ R key q t. count_p-sort_by key q t;
  order_by-IsOrdered = λ R key t. sort_by-IsOrdered key t;
  count_p-delete = λ R p q t. count_p-keep-not p q t;
  count_p-update = λ R p f q t. count_p-change p f q t;
  count_p-insert = λ R r q t. refl;
  answers_failed = λ n. refl;
  commits_failed = λ n. refl;
}
