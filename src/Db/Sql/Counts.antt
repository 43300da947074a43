-- ===== src/Db/Sql/Counts.antt =====
-- Consequences of the laws of `Sql`, for the statements that leave a count alone or bound it.
use vibe_net_backend.Base.{
  Bool, true, false, not, ◌&&◌, List, ◌≡◌, ◌∙◌, if◌then◌else◌, arith, count_p, count_p-congr,
  count_p-and-not,
}
use vibe_net_backend.Db.Sql.{Sql}

module _ (sql : Sql) {R : Type 0} (p q : R → Bool) (t : List R) where
  pub count_p-delete_other :
      ((r : R) → q r ≡ true → p r ≡ false) → count_p q (sql.delete R p t) ≡ count_p q t
  count_p-delete_other other =
      sql.count_p-delete R p q t
      ∙ count_p-congr (λ r. q r && not (p r)) q t (λ r. ground (arith, other r))

  pub count_p-update_same :
      (f : R → R)
      → ((r : R) → (if p r then q (f r) else q r) ≡ q r)
      → count_p q (sql.update R p f t) ≡ count_p q t
  count_p-update_same f same =
      sql.count_p-update R p f q t ∙ count_p-congr (λ r. if p r then q (f r) else q r) q t same

pub count_p-delete_self :
    (sql : Sql) {R : Type 0} (p : R → Bool) (t : List R) → count_p p (sql.delete R p t) ≡ 0
count_p-delete_self sql {R} p t = sql.count_p-delete R p p t ∙ count_p-and-not p t
