-- ===== src/Db/Groups/Governed.antt =====
-- internal/db/groups.go: a group with a member has exactly one owner, and nobody is in it twice.
-- The invariant of one group, and the statements that do not touch the group.
use vibe_net_backend.Base.{
  ℕ, ◌≤◌, ◌<◌, Bool, true, false, not, ◌&&◌, some, List, [], ◌≡◌, ap, ◌∙◌, ◌==◌, ℕ_eq, String_eq,
  head?, inl, inr, arith, Bool-cases, count_p, count_p-congr, count_p_mono, count_p-head,
  count_p-and-not,
}
use vibe_net_backend.Models.{GroupMember, group_role_owner}
use vibe_net_backend.Db.Sql.{Sql}
use vibe_net_backend.Db.Groups.{is_member_row, of_group}

abbrev pub is_owner_row : ℕ → GroupMember → Bool
is_owner_row g r = r.group_id == g && r.role == group_role_owner

pub record IsGoverned (g : ℕ) (rows : List GroupMember) : Type 0 where
  pub one_owner : count_p (is_owner_row g) rows ≤ 1
  pub led : 0 < count_p (of_group g) rows → 1 ≤ count_p (is_owner_row g) rows
  pub distinct : (u : ℕ) → count_p (is_member_row g u) rows ≤ 1

-- The rows of the group are the same, as often, whatever is asked of them.
abbrev pub SameGroup : ℕ → List GroupMember → List GroupMember → Type 0
SameGroup g rows rows' =
    (q : GroupMember → Bool)
    → count_p (λ r. of_group g r && q r) rows' ≡ count_p (λ r. of_group g r && q r) rows

pub of_group-and-true :
    (g : ℕ) (rows : List GroupMember)
    → count_p (λ r. of_group g r && true) rows ≡ count_p (of_group g) rows
of_group-and-true g rows = count_p-congr _ _ rows (λ r. ground arith)

pub SameGroup-IsGoverned :
    (g : ℕ) (rows rows' : List GroupMember)
    → SameGroup g rows rows'
    → IsGoverned g rows
    → IsGoverned g rows'
SameGroup-IsGoverned g rows rows' same v = record {
  one_owner = omega (arith, same (λ r. r.role == group_role_owner), v.one_owner);
  led = λ h. omega (
    arith,
    same (λ r. r.role == group_role_owner),
    same (λ _. true),
    of_group-and-true g rows,
    of_group-and-true g rows',
    v.led (omega (arith, same (λ _. true), of_group-and-true g rows, of_group-and-true g rows')),
  );
  distinct = λ u. omega (arith, same (λ r. r.user_id == u), v.distinct u);
}

pub SameGroup-trans :
    (g : ℕ) (a b c : List GroupMember) → SameGroup g a b → SameGroup g b c → SameGroup g a c
SameGroup-trans g a b c h k q = k q ∙ h q

module _ (sql : Sql) (g : ℕ) (rows : List GroupMember) where
  pub SameGroup-delete :
      (p : GroupMember → Bool)
      → ((r : GroupMember) → of_group g r ≡ true → p r ≡ false)
      → SameGroup g rows (sql.delete GroupMember p rows)
  SameGroup-delete p other q =
      sql.count_p-delete GroupMember p (λ r. of_group g r && q r) rows
      ∙ count_p-congr (λ r. (of_group g r && q r) && not (p r)) (λ r. of_group g r && q r) rows
          (λ r. ground (arith, other r))

  pub SameGroup-update :
      (p : GroupMember → Bool) (f : GroupMember → GroupMember)
      → ((r : GroupMember) → of_group g r ≡ true → p r ≡ false)
      → ((r : GroupMember) → (f r).group_id ≡ r.group_id)
      → SameGroup g rows (sql.update GroupMember p f rows)
  SameGroup-update p f other stays q =
      sql.count_p-update GroupMember p f _ rows
      ∙ count_p-congr _ _ rows (λ r. ground (arith, other r, stays r))

-- The first row of a selection satisfies its condition and is a row of the table.
module _ (sql : Sql) {R : Type 0} (p : R → Bool) (t : List R) {r : R} where
  pub head-select : head? (sql.select R p t) ≡ some r → p r ≡ true
  head-select e = elim (Bool-cases (p r)) [
    | inl y ↦ y
    | inr n ↦ absurd (
        omega (
          arith,
          count_p-head (λ x. not (p x)) (sql.select R p t) e (rw n),
          sql.count_p-select R p (λ x. not (p x)) t,
          none_both,
        ))
  ]
    where
      none_both : count_p (λ x. p x && not (p x)) t ≡ 0
      none_both = count_p-and-not p t

  pub count_p-head-select :
      (q : R → Bool)
      → head? (sql.select R p t) ≡ some r
      → q r ≡ true
      → 1 ≤ count_p (λ x. p x && q x) t
  count_p-head-select q e h =
      omega (arith, count_p-head q (sql.select R p t) e h, sql.count_p-select R p q t)

-- So does the first row of an ordered selection.
module _ (sql : Sql) {R : Type 0} (key : R → ℕ) (p : R → Bool) (t : List R) where
  abbrev sorted_rows : List R
  sorted_rows = sql.order_by R key (sql.select R p t)

  pub count_p-sorted : (q : R → Bool) → count_p q sorted_rows ≡ count_p (λ x. p x && q x) t
  count_p-sorted q = sql.count_p-order_by R key q (sql.select R p t) ∙ sql.count_p-select R p q t

  pub head-sorted : {r : R} → head? sorted_rows ≡ some r → p r ≡ true
  head-sorted {r} e = elim (Bool-cases (p r)) [
    | inl y ↦ y
    | inr n ↦ absurd (
        omega (
          arith,
          count_p-head (λ x. not (p x)) sorted_rows e (rw n),
          count_p-sorted (λ x. not (p x)),
          count_p-and-not p t,
        ))
  ]

  pub count_p-head-sorted :
      (q : R → Bool) {r : R} → head? sorted_rows ≡ some r → q r ≡ true → 1 ≤ count_p q t
  count_p-head-sorted q e h = omega (
    arith,
    count_p-head q sorted_rows e h,
    count_p-sorted q,
    count_p_mono (λ x. p x && q x) q t (λ x k. ground arith),
  )

module _ (sql : Sql) {R : Type 0} (key : R → ℕ) (p : R → Bool) (t : List R) where
  pub count_p-no-sorted : sql.order_by R key (sql.select R p t) ≡ [] → count_p p t ≡ 0
  count_p-no-sorted e = omega (
    arith,
    ap (count_p p) e,
    sql.count_p-order_by R key p (sql.select R p t),
    sql.count_p-select R p p t,
    count_p-congr (λ x. p x && p x) p t (λ x. ground arith),
  )
