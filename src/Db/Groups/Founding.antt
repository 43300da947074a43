-- ===== src/Db/Groups/Founding.antt =====
-- internal/db/groups.go: a new group is sound, and the others stay so.
use mathlib.Core.Option
use vibe_net_backend.Base.{
  ℕ, ◌+◌, ◌≤◌, ◌<◌, String, Bool, true, false, Option, none, some, List, [], ◌∷◌, map, ◌≡◌, refl,
  sym, ap, ◌∙◌, subst, if◌then◌else◌, ◌==◌, ==_iff, ℕ_eq, String_eq, ltb, count_p, count_p-congr,
  count_p_mono, Bool-cases, inl, inr, arith,
}
use vibe_net_backend.Models.{Group, GroupMember, group_role_owner}
use vibe_net_backend.Db.Sql.{Sql}
use vibe_net_backend.Db.Store.{Db, Tables, create_all, insert_all, group_table, group_member_table}
use vibe_net_backend.Db.Store.Runs.{bind_ok, pure_ok, statement_ok, transaction_keeps}
use vibe_net_backend.Db.Store.Session.{create_ok}
use vibe_net_backend.Db.Groups.{of_group, is_member_row, is_group, create_group_with_members}
use vibe_net_backend.Db.Groups.Governed.{is_owner_row}
use vibe_net_backend.Db.Groups.Sound.{IsSound}

count_p-map :
    {A B : Type 0} (f : A → B) (q : B → Bool) (xs : List A)
    → count_p q (map f xs) ≡ count_p (λ x. q (f x)) xs
count_p-map f q [] = refl
count_p-map f q (x ∷ xs) = ap (λ n. (if q (f x) then 1 else 0) + n) (count_p-map f q xs)

count_p-never :
    {A : Type 0} (p : A → Bool) (xs : List A) → ((x : A) → p x ≡ false) → count_p p xs ≡ 0
count_p-never p [] h = refl
count_p-never p (x ∷ xs) h = ground (arith, h x, count_p-never p xs h)

mapped :
    {A B : Type 0} (f : A → B) (o : Option A) {b : B}
    → Option.map f o ≡ some b
    → (a : A) × (o ≡ some a) × (f a ≡ b)
mapped f none h = cc
mapped f (some a) h = (a, refl, ground arith)

module _ (sql : Sql) where
  -- The rows after one INSERT of several.
  record Inserted (rs t t' : List GroupMember) : Type 0 where
    counts : (q : GroupMember → Bool) → count_p q t' ≡ count_p q rs + count_p q t
    distinct : (g u : ℕ) → count_p (is_member_row g u) t ≤ 1 → count_p (is_member_row g u) t' ≤ 1

  inserted :
      (rs t : List GroupMember) {t' : List GroupMember}
      → insert_all sql group_member_table rs t ≡ some t'
      → Inserted rs t t'
  unfolding insert_all
  inserted [] t {t'} h =
      let same : t ≡ t' = ground arith in
      record {
        counts = λ q. omega (arith, ap (count_p q) (sym same));
        distinct = λ g u v. subst (λ x. count_p (is_member_row g u) x ≤ 1) same v;
      }
  inserted (r ∷ rs) t {t'} h = elim (Bool-cases (ltb 0 (count_p (group_member_table.clash r) t))) [
    | inl bad ↦ absurd (ground arith)
    | inr free ↦
        let more = inserted rs (sql.insert GroupMember r t) (rw free at h) in
        record {
          counts = λ q. omega (arith, more.counts q, sql.count_p-insert GroupMember r q t);
          distinct = λ g u v. more.distinct g u (elim (Bool-cases (is_member_row g u r)) [
            | inr n ↦ ground (arith, sql.count_p-insert GroupMember r (is_member_row g u) t)
            | inl y ↦
                let none_before : count_p (is_member_row g u) t
                    ≤ count_p (group_member_table.clash r) t =
                  count_p_mono (is_member_row g u) (group_member_table.clash r) t (λ s k. ground (
                    arith,
                    ==_iff r.group_id g,
                    ==_iff r.user_id u,
                    ==_iff s.group_id g,
                    ==_iff s.user_id u,
                    ==_iff s.group_id r.group_id,
                    ==_iff s.user_id r.user_id,
                  )) in
                ground (arith, sql.count_p-insert GroupMember r (is_member_row g u) t, none_before)
          ]);
        }
  ]

  module _ (t : Tables) (id now : ℕ) (group : Group) (members : List GroupMember)
      (rows : List GroupMember) (named : group.group_id ≡ id)
      (fresh : count_p (is_group id) t.groups ≡ 0)
      (one_owner : count_p (λ m. m.role == group_role_owner) members ≡ 1)
      (done : Inserted
        (map {A = GroupMember} (λ m. record m { group_id = id; joined_at = now }) members)
        t.group_members
        rows)
      (any : ℕ) (v : IsSound any t) where
    abbrev put : GroupMember → GroupMember
    put m = record m { group_id = id; joined_at = now }

    of_new :
        (q : GroupMember → Bool)
        → count_p q rows ≡ count_p (λ m. q (put m)) members + count_p q t.group_members
    of_new q = omega (arith, done.counts q, count_p-map put q members)

    elsewhere :
        (id == any) ≡ false
        → (q : GroupMember → Bool)
        → ((m : GroupMember) → q (put m) ≡ true → of_group any (put m) ≡ true)
        → count_p q rows ≡ count_p q t.group_members
    elsewhere ne q only =
        omega
          (arith, of_new q, count_p-never (λ m. q (put m)) members (λ m. ground (arith, only m)))

    -- Nobody is in the new group before.
    empty : (id == any) ≡ true → count_p (of_group any) t.group_members ≡ 0
    empty here =
        let free : count_p (is_group any) t.groups ≡ 0 =
          subst (λ g. count_p (is_group g) t.groups ≡ 0) ((==_iff id any).0 here) fresh in
        elim (Bool-cases (ltb 0 (count_p (of_group any) t.group_members))) [
          | inl y ↦ absurd (omega (arith, free, v.founded (ground arith)))
          | inr n ↦ ground arith
        ]

    owners : (id == any) ≡ true → count_p (is_owner_row any) rows ≡ 1
    owners here = omega (
      arith,
      of_new (is_owner_row any),
      count_p-congr (λ m. is_owner_row any (put m)) (λ m. m.role == group_role_owner) members
          (λ m. rw here refl),
      one_owner,
      count_p_mono (is_owner_row any) (of_group any) t.group_members (λ m k. ground arith),
      empty here,
    )

    populated : (id == any) ≡ true → 0 < count_p (of_group any) rows
    populated here = omega (
      arith,
      owners here,
      count_p_mono (is_owner_row any) (of_group any) rows (λ m k. ground arith),
    )

    founded-IsSound :
        IsSound any (record t { groups = sql.insert Group group t.groups; group_members = rows })
    founded-IsSound = elim (Bool-cases (id == any)) [
      | inr ne ↦ record {
        governed = record {
          one_owner =
              omega (
                arith,
                elsewhere ne (is_owner_row any) (λ m h. ground arith),
                v.governed.one_owner,
              );
          led = λ h. omega (
            arith,
            elsewhere ne (is_owner_row any) (λ m k. ground arith),
            v.governed.led (omega (arith, h, elsewhere ne (of_group any) (λ m k. k))),
          );
          distinct = λ u. done.distinct any u (v.governed.distinct u);
        };
        invited = λ h. omega (arith, v.invited h, elsewhere ne (of_group any) (λ m k. k));
        founded = λ h. omega (
          arith,
          v.founded (omega (arith, h, elsewhere ne (of_group any) (λ m k. k))),
          sql.count_p-insert Group group (is_group any) t.groups,
        );
      }
      | inl here ↦ record {
        governed = record {
          one_owner = omega (arith, owners here);
          led = λ h. omega (arith, owners here);
          distinct = λ u. done.distinct any u (v.governed.distinct u);
        };
        invited = λ h. populated here;
        founded = λ h.
            ground (arith, sql.count_p-insert Group group (is_group any) t.groups, named, here);
      }
    ]

  -- `CreateGroupWithMembers` with exactly one row for an owner keeps every group sound, the new
  -- one included, whether it succeeds or fails.
  pub create_group_with_members-IsSound :
      (name : String) (created_by : ℕ) (members : List GroupMember) (now : ℕ) (db : Db) (any : ℕ)
      → count_p (λ m. m.role == group_role_owner) members ≡ 1
      → IsSound any db.tables
      → IsSound any (create_group_with_members sql name created_by members now db).1.tables
  unfolding create_group_with_members create_all
  create_group_with_members-IsSound name created_by members now db any one v =
      transaction_keeps sql (IsSound any) _ db v (λ a db1 h.
        let (group, db2, d2, h2) = bind_ok _ _ h in
        let (_, db3, d3, h3) = bind_ok _ _ h2 in
        let (made, free, stored) = create_ok sql group_table _ _ d2 in
        let e3 = statement_ok sql _ db2 d3 in
        let (rows, i, filled) =
          mapped {A = List GroupMember} {B = Unit {0} × Tables}
            (λ rows. (tt, group_member_table.put rows db2.tables)) _ e3 in
        let kept : db2.group_members ≡ db.group_members =
          ap (λ (t : Tables). t.group_members) stored in
        let new : IsSound any
            (record db.tables { groups = sql.insert Group group db.groups; group_members = rows }) =
          founded-IsSound db.tables group.group_id now group members rows refl free one
            (subst
              (λ ms.
                Inserted
                  (map {A = GroupMember}
                    (λ m. record m { group_id = group.group_id; joined_at = now }) members)
                  ms rows)
              kept (inserted _ db2.group_members i))
            any v in
        let last : record db.tables {
          groups = sql.insert Group group db.groups;
          group_members = rows;
        }
            ≡ db1.tables =
          ap (λ (t : Tables). record t { group_members = rows }) (sym stored)
          ∙ ap (λ (x : Unit {0} × Tables). x.1) filled
          ∙ ap (λ (d : Db). d.tables) (pure_ok h3).1 in
        subst (IsSound any) last new)
