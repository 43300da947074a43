-- ===== src/Db/Groups/Ownership.antt =====
-- internal/db/groups.go: every operation on members keeps every group governed.
use vibe_net_backend.Base.{
  ℕ, ◌+◌, ◌≤◌, Bool, true, false, not, ◌&&◌, ◌||◌, some, List, [], ◌∷◌, ◌≡◌, refl, ap, ◌∙◌,
  if◌then◌else◌, ◌==◌, ==_refl, ℕ_eq, String_eq, head?, inl, inr, arith, Bool-cases, count_p,
  count_p-congr, count_p-split, count_p_mono, count_p-or-le,
}
use vibe_net_backend.Models.{GroupMember, group_role_owner}
use vibe_net_backend.Db.Sql.{Sql}
use vibe_net_backend.Db.Store.{Tables}
use vibe_net_backend.Db.Groups.{is_member_row, of_group}
use vibe_net_backend.Db.Groups.Leaving.{staying, remaining, promoted, after_leave}
use vibe_net_backend.Db.Groups.Governed.{
  IsGoverned, SameGroup, SameGroup-trans, SameGroup-delete, SameGroup-update, is_owner_row,
  head-select, count_p-head-select, head-sorted, count_p-head-sorted, count_p-no-sorted,
}

abbrev own : GroupMember → GroupMember
own r = record r { role = group_role_owner }

module _ (sql : Sql) (g u : ℕ) (rows : List GroupMember) (v : IsGoverned g rows) where
  abbrev rest : List GroupMember
  rest = sql.delete GroupMember (is_member_row g u) rows

  count_p-rest :
      (q : GroupMember → Bool)
      → count_p q rest + count_p (λ r. q r && is_member_row g u r) rows ≡ count_p q rows
  count_p-rest q = omega (
    arith,
    sql.count_p-delete GroupMember (is_member_row g u) q rows,
    count_p-split q (is_member_row g u) rows,
  )

  swapped :
      count_p (λ r. is_owner_row g r && is_member_row g u r) rows
      ≡ count_p (λ r. is_member_row g u r && is_owner_row g r) rows
  swapped =
      count_p-congr (λ r. is_owner_row g r && is_member_row g u r)
        (λ r. is_member_row g u r && is_owner_row g r) rows (λ r. ground arith)

  rest-distinct : (w : ℕ) → count_p (is_member_row g w) rest ≤ 1
  rest-distinct w = omega (arith, count_p-rest (is_member_row g w), v.distinct w)

  module _ (leaving : GroupMember)
      (found : head? (sql.select GroupMember (is_member_row g u) rows) ≡ some leaving) where
    -- The owner leaves: no owner is left.
    owner_gone : (leaving.role == group_role_owner) ≡ true → count_p (is_owner_row g) rest ≡ 0
    owner_gone owner = omega (arith, v.one_owner, count_p-rest (is_owner_row g), here)
      where
        owns : is_owner_row g leaving ≡ true
        owns = ground (arith, head-select sql (is_member_row g u) rows found)

        here : 1 ≤ count_p (λ r. is_owner_row g r && is_member_row g u r) rows
        here = omega (
          arith,
          swapped,
          count_p-head-select sql (is_member_row g u) rows (is_owner_row g) found owns,
        )

    -- Another member leaves: the owners are as they were.
    owner_stays :
        (leaving.role == group_role_owner) ≡ false
        → count_p (is_owner_row g) rest ≡ count_p (is_owner_row g) rows
    owner_stays plain = omega (arith, count_p-rest (is_owner_row g), not_here)
      where
        other : not (is_owner_row g leaving) ≡ true
        other = ground (arith, plain)

        not_here : count_p (λ r. is_owner_row g r && is_member_row g u r) rows ≡ 0
        not_here = omega (
          arith,
          swapped,
          v.distinct u,
          count_p-split (is_member_row g u) (is_owner_row g) rows,
          count_p-head-select sql (is_member_row g u) rows (λ r. not (is_owner_row g r)) found
              other,
        )

    plain-IsGoverned : (leaving.role == group_role_owner) ≡ false → IsGoverned g rest
    plain-IsGoverned plain = record {
      one_owner = omega (arith, owner_stays plain, v.one_owner);
      led = λ h.
          omega (arith, owner_stays plain, v.led (omega (arith, count_p-rest (of_group g), h)));
      distinct = rest-distinct;
    }

    empty-IsGoverned : count_p (of_group g) rest ≡ 0 → IsGoverned g rest
    empty-IsGoverned e = record {
      one_owner = omega (arith, v.one_owner, count_p-rest (is_owner_row g));
      led = λ h. absurd (omega (arith, h, e));
      distinct = rest-distinct;
    }

    -- The owner leaves and a remaining member takes over.
    promoted-IsGoverned :
        (s : ℕ)
        → (leaving.role == group_role_owner) ≡ true
        → 1 ≤ count_p (is_member_row g s) rest
        → IsGoverned g (promoted sql g u s rest)
    promoted-IsGoverned s owner present = record {
      one_owner = omega (
        arith,
        owners,
        owner_gone owner,
        rest-distinct s,
        count_p-or-le (is_member_row g s) (is_owner_row g) rest,
      );
      led = λ _. omega (
        arith,
        owners,
        present,
        count_p_mono (is_member_row g s) (λ r. is_member_row g s r || is_owner_row g r) rest
            (λ r h. rw h),
      );
      distinct = λ w. omega (arith, rest-distinct w, members w);
    }
      where
        owners :
            count_p (is_owner_row g) (promoted sql g u s rest)
            ≡ count_p (λ r. is_member_row g s r || is_owner_row g r) rest
        owners =
            sql.count_p-update GroupMember (is_member_row g s) own (is_owner_row g) rest
            ∙ count_p-congr
                (λ r. if is_member_row g s r then is_owner_row g (own r) else is_owner_row g r)
                (λ r. is_member_row g s r || is_owner_row g r) rest (λ r. ground arith)

        members :
            (w : ℕ)
            → count_p (is_member_row g w) (promoted sql g u s rest)
              ≡ count_p (is_member_row g w) rest
        members w =
            sql.count_p-update GroupMember (is_member_row g s) own (is_member_row g w) rest
            ∙ count_p-congr
                (λ r.
                  if is_member_row g s r then is_member_row g w (own r) else is_member_row g w r)
                (is_member_row g w) rest (λ r. ground arith)

module _ (sql : Sql) (g u : ℕ) where
  pub settled-IsGoverned :
      (t : Tables) (leaving : GroupMember) (after : List GroupMember)
      → IsGoverned g t.group_members
      → head? (sql.select GroupMember (is_member_row g u) t.group_members) ≡ some leaving
      → remaining sql g u t ≡ after
      → IsGoverned g (after_leave sql g u t leaving after).group_members
  settled-IsGoverned t leaving [] v found e =
      empty-IsGoverned sql g u t.group_members v leaving found
        (count_p-no-sorted sql (λ r. r.joined_at) (of_group g) (staying sql g u t) e)
  settled-IsGoverned t leaving (s ∷ later) v found e =
      elim (Bool-cases (leaving.role == group_role_owner)) [
        | inl owner ↦
            rw owner
              (promoted-IsGoverned sql g u t.group_members v leaving found s.user_id owner present)
        | inr plain ↦ rw plain (plain-IsGoverned sql g u t.group_members v leaving found plain)
      ]
    where
      first : head? (remaining sql g u t) ≡ some s
      first = ap head? e

      listed : of_group g s ≡ true
      listed = head-sorted sql (λ r. r.joined_at) (of_group g) (staying sql g u t) first

      present : 1 ≤ count_p (is_member_row g s.user_id) (staying sql g u t)
      present =
          count_p-head-sorted sql (λ r. r.joined_at) (of_group g) (staying sql g u t)
            (is_member_row g s.user_id) first (ground (arith, listed, ==_refl s.user_id))

  -- The other groups keep their rows.
  pub settled-SameGroup :
      (other : ℕ) (t : Tables) (leaving : GroupMember) (after : List GroupMember)
      → (other == g) ≡ false
      → SameGroup other t.group_members (after_leave sql g u t leaving after).group_members
  settled-SameGroup other t leaving [] ne =
      SameGroup-delete sql other t.group_members (is_member_row g u) (λ r h. ground arith)
  settled-SameGroup other t leaving (s ∷ later) ne =
      elim (Bool-cases (leaving.role == group_role_owner)) [
        | inl owner ↦ rw owner (
            SameGroup-trans other _ _ _ removed (
              SameGroup-update sql other (staying sql g u t) (is_member_row g s.user_id) own
                (λ r h. ground arith) (λ r. refl)))
        | inr plain ↦ rw plain removed
      ]
    where
      removed : SameGroup other t.group_members (staying sql g u t)
      removed = SameGroup-delete sql other t.group_members (is_member_row g u) (λ r h. ground arith)
