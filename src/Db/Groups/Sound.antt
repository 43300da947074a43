-- ===== src/Db/Groups/Sound.antt =====
-- internal/db/groups.go: the invariant that ties members, invitations and groups together.
use vibe_net_backend.Base.{
  ℕ, ◌≤◌, ◌<◌, Bool, true, false, ◌&&◌, some, List, [], ◌∷◌, ◌≡◌, refl, sym, ap, ◌∙◌, ◌==◌, ==_iff,
  ℕ_eq, String_eq, head?, inl, inr, arith, Bool-cases, subst, count_p, count_p_mono,
}
use vibe_net_backend.Models.{GroupMember, group_role_owner}
use vibe_net_backend.Db.Sql.{Sql}
use vibe_net_backend.Db.Sql.Counts.{count_p-delete_other, count_p-delete_self, count_p-update_same}
use vibe_net_backend.Db.Store.{Tables, Db, Result, ok, err}
use vibe_net_backend.Db.Store.Runs.{transaction_err}
use vibe_net_backend.Db.Groups.{
  is_member_row, of_group, leave_group, invites_to, is_group, is_invite_of,
}
use vibe_net_backend.Db.Groups.Leaving.{
  staying, remaining, promoted, after_leave, leave_group_ok, kept_invites,
}
use vibe_net_backend.Db.Groups.Governed.{
  IsGoverned, SameGroup, SameGroup-IsGoverned, of_group-and-true, count_p-head-select,
  count_p-no-sorted, head-sorted, count_p-head-sorted,
}
use vibe_net_backend.Db.Groups.Ownership.{settled-IsGoverned, settled-SameGroup}

-- A group has one owner if it has members; invitations are to groups with members, and a group with
-- members has its row.
pub record IsSound (g : ℕ) (t : Tables) : Type 0 where
  pub governed : IsGoverned g t.group_members
  pub invited :
      0 < count_p (invites_to g) t.group_invites → 0 < count_p (of_group g) t.group_members
  pub founded : 0 < count_p (of_group g) t.group_members → 0 < count_p (is_group g) t.groups

-- Nothing of the group has changed.
pub record IsSame (g : ℕ) (t t' : Tables) : Type 0 where
  pub members : SameGroup g t.group_members t'.group_members
  pub invites : count_p (invites_to g) t'.group_invites ≡ count_p (invites_to g) t.group_invites
  pub groups : count_p (is_group g) t'.groups ≡ count_p (is_group g) t.groups

pub IsSame-IsSound : (g : ℕ) (t t' : Tables) → IsSame g t t' → IsSound g t → IsSound g t'
IsSame-IsSound g t t' same v = record {
  governed = SameGroup-IsGoverned g _ _ same.members v.governed;
  invited = λ h. omega (arith, h, same.invites, sized, v.invited (omega (arith, h, same.invites)));
  founded = λ h. omega (arith, h, same.groups, sized, v.founded (omega (arith, h, sized)));
}
  where
    sized : count_p (of_group g) t'.group_members ≡ count_p (of_group g) t.group_members
    sized = omega (
      arith,
      same.members (λ _. true),
      of_group-and-true g t.group_members,
      of_group-and-true g t'.group_members,
    )

module _ (sql : Sql) (g u : ℕ) where
  settled-IsSame :
      (other : ℕ) (t : Tables) (leaving : GroupMember) (after : List GroupMember)
      → (other == g) ≡ false
      → IsSame other t (after_leave sql g u t leaving after)
  settled-IsSame other t leaving [] ne = record {
    members = settled-SameGroup sql g u other t leaving [] ne;
    invites =
        count_p-delete_other sql (invites_to g) (invites_to other) (kept_invites sql g u t)
          (λ r h. ground arith)
        ∙ count_p-delete_other sql (is_invite_of g u) (invites_to other) t.group_invites
            (λ r h. ground arith);
    groups = count_p-delete_other sql (is_group g) (is_group other) t.groups (λ r h. ground arith);
  }
  settled-IsSame other t leaving (s ∷ later) ne = record {
    members = settled-SameGroup sql g u other t leaving (s ∷ later) ne;
    invites =
        count_p-delete_other sql (is_invite_of g u) (invites_to other) t.group_invites
          (λ r h. ground arith);
    groups = refl;
  }

  settled-IsSound :
      (t : Tables) (leaving : GroupMember) (after : List GroupMember)
      → IsSound g t
      → head? (sql.select GroupMember (is_member_row g u) t.group_members) ≡ some leaving
      → remaining sql g u t ≡ after
      → IsSound g (after_leave sql g u t leaving after)
  settled-IsSound t leaving [] v found e = record {
    governed = settled-IsGoverned sql g u t leaving [] v.governed found e;
    invited = λ h.
        absurd (omega (arith, h, count_p-delete_self sql (invites_to g) (kept_invites sql g u t)));
    founded = λ h. absurd (
        omega
          (arith, h, count_p-no-sorted sql (λ r. r.joined_at) (of_group g) (staying sql g u t) e));
  }
  settled-IsSound t leaving (s ∷ later) v found e = record {
    governed = settled-IsGoverned sql g u t leaving (s ∷ later) v.governed found e;
    invited = λ _. populated;
    founded = λ _. v.founded before;
  }
    where
      before : 0 < count_p (of_group g) t.group_members
      before = omega (
        arith,
        count_p-head-select sql (is_member_row g u) t.group_members (λ _. true) found refl,
        count_p_mono (λ r. is_member_row g u r && true) (of_group g) t.group_members
            (λ r h. ground arith),
      )

      here : 1 ≤ count_p (of_group g) (staying sql g u t)
      here =
          count_p-head-sorted sql (λ r. r.joined_at) (of_group g) (staying sql g u t) (of_group g)
            (ap head? e)
            (head-sorted sql (λ r. r.joined_at) (of_group g) (staying sql g u t) (ap head? e))

      same :
          count_p (of_group g) (promoted sql g u s.user_id (staying sql g u t))
          ≡ count_p (of_group g) (staying sql g u t)
      same =
          count_p-update_same sql (is_member_row g s.user_id) (of_group g) (staying sql g u t)
            (λ r. record r { role = group_role_owner }) (λ r. ground arith)

      populated : 0 < count_p (of_group g) (after_leave sql g u t leaving (s ∷ later)).group_members
      populated = elim (Bool-cases (leaving.role == group_role_owner)) [
        | inl owner ↦ rw owner (omega (arith, here, same))
        | inr plain ↦ rw plain here
      ]

  left-IsSound :
      (db : Db) (any : ℕ) (r : Result Bool × Db)
      → IsSound any db.tables
      → leave_group sql g u db ≡ r
      → IsSound any r.1.tables
  unfolding leave_group
  left-IsSound db any (err x, db') v h = subst (IsSound any) (sym (transaction_err sql _ db h)) v
  left-IsSound db any (ok deleted, db') v h =
      let left = leave_group_ok sql g u db h in
      rw left.tables (elim (Bool-cases (any == g)) [
        | inl same ↦
            let e = (==_iff any g).0 same in
            rw e (
              settled-IsSound db.tables left.leaving (remaining sql g u db.tables) (rw e at v)
                left.found refl)
        | inr ne ↦
            IsSame-IsSound any db.tables _
              (settled-IsSame any db.tables left.leaving (remaining sql g u db.tables) ne) v
      ])

  -- `LeaveGroup`, whether it succeeds or fails, keeps every group sound, that is, in the state
  -- that `IsSound` describes.
  pub leave_group-IsSound :
      (db : Db) (any : ℕ) → IsSound any db.tables → IsSound any (leave_group sql g u db).1.tables
  leave_group-IsSound db any v = left-IsSound db any _ v refl
