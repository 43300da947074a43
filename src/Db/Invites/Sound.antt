-- ===== src/Db/Invites/Sound.antt =====
-- internal/db/groups.go: accepting and declining an invitation keep every group sound.
use vibe_net_backend.Base.{
  ℕ, ◌+◌, ◌≤◌, ◌<◌, Bool, true, ◌&&◌, List, ◌≡◌, refl, sym, ◌∙◌, if◌then◌else◌, ◌==◌, ==_iff, ℕ_eq,
  String_eq, inl, inr, arith, Bool-cases, subst, count_p, count_p_mono, count_p-congr,
}
use vibe_net_backend.Models.{
  GroupMember, GroupInvite, invite_status_accepted, invite_status_declined,
}
use vibe_net_backend.Db.Sql.{Sql}
use vibe_net_backend.Db.Sql.Counts.{count_p-update_same}
use vibe_net_backend.Db.Store.{Tables, Db, Result, ok, err, group_invite_table}
use vibe_net_backend.Db.Store.Runs.{transaction_err, update_keeps, bind_tables, affected_tables}
use vibe_net_backend.Db.Invites.{
  membership, accept_invite, decline_invite, is_pending_invite, is_invite, invite_not_pending,
}
use vibe_net_backend.Db.Invites.Accepting.{Accepted, accepted, accept_invite_ok}
use vibe_net_backend.Db.Groups.{is_member_row, of_group, invites_to}
use vibe_net_backend.Db.Groups.Governed.{is_owner_row, count_p-head-select}
use vibe_net_backend.Db.Groups.Sound.{IsSound}

module _ (sql : Sql) where
  -- A change of invitations that keeps their groups.
  pub changed-IsSound :
      (any : ℕ) (t : Tables) (p : GroupInvite → Bool) (f : GroupInvite → GroupInvite)
      → ((r : GroupInvite) → (f r).group_id ≡ r.group_id)
      → IsSound any t
      → IsSound any (group_invite_table.put (sql.update GroupInvite p f t.group_invites) t)
  changed-IsSound any t p f stays v = record {
    governed = v.governed;
    invited = λ h. v.invited (
        omega (
          arith,
          h,
          count_p-update_same sql p (invites_to any) t.group_invites f
              (λ r. ground (arith, stays r)),
        ));
    founded = v.founded;
  }

  -- `DeclineInvite` keeps every group sound, whether it succeeds or fails.
  pub decline_invite-IsSound :
      (i u : ℕ) (db : Db) (any : ℕ)
      → IsSound any db.tables
      → IsSound any (decline_invite sql i u db).1.tables
  unfolding decline_invite
  decline_invite-IsSound i u db any v =
      bind_tables (IsSound any) _ _ (λ n db'. affected_tables (n == 0) invite_not_pending db')
        (update_keeps sql (IsSound any) group_invite_table (is_pending_invite i u)
          (λ r. record r { status = invite_status_declined }) db v
          (changed-IsSound any db.tables (is_pending_invite i u)
            (λ r. record r { status = invite_status_declined }) (λ r. refl) v))

  module _ (i u now : ℕ) (any : ℕ) (t : Tables) (invite : GroupInvite) (v : IsSound any t) where
    abbrev joined : List GroupMember
    joined = sql.insert GroupMember (membership invite u now) t.group_members

    count_p-joined :
        (q : GroupMember → Bool)
        → count_p q joined
          ≡ (if q (membership invite u now) then 1 else 0) + count_p q t.group_members
    count_p-joined q = sql.count_p-insert GroupMember (membership invite u now) q t.group_members

    joined-distinct :
        count_p (is_member_row invite.group_id u) t.group_members ≡ 0
        → (w : ℕ) → count_p (is_member_row any w) joined ≤ 1
    joined-distinct free w = elim (Bool-cases (is_member_row any w (membership invite u now))) [
      | inl same ↦
          let alone : count_p (is_member_row any w) t.group_members ≡ 0 =
            count_p-congr (is_member_row any w) (is_member_row invite.group_id u) t.group_members
              (λ r. ground (arith, ==_iff invite.group_id any, ==_iff u w))
            ∙ free in
          ground (arith, count_p-joined (is_member_row any w), alone)
      | inr elsewhere ↦ ground (arith, count_p-joined (is_member_row any w), v.governed.distinct w)
    ]

    populated :
        {t' : Tables}
        → Accepted sql i u now t t' invite
        → (invite.group_id == any) ≡ true
        → 0 < count_p (of_group any) t.group_members
    populated a here = v.invited (
        omega (
          arith,
          count_p-head-select sql (is_invite i) (accepted sql i u now t) (invites_to any) a.found
              here,
          count_p_mono (λ r. is_invite i r && invites_to any r) (invites_to any)
              (accepted sql i u now t) (λ r h. ground arith),
          count_p-update_same sql (is_pending_invite i u) (invites_to any) t.group_invites
              (λ r. record r { status = invite_status_accepted }) (λ r. ground arith),
        ))

    was_populated :
        {t' : Tables}
        → Accepted sql i u now t t' invite
        → 0 < count_p (of_group any) joined
        → 0 < count_p (of_group any) t.group_members
    was_populated a h = elim (Bool-cases (invite.group_id == any)) [
      | inl here ↦ populated a here
      | inr elsewhere ↦ ground (arith, count_p-joined (of_group any))
    ]

    -- The group that is joined has an owner, for it has an invitation and so a member.
    Accepted-IsSound : {t' : Tables} → Accepted sql i u now t t' invite → IsSound any t'
    Accepted-IsSound {t'} a = rw a.tables (record {
      governed = record {
        one_owner = ground (arith, count_p-joined (is_owner_row any), v.governed.one_owner);
        led = λ h.
            ground (arith, count_p-joined (is_owner_row any), v.governed.led (was_populated a h));
        distinct = joined-distinct a.new_member;
      };
      invited = λ h.
          let before = v.invited (
            omega (
              arith,
              h,
              count_p-update_same sql (is_pending_invite i u) (invites_to any) t.group_invites
                  (λ r. record r { status = invite_status_accepted }) (λ r. ground arith),
            )) in
          ground (arith, count_p-joined (of_group any), before);
      founded = λ h. v.founded (was_populated a h);
    })

  answered-IsSound :
      (i u now : ℕ) (db : Db) (any : ℕ) (r : Result GroupInvite × Db)
      → IsSound any db.tables
      → accept_invite sql i u now db ≡ r
      → IsSound any r.1.tables
  unfolding accept_invite
  answered-IsSound i u now db any (err x, db') v h =
      subst (IsSound any) (sym (transaction_err sql _ db h)) v
  answered-IsSound i u now db any (ok invite, db') v h =
      Accepted-IsSound i u now any db.tables invite v (accept_invite_ok sql i u now db h)

  -- `AcceptInvite`, whether it succeeds or fails, keeps every group sound.
  pub accept_invite-IsSound :
      (i u now : ℕ) (db : Db) (any : ℕ)
      → IsSound any db.tables
      → IsSound any (accept_invite sql i u now db).1.tables
  accept_invite-IsSound i u now db any v = answered-IsSound i u now db any _ v refl
