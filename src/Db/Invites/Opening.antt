-- ===== src/Db/Invites/Opening.antt =====
-- internal/db/groups.go: inviting keeps every group sound.
use vibe_net_backend.Base.{
  ℕ, ◌<◌, Option, none, some, ◌≡◌, refl, sym, ap, ◌∙◌, if◌then◌else◌, ◌==◌, ==_iff, ℕ_eq, String_eq,
  inl, inr, arith, Bool-cases, subst, count_p,
}
use vibe_net_backend.Models.{GroupInvite, invite_status_accepted, invite_status_pending}
use vibe_net_backend.Db.Sql.{Sql}
use vibe_net_backend.Db.Store.{
  Tables, Db, record_not_found, not_group_member, already_group_member, username_taken, email_taken,
  phone_taken, invalid_pin_type, unique_violation, other, Result, ok, err, group_invite_table,
}
use vibe_net_backend.Db.Store.Runs.{bind_ok, pure_ok, update_ok, transaction_keeps}
use vibe_net_backend.Db.Store.Session.{create_ok, first_tables}
use vibe_net_backend.Db.Invites.{
  create_invite, reopen_or_create, is_invite, invite_not_pending, caught,
}
use vibe_net_backend.Db.Groups.{of_group, invites_to}
use vibe_net_backend.Db.Groups.Sound.{IsSound}
use vibe_net_backend.Db.Invites.Sound.{changed-IsSound}

caught_tables {ℓ} : {A : Type ℓ} (r : Result A × Db) → (caught r).1.tables ≡ r.1.tables
unfolding caught
caught_tables (ok a, db) = refl
caught_tables {A = A} (err e, db) =
    elim e as (λ k. (caught {A = A} (err k, db)).1.tables ≡ db.tables) [
      | record_not_found ↦ refl
      | not_group_member ↦ refl
      | already_group_member ↦ refl
      | invite_not_pending ↦ refl
      | username_taken ↦ refl
      | email_taken ↦ refl
      | phone_taken ↦ refl
      | invalid_pin_type ↦ refl
      | unique_violation ↦ refl
      | other ↦ refl
    ]

module _ (sql : Sql) where
  module _ (invite : GroupInvite) (now : ℕ) (any : ℕ) where
    opened-IsSound :
        (t : Tables) (r : GroupInvite)
        → r.group_id ≡ invite.group_id
        → 0 < count_p (of_group invite.group_id) t.group_members
        → IsSound any t
        → IsSound any (group_invite_table.put (sql.insert GroupInvite r t.group_invites) t)
    opened-IsSound t r same inhabited v = record {
      governed = v.governed;
      invited = λ h. elim (Bool-cases (invites_to any r)) [
        | inl here ↦
            let e : invite.group_id ≡ any = sym same ∙ (==_iff r.group_id any).0 here in
            subst (λ g. 0 < count_p (of_group g) t.group_members) e inhabited
        | inr elsewhere ↦ v.invited (
            omega (
              arith,
              h,
              ap (λ b. if◌then◌else◌ {A = ℕ} b 1 0) elsewhere,
              sql.count_p-insert GroupInvite r (invites_to any) t.group_invites,
            ))
      ];
      founded = v.founded;
    }

    reopened-IsSound :
        (existing : Option GroupInvite) (db : Db) {id : ℕ} {db' : Db}
        → 0 < count_p (of_group invite.group_id) db.group_members
        → IsSound any db.tables
        → reopen_or_create sql invite now existing db ≡ (ok id, db')
        → IsSound any db'.tables
    unfolding reopen_or_create
    reopened-IsSound none db inhabited v h =
        let (r, db1, e, k) = bind_ok _ _ h in
        let (made, _, stored) = create_ok sql group_invite_table db _ e in
        let new : IsSound any db1.tables =
          subst (IsSound any) (sym stored)
            (opened-IsSound db.tables r (ap (λ (x : GroupInvite). x.group_id) made) inhabited v) in
        subst (λ (d : Db). IsSound any d.tables) ((pure_ok k).1) new
    reopened-IsSound (some existing) db inhabited v h =
        elim (Bool-cases (existing.status == invite_status_accepted)) [
          | inl done ↦ absurd (ground arith)
          | inr again ↦
              let (n, db1, e, k) = bind_ok _ _ (rw again at h) in
              let (_, stored) = update_ok sql group_invite_table db _ _ e in
              let new : IsSound any db1.tables = subst (IsSound any) (sym stored) (
                changed-IsSound sql any db.tables (is_invite existing.invite_id)
                  (λ r. record r {
                    status = invite_status_pending;
                    from_user = invite.from_user;
                    wrapped_key = invite.wrapped_key;
                    key_nonce = invite.key_nonce;
                    created_at = now;
                  })
                  (λ r. refl) v) in
              subst (λ (d : Db). IsSound any d.tables) ((pure_ok k).1) new
        ]

  -- `CreateInvite` for a group that has a member keeps every group sound, whether it succeeds or
  -- fails.
  pub create_invite-IsSound :
      (invite : GroupInvite) (now : ℕ) (db : Db) (any : ℕ)
      → 0 < count_p (of_group invite.group_id) db.group_members
      → IsSound any db.tables
      → IsSound any (create_invite sql invite now db).1.tables
  unfolding create_invite
  create_invite-IsSound invite now db any inhabited v =
      transaction_keeps sql (IsSound any) _ db v (λ a db1 h.
        let (existing, db2, e, k) = bind_ok _ _ h in
        let unchanged : db2.tables ≡ db.tables =
          ap (λ (x : Result (Option GroupInvite) × Db). x.1.tables) (sym e)
          ∙ caught_tables _
          ∙ first_tables sql group_invite_table _ _ in
        reopened-IsSound invite now any existing db2
          (subst (λ (t : Tables). 0 < count_p (of_group invite.group_id) t.group_members)
            (sym unchanged) inhabited)
          (subst (IsSound any) (sym unchanged) v) k)
