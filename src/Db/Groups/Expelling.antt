-- ===== src/Db/Groups/Expelling.antt =====
-- internal/db/groups.go: what `LeaveGroup` changes when the one who leaves is no owner.
use vibe_net_backend.Base.{
  ℕ, String, Bool, false, not, ◌&&◌, some, List, [], ◌∷◌, ◌≡◌, ◌≢◌, refl, sym, ap, ◌∙◌, ◌==◌,
  ==_iff, ℕ_eq, String_eq, head?, count_p, inl, inr, Bool-cases,
}
use vibe_net_backend.Models.{GroupMember, GroupInvite, group_role_owner}
use vibe_net_backend.Db.Sql.{Sql}
use vibe_net_backend.Db.Store.{Tables, Db, ok, group_member_table}
use vibe_net_backend.Db.Store.Runs.{bind_ok, pure_ok, first_ok}
use vibe_net_backend.Db.Groups.{is_member_row, is_invite_of, leave_group, get_group_member_role}
use vibe_net_backend.Db.Groups.Leaving.{remaining, after_leave, is_gone, leave_group_ok, Left}

module _ (sql : Sql) (g u : ℕ) where
  -- The rows of the member and the invitations of that user to the group are gone; every other row
  -- is there as it was, and as often, and so are the groups.
  pub record Expelled (t t' : Tables) : Type 0 where
    pub members :
        (q : GroupMember → Bool)
        → count_p q t'.group_members
          ≡ count_p (λ r. q r && not (is_member_row g u r)) t.group_members
    pub invites :
        (q : GroupInvite → Bool)
        → count_p q t'.group_invites
          ≡ count_p (λ r. q r && not (is_invite_of g u r)) t.group_invites
    pub groups : t'.groups ≡ t.groups

  expelled_lem :
      (t : Tables) (leaving : GroupMember) (after : List GroupMember)
      → (leaving.role == group_role_owner) ≡ false
      → is_gone sql g u after ≡ false
      → Expelled t (after_leave sql g u t leaving after)
  expelled_lem t leaving [] plain kept = cc
  expelled_lem t leaving (s ∷ later) plain kept = rw plain (record {
    members = λ q. sql.count_p-delete GroupMember (is_member_row g u) q t.group_members;
    invites = λ q. sql.count_p-delete GroupInvite (is_invite_of g u) q t.group_invites;
    groups = refl;
  })

  -- The role that `GetGroupMemberRole` reads is that of the row that `LeaveGroup` finds.
  pub role_row :
      (db : Db) {role : String} {db' : Db}
      → get_group_member_role sql g u db ≡ (ok role, db')
      → (row : GroupMember) × (head? (sql.select GroupMember (is_member_row g u) db.group_members)
          ≡ some row)
        × (row.role ≡ role)
  unfolding get_group_member_role
  role_row db h =
      let (row, db1, e, k) = bind_ok _ _ h in
      (row, (first_ok sql group_member_table db _ e).0, (pure_ok k).0)

  pub leave_group-Expelled :
      (db : Db) {row : GroupMember} {db' : Db}
      → head? (sql.select GroupMember (is_member_row g u) db.group_members) ≡ some row
      → row.role ≢ group_role_owner
      → leave_group sql g u db ≡ (ok false, db')
      → Expelled db.tables db'.tables
  leave_group-Expelled db {row} {db'} found lower h =
      let l : Left sql g u db.tables db'.tables false = leave_group_ok sql g u db h in
      let same : some row ≡ some l.leaving = sym found ∙ l.found in
      let whole : row ≡ l.leaving = cc in
      let plain : (l.leaving.role == group_role_owner) ≡ false =
        elim (Bool-cases (l.leaving.role == group_role_owner)) [
          | inr n ↦ n
          | inl y ↦ absurd (
              lower (
                ap (λ (x : GroupMember). x.role) whole
                ∙ (==_iff l.leaving.role group_role_owner).0 y))
        ] in
      rw l.tables
        (expelled_lem db.tables l.leaving (remaining sql g u db.tables) plain (sym l.gone))
