-- ===== src/Db/Groups/Sparing.antt =====
-- internal/db/groups.go: the methods on groups keep what depends neither on the groups, nor on their
-- members, nor on invitations.
use vibe_net_backend.Base.{ℕ, Option, none, some, String, List, [], ◌∷◌, ◌≡◌, refl, sym, subst}
use vibe_net_backend.Models.{Group, GroupMember, GroupInvite}
use vibe_net_backend.Db.Sql.{Sql}
use vibe_net_backend.Db.Store.{
  Tables, Db, M, record_not_found, unique_violation, Result, ok, err, group_table,
  group_member_table, group_invite_table,
}
use vibe_net_backend.Db.Store.Reads.{Saves, Reads-first, Reads-find_ordered, saves_rules}
use vibe_net_backend.Db.Store.Writes.{
  Saves-transaction, update-Saves, delete-Saves, create-Saves, create_all-Saves,
}
use vibe_net_backend.Db.Groups.{
  create_group_with_members, update_group_name, update_group_avatar, update_member_role,
  settle_group, leave_group,
}
use vibe_net_backend.Db.Invites.{
  caught, forgiven, or_missing, forgive_unique, reopen_or_create, create_invite, accept_invite,
  decline_invite,
}

caught_tables : {A : Type 0} (r : Result A × Db) → (caught r).1.tables ≡ r.1.tables
unfolding caught
caught_tables (ok a, db) = refl
caught_tables (err record_not_found, db) = refl
caught_tables (err e, db) = refl

forgiven_tables : (r : Result GroupMember × Db) → (forgiven r).1.tables ≡ r.1.tables
unfolding forgiven
forgiven_tables (ok r, db) = refl
forgiven_tables (err unique_violation, db) = refl
forgiven_tables (err e, db) = refl

ruleset group_rules = (
  saves_rules, Saves-transaction, update-Saves, delete-Saves, create-Saves, create_all-Saves,
  Reads-first, Reads-find_ordered,
)

module _ {κ} (sql : Sql) (P : Tables → Type κ)
    (of_groups : (t : Tables) (rs : List Group) → P t → P (group_table.put rs t))
    (of_members : (t : Tables) (rs : List GroupMember) → P t → P (group_member_table.put rs t))
    (of_invites : (t : Tables) (rs : List GroupInvite)
      → P t
      → P (group_invite_table.put rs t)) where
  Saves-or_missing : {A : Type 0} (m : M A) → Saves P m → Saves P (or_missing m)
  Saves-or_missing m h = record { at = λ db p. subst P (sym (caught_tables (m db))) (h.at db p) }

  Saves-forgive_unique : (m : M GroupMember) → Saves P m → Saves P (forgive_unique sql m)
  Saves-forgive_unique m h = record {
    at = λ db p. subst P (sym (forgiven_tables (m db))) (h.at db p);
  }

  pub create_group_with_members-Saves :
      (name : String) (created_by : ℕ) (members : List GroupMember) (now : ℕ)
      → Saves P (create_group_with_members sql name created_by members now)
  unfolding create_group_with_members
  create_group_with_members-Saves name created_by members now = search group_rules depth 20

  pub update_group_name-Saves : (g : ℕ) (name : String) → Saves P (update_group_name sql g name)
  unfolding update_group_name
  update_group_name-Saves g name = search group_rules depth 20

  pub update_group_avatar-Saves : (g : ℕ) (url : String) → Saves P (update_group_avatar sql g url)
  unfolding update_group_avatar
  update_group_avatar-Saves g url = search group_rules depth 20

  pub update_member_role-Saves :
      (g u : ℕ) (role : String) → Saves P (update_member_role sql g u role)
  unfolding update_member_role
  update_member_role-Saves g u role = search group_rules depth 20

  settle_group-Saves :
      (g : ℕ) (leaving : GroupMember) (rest : List GroupMember)
      → Saves P (settle_group sql g leaving rest)
  unfolding settle_group
  settle_group-Saves g leaving [] = search group_rules depth 20
  settle_group-Saves g leaving (s ∷ rest) = search group_rules depth 20

  pub leave_group-Saves : (g u : ℕ) → Saves P (leave_group sql g u)
  unfolding leave_group
  leave_group-Saves g u = search (group_rules, settle_group-Saves) depth 20

  reopen_or_create-Saves :
      (invite : GroupInvite) (now : ℕ) (o : Option GroupInvite)
      → Saves P (reopen_or_create sql invite now o)
  unfolding reopen_or_create
  reopen_or_create-Saves invite now none = search group_rules depth 20
  reopen_or_create-Saves invite now (some existing) = search group_rules depth 20

  pub create_invite-Saves :
      (invite : GroupInvite) (now : ℕ) → Saves P (create_invite sql invite now)
  unfolding create_invite
  create_invite-Saves invite now =
      search (group_rules, reopen_or_create-Saves, Saves-or_missing) depth 20

  pub accept_invite-Saves : (i u now : ℕ) → Saves P (accept_invite sql i u now)
  unfolding accept_invite
  accept_invite-Saves i u now = search (group_rules, Saves-forgive_unique) depth 20

  pub decline_invite-Saves : (i u : ℕ) → Saves P (decline_invite sql i u)
  unfolding decline_invite
  decline_invite-Saves i u = search group_rules depth 20
