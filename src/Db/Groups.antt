-- ===== src/Db/Groups.antt =====
-- internal/db/groups.go: the methods that change groups, memberships and invitations.
pub mod Sparing
pub mod Leaving
pub mod Governed
pub mod Ownership
pub mod Sound
pub mod Changes
pub mod Succession
pub mod Expelling
pub mod Founding
use vibe_net_backend.Base.{
  ℕ, suc, ◌+◌, String, Bool, true, false, not, ◌&&◌, ◌||◌, Option, none, some, List, [], ◌∷◌, map,
  if◌then◌else◌, ◌==◌, ℕ_eq, String_eq, ltb,
}
use vibe_net_backend.Models.{
  Group, GroupMember, GroupInvite, group_role_owner, group_role_member, invite_status_pending,
  invite_status_accepted, invite_status_declined,
}
use vibe_net_backend.Db.Sql.{Sql}
use vibe_net_backend.Db.Store.{
  M, Error, record_not_found, not_group_member, already_group_member, invite_not_pending,
  unique_violation, Result, ok, err, ◌>>=◌, ◌>>◌, bind, pure, fail, on_error, when, find,
  find_ordered, first, count, delete, update, create, create_all, transaction, group_table,
  group_member_table, group_invite_table, Db,
}

-- WHERE group_id = g
abbrev pub of_group : ℕ → GroupMember → Bool
of_group g r = r.group_id == g

-- WHERE group_id = g AND user_id = u
abbrev pub is_member_row : ℕ → ℕ → GroupMember → Bool
is_member_row g u r = r.group_id == g && r.user_id == u

-- WHERE group_id = g
abbrev pub invites_to : ℕ → GroupInvite → Bool
invites_to g r = r.group_id == g

-- WHERE group_id = g AND to_user = u
abbrev pub is_invite_of : ℕ → ℕ → GroupInvite → Bool
is_invite_of g u r = r.group_id == g && r.to_user == u

abbrev pub is_group : ℕ → Group → Bool
is_group g r = r.group_id == g

-- `if errors.Is(err, gorm.ErrRecordNotFound) { return ErrNotGroupMember }`
abbrev pub missing_as : Error → Error → Error
missing_as e record_not_found = e
missing_as _ e = e

-- WHERE group_id = g AND user_id = u AND role <> 'owner'
abbrev pub is_changeable : ℕ → ℕ → GroupMember → Bool
is_changeable g u r = r.group_id == g && r.user_id == u && not (r.role == group_role_owner)

module _ (sql : Sql) where
  -- `now` is the time of the call, for the columns that GORM fills.
  unfoldable pub create_group_with_members : String → ℕ → List GroupMember → ℕ → M Group
  create_group_with_members name created_by members now = transaction sql (do
    group ← create sql group_table (λ id. record {
      group_id = id;
      name = name;
      created_by = created_by;
      created_at = now;
      avatar_url = none;
    })
    create_all sql group_member_table (
        map {A = GroupMember} (λ m. record m { group_id = group.group_id; joined_at = now })
          members)
    pure group)

  unfoldable pub update_group_name : ℕ → String → M (Unit {0})
  update_group_name g name = do
    _ ← update sql group_table (is_group g) (λ r. record r { name = name })
    pure tt

  unfoldable pub update_group_avatar : ℕ → String → M (Unit {0})
  update_group_avatar g avatar_url = do
    affected ← update sql group_table (is_group g) (λ r. record r { avatar_url = some avatar_url })
    if affected == 0 then fail record_not_found else pure tt

  unfoldable pub get_group_member_role : ℕ → ℕ → M String
  get_group_member_role g u = do
    member ← first sql group_member_table (is_member_row g u)
    pure member.role

  unfoldable pub update_member_role : ℕ → ℕ → String → M (Unit {0})
  update_member_role g u role = do
    affected ← update sql group_member_table (is_changeable g u) (λ r. record r { role = role })
    if affected == 0 then fail record_not_found else pure tt

  -- The end of `LeaveGroup`: an empty group goes, and an owner hands over to the earliest member.
  -- The result says whether the group was deleted.
  unfoldable pub settle_group : ℕ → GroupMember → List GroupMember → M Bool
  settle_group g leaving [] = do
    delete sql group_invite_table (invites_to g)
    delete sql group_table (is_group g)
    pure true
  settle_group g leaving (successor ∷ rest) =
      if leaving.role == group_role_owner
      then (do
        _ ←
            update sql group_member_table (is_member_row g successor.user_id)
              (λ r. record r { role = group_role_owner })
        pure false)
      else pure false

  unfoldable pub leave_group : ℕ → ℕ → M Bool
  unfolding settle_group
  leave_group g u = transaction sql (do
    leaving ←
        on_error (first sql group_member_table (is_member_row g u)) (missing_as not_group_member)
    delete sql group_member_table (is_member_row g u)
    delete sql group_invite_table (is_invite_of g u)
    remaining ← find_ordered sql group_member_table (of_group g) (λ r. r.joined_at)
    settle_group g leaving remaining)

  -- `Pluck("user_id")`.
  unfoldable pub get_group_member_ids : ℕ → M (List ℕ)
  get_group_member_ids g = do
    rows ← find sql group_member_table (of_group g)
    pure (map (λ r. r.user_id) rows)

  unfoldable pub is_group_member : ℕ → ℕ → M Bool
  is_group_member g u = do n ← count sql group_member_table (is_member_row g u); pure (ltb 0 n)
