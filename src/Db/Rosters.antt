-- ===== src/Db/Rosters.antt =====
-- internal/db/groups.go and postgres.go: the listings that join tables.
pub mod Access
use vibe_net_backend.Base.{
  ℕ, suc, String, Bool, true, false, not, ◌&&◌, Option, none, some, List, [], ◌∷◌, ◌++◌, map,
  if◌then◌else◌, ◌==◌, ℕ_eq, String_eq, backwards, store, lookup,
}
use vibe_net_backend.Models.{
  User, Group, GroupMember, GroupInvite, DmParticipant, invite_status_pending,
}
use vibe_net_backend.Db.Sql.{Sql}
use vibe_net_backend.Db.Store.{
  M, Db, Tables, Error, not_group_member, Result, ok, err, ◌>>=◌, bind, pure, fail, on_error, first,
  find, find_ordered, statement, group_table, group_member_table,
}
use vibe_net_backend.Db.Groups.{of_group, is_member_row, is_group, missing_as}
use vibe_net_backend.Db.Users.{is_user}

pub record GroupMemberInfo : Type 0 where
  pub user_id : ℕ
  pub username : String
  pub display_name : String
  pub avatar_url : Option String
  pub role : String

pub record GroupWithMembers : Type 0 where
  pub group : Group
  pub members : List GroupMemberInfo
  pub membership : GroupMember

pub record GroupInviteInfo : Type 0 where
  pub invite : GroupInvite
  pub group_name : String
  pub from_username : String
  pub from_display_name : String
  pub from_avatar_url : Option String

pub record DiscoverableDm : Type 0 where
  pub chat_room_id : String
  pub peer_id : ℕ
  pub username : String
  pub display_name : String
  pub avatar_url : Option String
  pub public_key : Option String
  pub status : String

-- A join: for every row of the one table, what the rows of the other give.
abbrev pub each {ℓ κ} : {A : Type ℓ} {B : Type κ} → (A → List B) → List A → List B
each f [] = []
each f (x ∷ xs) = f x ++ each f xs

abbrev pub any_of : List ℕ → ℕ → Bool
any_of [] g = false
any_of (id ∷ ids) g = if id == g then true else any_of ids g

-- `if name == "" { name = username }`
abbrev pub name_or : String → String → String
name_or name username = if name == "" then username else name

abbrev pub member_info : GroupMember → User → GroupMemberInfo
member_info m u = record {
  user_id = m.user_id;
  username = u.username;
  display_name = name_or u.display_name u.username;
  avatar_url = u.avatar_url;
  role = m.role;
}

-- The zero value that a Go map gives for a missing key.
abbrev pub no_membership : GroupMember
no_membership = record {
  group_id = 0;
  user_id = 0;
  role = "";
  wrapped_key = "";
  key_nonce = "";
  wrapped_by = 0;
  joined_at = 0;
}

abbrev pub membership_of : ℕ → List GroupMember → GroupMember
membership_of g [] = no_membership
membership_of g (m ∷ ms) =
    if any_of (map (λ r. r.group_id) ms) g
    then membership_of g ms
    else (if m.group_id == g then m else no_membership)

module _ (sql : Sql) where
  unfoldable pub scan {ℓ} : {A : Type ℓ} → (Tables → A) → M A
  scan run = statement sql (λ _ t. some (run t, t))

  unfoldable pub list_group_members : ℕ → M (List GroupMemberInfo)
  unfolding scan
  list_group_members g = scan (λ t.
      each (λ m. map (member_info m) (sql.select User (is_user m.user_id) t.users))
        (sql.order_by GroupMember (λ r. r.joined_at)
          (sql.select GroupMember (of_group g) t.group_members)))

  unfoldable pub get_group_with_members : ℕ → ℕ → M GroupWithMembers
  unfolding list_group_members
  get_group_with_members g for_user = do
    membership ←
        on_error (first sql group_member_table (is_member_row g for_user))
          (missing_as not_group_member)
    group ← first sql group_table (is_group g)
    members ← list_group_members g
    pure (record { group = group; members = members; membership = membership })

  -- The loop over the groups.
  unfoldable pub with_members : List GroupMember → List Group → M (List GroupWithMembers)
  unfolding list_group_members
  with_members memberships [] = pure []
  with_members memberships (g ∷ groups) = do
    members ← list_group_members g.group_id
    rest ← with_members memberships groups
    pure (
        record { group = g; members = members; membership = membership_of g.group_id memberships }
        ∷ rest)

  unfoldable pub groups_of : List GroupMember → M (List GroupWithMembers)
  unfolding with_members
  groups_of [] = pure []
  groups_of (m ∷ ms) = do
    groups ←
        find_ordered sql group_table
          (λ r. any_of (map (λ (x : GroupMember). x.group_id) (m ∷ ms)) r.group_id)
          (λ r. r.created_at)
    with_members (m ∷ ms) (backwards groups)

  unfoldable pub list_groups_for_user : ℕ → M (List GroupWithMembers)
  unfolding groups_of
  list_groups_for_user u = do
    memberships ← find sql group_member_table (λ r. r.user_id == u)
    groups_of memberships

  abbrev pub invite_info : GroupInvite → Group → User → GroupInviteInfo
  invite_info i g u = record {
    invite = i;
    group_name = g.name;
    from_username = u.username;
    from_display_name = name_or u.display_name u.username;
    from_avatar_url = u.avatar_url;
  }

  unfoldable pub list_pending_invites : ℕ → M (List GroupInviteInfo)
  unfolding scan
  list_pending_invites u = scan (λ t.
      each
        (λ i.
          each (λ g. map (invite_info i g) (sql.select User (is_user i.from_user) t.users))
            (sql.select Group (is_group i.group_id) t.groups))
        (backwards (
          sql.order_by GroupInvite (λ r. r.created_at)
            (sql.select GroupInvite (λ r. r.to_user == u && r.status == invite_status_pending)
              t.group_invites))))

  abbrev pub discoverable : DmParticipant → User → DiscoverableDm
  discoverable d u = record {
    chat_room_id = d.chat_room_id;
    peer_id = d.peer_id;
    username = u.username;
    display_name = u.display_name;
    avatar_url = u.avatar_url;
    public_key = u.public_key;
    status = u.status;
  }

  unfoldable pub list_discoverable_dms : ℕ → M (List DiscoverableDm)
  unfolding scan
  list_discoverable_dms u = scan (λ t.
      each (λ d. map (discoverable d) (sql.select User (is_user d.peer_id) t.users))
        (backwards (
          sql.order_by DmParticipant (λ r. r.created_at)
            (sql.select DmParticipant (λ r. r.user_id == u) t.dm_participants))))
