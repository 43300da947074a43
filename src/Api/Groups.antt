-- ===== src/Api/Groups.antt =====
-- internal/api/groups.go: the guards of the group endpoints, and the handlers of groups themselves.
use vibe_net_backend.Base.{
  ℕ, String, Bool, not, ◌&&◌, ◌||◌, Option, none, some, List, [], ◌∷◌, map, if◌then◌else◌, ◌==◌,
  ℕ_eq, String_eq, ltb, trim_space, byte_len,
}
use vibe_net_backend.Models.{GroupMember, group_role_owner, group_role_admin, group_role_member}
use vibe_net_backend.Db.Store.{Result, ok, err}
use vibe_net_backend.Db.Groups.{
  is_group_member, get_group_member_role, get_group_member_ids, update_group_name,
  create_group_with_members,
}
use vibe_net_backend.Db.Rosters.{
  GroupMemberInfo, GroupWithMembers, get_group_with_members, list_groups_for_user, any_of,
}
use vibe_net_backend.Api.{
  Env, ApiFrame, group_update, Serve, ◌>>=◌, ◌>>◌, pure, refuse_if, refuse_invalid, or_refuse,
  authenticated, decoded, ask, attempt, failed, missing, deliver_frame, time_now,
}

pub record WrappedKey : Type 0 where
  pub wrapped_key : String
  pub key_nonce : String

pub record NewMember : Type 0 where
  pub user_id : String
  pub key : WrappedKey

pub record CreateGroupRequest : Type 0 where
  pub name : String
  pub self_key : WrappedKey
  pub members : List NewMember

pub record GroupMemberDto : Type 0 where
  pub user_id : ℕ
  pub username : String
  pub display_name : String
  pub avatar_url : Option String
  pub role : String

pub record GroupDto : Type 0 where
  pub group_id : ℕ
  pub name : String
  pub created_by : ℕ
  pub created_at : ℕ
  pub avatar_url : Option String
  pub members : List GroupMemberDto
  pub wrapped_key : String
  pub key_nonce : String
  pub wrapped_by : ℕ

abbrev pub to_member_dto : GroupMemberInfo → GroupMemberDto
to_member_dto m = record {
  user_id = m.user_id;
  username = m.username;
  display_name = m.display_name;
  avatar_url = m.avatar_url;
  role = m.role;
}

abbrev pub to_group_dto : GroupWithMembers → GroupDto
to_group_dto g = record {
  group_id = g.group.group_id;
  name = g.group.name;
  created_by = g.group.created_by;
  created_at = g.group.created_at;
  avatar_url = g.group.avatar_url;
  members = map to_member_dto g.members;
  wrapped_key = g.membership.wrapped_key;
  key_nonce = g.membership.key_nonce;
  wrapped_by = g.membership.wrapped_by;
}

-- The message, if the name is refused.
unfoldable pub validate_group_name : String → Option String
validate_group_name name =
    if name == ""
    then some "group name is required"
    else if ltb 64 (byte_len name)
    then some "group name must be at most 64 characters"
    else none

abbrev pub is_incomplete : WrappedKey → Bool
is_incomplete key = key.wrapped_key == "" || key.key_nonce == ""

-- A row of a new group; the repository fills in the group and the time.
abbrev pub founding_member : ℕ → String → WrappedKey → ℕ → GroupMember
founding_member u role key wrapped_by = record {
  group_id = 0;
  user_id = u;
  role = role;
  wrapped_key = key.wrapped_key;
  key_nonce = key.key_nonce;
  wrapped_by = wrapped_by;
  joined_at = 0;
}

module _ (env : Env) where
  unfoldable pub require_group_member : String → ℕ → Serve ℕ
  require_group_member id me = do
    g ← or_refuse (env.parse_uuid id) 400 "invalid group id"
    is_member ← ask (is_group_member env.sql g me) (failed "failed to verify group membership")
    refuse_if (not is_member) 403 "you are not a member of this group"
    pure g

  unfoldable pub require_group_admin : String → ℕ → Serve ℕ
  require_group_admin id me = do
    g ← or_refuse (env.parse_uuid id) 400 "invalid group id"
    role ←
        ask (get_group_member_role env.sql g me)
          (missing 403 "you are not a member of this group" "failed to verify group membership")
    refuse_if (not (role == group_role_owner) && not (role == group_role_admin)) 403
        "only the group owner or an admin can do this"
    pure g

  -- The loop of deliveries of one frame.
  unfoldable pub deliver_each : List ℕ → ApiFrame → Serve (Unit {0})
  deliver_each [] frame = pure tt
  deliver_each (u ∷ us) frame = do deliver_frame env u frame; deliver_each us frame

  unfoldable pub notify_members : ℕ → Result (List ℕ) → Serve (Unit {0})
  notify_members g (err e) = pure tt
  notify_members g (ok ids) = deliver_each ids (group_update g "")

  unfoldable pub notify_group_updated : ℕ → Serve (Unit {0})
  unfolding notify_members deliver_each
  notify_group_updated g = do ids ← attempt (get_group_member_ids env.sql g); notify_members g ids

  -- The end of the handlers that show the group: its members are told, and it is the answer.
  unfoldable pub show_group : ℕ → ℕ → Serve GroupDto
  unfolding notify_group_updated
  show_group g me = do
    full ← ask (get_group_with_members env.sql g me) (failed "failed to load group")
    notify_group_updated g
    pure (to_group_dto full)

  unfoldable pub update_group : Option ℕ → String → Option String → Serve GroupDto
  unfolding require_group_member show_group
  update_group caller id body = do
    me ← authenticated caller
    g ← require_group_member id me
    name ← decoded body
    refuse_invalid (validate_group_name (trim_space name))
    ask (update_group_name env.sql g (trim_space name)) (failed "failed to rename group")
    show_group g me

  -- The loop over the listed members, after those that were seen.
  unfoldable pub listed_members : ℕ → List ℕ → List NewMember → Serve (List GroupMember)
  listed_members me seen [] = pure []
  listed_members me seen (m ∷ ms) = do
    u ← or_refuse (env.parse_uuid m.user_id) 400 "invalid member user_id"
    if any_of seen u then listed_members me seen ms else (do
      refuse_if (is_incomplete m.key) 400 "each member needs wrapped_key and key_nonce"
      rest ← listed_members me (u ∷ seen) ms
      pure (founding_member u group_role_member m.key me ∷ rest))

  unfoldable pub create_group : Option ℕ → Option CreateGroupRequest → Serve GroupDto
  unfolding listed_members deliver_each
  create_group caller body = do
    me ← authenticated caller
    req ← decoded body
    refuse_invalid (validate_group_name (trim_space req.name))
    refuse_if (is_incomplete req.self_key) 400 "self_key with wrapped_key and key_nonce is required"
    others ← listed_members me (me ∷ []) req.members
    now ← time_now env
    group ←
        ask
          (create_group_with_members env.sql (trim_space req.name) me
            (founding_member me group_role_owner req.self_key me ∷ others) now)
          (failed "failed to create group")
    full ←
        ask (get_group_with_members env.sql group.group_id me)
          (failed "failed to load created group")
    deliver_each (map (λ (m : GroupMember). m.user_id) others)
        (group_update group.group_id group.name)
    pure (to_group_dto full)

  unfoldable pub list_groups : Option ℕ → Serve (List GroupDto)
  list_groups caller = do
    me ← authenticated caller
    groups ← ask (list_groups_for_user env.sql me) (failed "failed to list groups")
    pure (map to_group_dto groups)
