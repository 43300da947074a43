-- ===== src/Api/Members.antt =====
-- internal/api/groups.go: the handlers of members and of invitations.
use vibe_net_backend.Base.{
  ℕ, String, Bool, true, not, ◌&&◌, Option, List, [], ◌∷◌, map, ◌==◌, ℕ_eq, String_eq, trim_space,
}
use vibe_net_backend.Models.{
  User, GroupInvite, group_role_owner, group_role_admin, group_role_member, invite_status_pending,
  invite_status_declined,
}
use vibe_net_backend.Db.Store.{
  Error, already_group_member, invite_not_pending, not_group_member, Result, ok, err,
}
use vibe_net_backend.Db.Groups.{
  is_group_member, get_group_member_role, update_member_role, leave_group,
}
use vibe_net_backend.Db.Invites.{create_invite, accept_invite, decline_invite}
use vibe_net_backend.Db.Users.{get_user_by_username, get_user_by_id, display_name_of}
use vibe_net_backend.Db.Rosters.{
  GroupMemberInfo, GroupWithMembers, GroupInviteInfo, get_group_with_members, list_pending_invites,
}
use vibe_net_backend.Api.{
  Env, group_update, removed_from_group, invite_received, Serve, ◌>>=◌, ◌>>◌, pure, refuse_if, when,
  or_refuse, authenticated, decoded, ask, attempt, failed, missing, deliver_frame, invalidate,
  time_now,
}
use vibe_net_backend.Api.Groups.{
  WrappedKey, is_incomplete, GroupDto, to_group_dto, require_group_admin, notify_group_updated,
  show_group,
}

pub record AddMemberRequest : Type 0 where
  pub username : String
  pub key : WrappedKey

pub record InviteDto : Type 0 where
  pub invite_id : ℕ
  pub group_id : ℕ
  pub group_name : String
  pub from_user_id : ℕ
  pub from_username : String
  pub from_display_name : String
  pub from_avatar_url : Option String
  pub created_at : ℕ

abbrev pub to_invite_dto : GroupInviteInfo → InviteDto
to_invite_dto inv = record {
  invite_id = inv.invite.invite_id;
  group_id = inv.invite.group_id;
  group_name = inv.group_name;
  from_user_id = inv.invite.from_user;
  from_username = inv.from_username;
  from_display_name = inv.from_display_name;
  from_avatar_url = inv.from_avatar_url;
  created_at = inv.invite.created_at;
}

-- The answers to the sentinel errors of the repository.
abbrev pub already_member : Error → ℕ × String
already_member already_group_member = (409, "user is already a member of this group")
already_member e = (500, "failed to create invite")

abbrev pub no_longer_pending : String → Error → ℕ × String
no_longer_pending message invite_not_pending = (404, "no pending invite found")
no_longer_pending message e = (500, message)

abbrev pub no_member : String → String → Error → ℕ × String
no_member text message not_group_member = (404, text)
no_member text message e = (500, message)

-- The new invitation; the repository fills in the identifier and the time.
abbrev pub new_invite : ℕ → ℕ → ℕ → WrappedKey → GroupInvite
new_invite g from_user to_user key = record {
  invite_id = 0;
  group_id = g;
  from_user = from_user;
  to_user = to_user;
  status = invite_status_pending;
  wrapped_key = key.wrapped_key;
  key_nonce = key.key_nonce;
  created_at = 0;
}

-- The names of the nudge, "" where the lookup fails.
abbrev pub group_name_of : Result GroupWithMembers → String
group_name_of (ok full) = full.group.name
group_name_of (err e) = ""

abbrev pub from_name_of : Result User → String
from_name_of (ok me) = display_name_of me
from_name_of (err e) = ""

module _ (env : Env) where
  unfoldable pub add_group_member : Option ℕ → String → Option AddMemberRequest → Serve (ℕ × String)
  unfolding require_group_admin display_name_of
  add_group_member caller id body = do
    me ← authenticated caller
    g ← require_group_admin env id me
    req ← decoded body
    refuse_if (trim_space req.username == "") 400 "username is required"
    refuse_if (is_incomplete req.key) 400 "wrapped_key and key_nonce are required"
    target ←
        ask (get_user_by_username env.sql (trim_space req.username))
          (missing 404 "user not found" "failed to look up user")
    refuse_if (target.user_id == me) 400 "you cannot invite yourself"
    already ←
        ask (is_group_member env.sql g target.user_id) (failed "failed to verify group membership")
    refuse_if already 409 "user is already a member of this group"
    now ← time_now env
    invite_id ←
        ask (create_invite env.sql (new_invite g me target.user_id req.key) now) already_member
    full ← attempt (get_group_with_members env.sql g me)
    mine ← attempt (get_user_by_id env.sql me)
    deliver_frame env target.user_id
        (invite_received invite_id g (group_name_of full) (from_name_of mine))
    pure (invite_id, invite_status_pending)

  unfoldable pub list_invites : Option ℕ → Serve (List InviteDto)
  list_invites caller = do
    me ← authenticated caller
    invites ← ask (list_pending_invites env.sql me) (failed "failed to list invites")
    pure (map to_invite_dto invites)

  -- The loop over the other members of the group.
  unfoldable pub nudge_others : ℕ → ℕ → List GroupMemberInfo → Serve (Unit {0})
  nudge_others me g [] = pure tt
  nudge_others me g (m ∷ ms) = do
    when (not (m.user_id == me)) (deliver_frame env m.user_id (group_update g ""))
    nudge_others me g ms

  unfoldable pub accept_group_invite : Option ℕ → Option String → Serve GroupDto
  unfolding nudge_others
  accept_group_invite caller body = do
    me ← authenticated caller
    invite_id ← decoded body
    i ← or_refuse (env.parse_uuid (trim_space invite_id)) 400 "invalid invite_id"
    now ← time_now env
    invite ← ask (accept_invite env.sql i me now) (no_longer_pending "failed to accept invite")
    invalidate env invite.group_id
    full ← ask (get_group_with_members env.sql invite.group_id me) (failed "failed to load group")
    nudge_others me invite.group_id full.members
    pure (to_group_dto full)

  unfoldable pub decline_group_invite : Option ℕ → Option String → Serve String
  decline_group_invite caller body = do
    me ← authenticated caller
    invite_id ← decoded body
    i ← or_refuse (env.parse_uuid (trim_space invite_id)) 400 "invalid invite_id"
    ask (decline_invite env.sql i me) (no_longer_pending "failed to decline invite")
    pure invite_status_declined

  unfoldable pub change_member_role : Option ℕ → String → String → Option String → Serve GroupDto
  unfolding require_group_admin show_group
  change_member_role caller id user_id body = do
    me ← authenticated caller
    g ← require_group_admin env id me
    target ← or_refuse (env.parse_uuid user_id) 400 "invalid user id"
    role ← decoded body
    refuse_if
        (not (trim_space role == group_role_admin) && not (trim_space role == group_role_member))
        400 "role must be \"admin\" or \"member\""
    target_role ←
        ask (get_group_member_role env.sql g target) (
          missing 404 "that user is not a member of this group"
            "failed to verify target membership")
    refuse_if (target_role == group_role_owner) 403 "the group owner's role cannot be changed"
    ask (update_member_role env.sql g target (trim_space role))
        (failed "failed to update member role")
    show_group env g me

  unfoldable pub leave : Option ℕ → String → Serve Bool
  unfolding notify_group_updated
  leave caller id = do
    me ← authenticated caller
    g ← or_refuse (env.parse_uuid id) 400 "invalid group id"
    deleted ←
        ask (leave_group env.sql g me)
          (no_member "you are not a member of this group" "failed to leave group")
    invalidate env g
    when (not deleted) (notify_group_updated env g)
    pure true

  -- Only the owner may remove an admin.
  unfoldable pub check_removal : ℕ → ℕ → String → Serve (Unit {0})
  check_removal g me target_role = when (target_role == group_role_admin) (do
    caller_role ←
        ask (get_group_member_role env.sql g me) (failed "failed to verify your membership")
    refuse_if (not (caller_role == group_role_owner)) 403
        "only the group owner can remove an admin")

  -- The end of the removal: the members that stay are told, and the one who is out.
  abbrev pub show_removal : ℕ → ℕ → ℕ → Serve GroupDto
  show_removal g me target = do
    invalidate env g
    full ← ask (get_group_with_members env.sql g me) (failed "failed to load group")
    notify_group_updated env g
    deliver_frame env target (removed_from_group g full.group.name)
    pure (to_group_dto full)

  unfoldable pub remove_group_member : Option ℕ → String → String → Serve GroupDto
  unfolding require_group_admin check_removal notify_group_updated
  remove_group_member caller id user_id = do
    me ← authenticated caller
    g ← require_group_admin env id me
    target ← or_refuse (env.parse_uuid user_id) 400 "invalid user id"
    refuse_if (target == me) 400 "use the leave endpoint to remove yourself"
    target_role ←
        ask (get_group_member_role env.sql g target) (
          missing 404 "that user is not a member of this group"
            "failed to verify target membership")
    refuse_if (target_role == group_role_owner) 403 "the group owner cannot be removed"
    check_removal g me target_role
    _ ←
        ask (leave_group env.sql g target)
          (no_member "that user is not a member of this group" "failed to remove member")
    show_removal g me target
