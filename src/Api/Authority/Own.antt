-- ===== src/Api/Authority/Own.antt =====
-- internal/api: a request changes no account but the one that it is authenticated for.
use vibe_net_backend.Base.{ℕ, String, false, Option, some, List, ◌≡◌, refl, arith}
use vibe_net_backend.Models.{Group, GroupMember, GroupInvite}
use vibe_net_backend.Db.Store.{Tables, group_table, group_member_table, group_invite_table}
use vibe_net_backend.Db.Users.Own.{
  OthersKept, update_public_key-Own, deactivate_user-Own, delete_user-Own, update_avatar_url-Own,
  update_pin_settings-Own, update_profile-Own,
}
use vibe_net_backend.Access.{Claims, Request, admitted, jwt_auth_middleware}
use vibe_net_backend.Api.{Env, Server, Serve, authenticated, or_refuse, continue, ◌>>=◌}
use vibe_net_backend.Api.Keeping.{Keeps, Keeps-bind, Keeps-pure, keeps_rules}
use vibe_net_backend.Api.Sound.{list_groups-Keeps, list_invites-Keeps}
use vibe_net_backend.Api.Sparing.{
  get_me-Keeps, get_user_public_key-Keeps, search_users-Keeps, get_discoverable_conversations-Keeps,
  verify_pin-Keeps, verify_peer_pin-Keeps, get_my_chat_pin-Keeps, get_upload_url-Keeps,
  get_download_url-Keeps, store_uploaded_avatar-Keeps, or_discard-Keeps, requested_pin-Keeps,
  broadcast_user_update-Keeps,
}
use vibe_net_backend.Api.Accounts.{
  ProfileUpdateRequest, deactivate_account, delete_account, change_profile, change_public_key,
}
use vibe_net_backend.Api.Pins.{PinSettingsRequest, change_pin_settings}
use vibe_net_backend.Api.Uploads.{AvatarForm, upload_avatar}
use vibe_net_backend.Api.Authority.Apart.{
  update_group-Apart, upload_group_avatar-Apart, add_group_member-Apart, leave-Apart,
  change_member_role-Apart, remove_group_member-Apart, accept_group_invite-Apart,
  decline_group_invite-Apart, create_group-Apart,
}
use vibe_net_backend.Api.Routes

module _ (env : Env) (u : ℕ) (t0 : Tables) where
  abbrev Kept : Tables → Type 0
  Kept t = OthersKept u t0 t

  -- The caller is `u`.
  mine :
      {B : Type 0} (f : ℕ → Serve B) → Keeps Kept (f u) → Keeps Kept (authenticated (some u) >>= f)
  unfolding or_refuse continue
  mine f k = record { at = λ s p. k.at s p }

  deactivate_account-Own : Keeps Kept (deactivate_account env (some u))
  unfolding deactivate_account
  deactivate_account-Own = mine _ (search (keeps_rules, deactivate_user-Own))

  delete_account-Own : Keeps Kept (delete_account env (some u))
  unfolding delete_account
  delete_account-Own = mine _ (search (keeps_rules, delete_user-Own))

  change_public_key-Own : (body : Option String) → Keeps Kept (change_public_key env (some u) body)
  unfolding change_public_key
  change_public_key-Own body = search (mine, keeps_rules, update_public_key-Own) depth 20

  change_profile-Own :
      (body : Option ProfileUpdateRequest) → Keeps Kept (change_profile env (some u) body)
  unfolding change_profile
  change_profile-Own body =
      search (mine, keeps_rules, update_profile-Own, broadcast_user_update-Keeps) depth 20

  change_pin_settings-Own :
      (body : Option PinSettingsRequest) → Keeps Kept (change_pin_settings env (some u) body)
  unfolding change_pin_settings
  change_pin_settings-Own body =
      search (mine, keeps_rules, update_pin_settings-Own, requested_pin-Keeps) depth 20

  upload_avatar-Own : (form : AvatarForm) → Keeps Kept (upload_avatar env (some u) form)
  unfolding upload_avatar
  upload_avatar-Own form = mine _ (
      search
        (
          keeps_rules, update_avatar_url-Own, store_uploaded_avatar-Keeps, or_discard-Keeps,
          broadcast_user_update-Keeps,
        )
        depth 20)

  of_groups : (t : Tables) (rs : List Group) → Kept t → Kept (group_table.put rs t)
  of_groups t rs k = k

  of_members : (t : Tables) (rs : List GroupMember) → Kept t → Kept (group_member_table.put rs t)
  of_members t rs k = k

  of_invites : (t : Tables) (rs : List GroupInvite) → Kept t → Kept (group_invite_table.put rs t)
  of_invites t rs k = k

  forget-Own : {A : Type 0} (m : Serve A) → Keeps Kept m → Keeps Kept (Routes.forget m)
  unfolding Routes.forget
  forget-Own m km = Keeps-bind _ _ km (λ a. Keeps-pure tt)

  handle-Own :
      (e : Routes.Endpoint) → Routes.is_open e ≡ false → Keeps Kept (Routes.handle env (some u) e)
  unfolding Routes.handle Routes.is_open
  handle-Own (Routes.registers body) closed = absurd (ground arith)
  handle-Own Routes.starts_google_login closed = absurd (ground arith)
  handle-Own (Routes.comes_from_google r) closed = absurd (ground arith)
  handle-Own Routes.shows_me closed = forget-Own _ (get_me-Keeps env (some u))
  handle-Own Routes.deactivates closed = forget-Own _ (deactivate_account-Own)
  handle-Own Routes.deletes closed = forget-Own _ (delete_account-Own)
  handle-Own (Routes.changes_profile body) closed = forget-Own _ (change_profile-Own body)
  handle-Own (Routes.uploads_avatar form) closed = forget-Own _ (upload_avatar-Own form)
  handle-Own (Routes.signs_upload filename) closed =
      forget-Own _ (get_upload_url-Keeps env filename)
  handle-Own (Routes.signs_download key) closed = forget-Own _ (get_download_url-Keeps env key)
  handle-Own (Routes.changes_key body) closed = forget-Own _ (change_public_key-Own body)
  handle-Own (Routes.changes_pin body) closed = forget-Own _ (change_pin_settings-Own body)
  handle-Own (Routes.verifies_pin body) closed = forget-Own _ (verify_pin-Keeps env (some u) body)
  handle-Own Routes.shows_pin closed = forget-Own _ (get_my_chat_pin-Keeps env (some u))
  handle-Own (Routes.searches username) closed = forget-Own _ (search_users-Keeps env username)
  handle-Own (Routes.shows_key id) closed = forget-Own _ (get_user_public_key-Keeps env id)
  handle-Own (Routes.verifies_peer_pin id body) closed =
      forget-Own _ (verify_peer_pin-Keeps env (some u) id body)
  handle-Own Routes.lists_conversations closed =
      forget-Own _ (get_discoverable_conversations-Keeps env (some u))
  handle-Own (Routes.creates_group body) closed =
      forget-Own _ (create_group-Apart env Kept of_groups of_members of_invites (some u) body)
  handle-Own Routes.lists_groups closed = forget-Own _ (list_groups-Keeps env (some u))
  handle-Own (Routes.renames_group id body) closed =
      forget-Own _ (update_group-Apart env Kept of_groups of_members of_invites (some u) id body)
  handle-Own (Routes.uploads_group_avatar id form) closed =
      forget-Own _
        (upload_group_avatar-Apart env Kept of_groups of_members of_invites (some u) id form)
  handle-Own (Routes.adds_member id body) closed =
      forget-Own _
        (add_group_member-Apart env Kept of_groups of_members of_invites (some u) id body)
  handle-Own (Routes.changes_role id user_id body) closed =
      forget-Own _
        (change_member_role-Apart env Kept of_groups of_members of_invites (some u) id user_id body)
  handle-Own (Routes.removes_member id user_id) closed =
      forget-Own _
        (remove_group_member-Apart env Kept of_groups of_members of_invites (some u) id user_id)
  handle-Own (Routes.leaves_group id) closed =
      forget-Own _ (leave-Apart env Kept of_groups of_members of_invites (some u) id)
  handle-Own Routes.lists_invites closed = forget-Own _ (list_invites-Keeps env (some u))
  handle-Own (Routes.accepts_invite body) closed =
      forget-Own _
        (accept_group_invite-Apart env Kept of_groups of_members of_invites (some u) body)
  handle-Own (Routes.declines_invite body) closed =
      forget-Own _
        (decline_group_invite-Apart env Kept of_groups of_members of_invites (some u) body)

-- A request to a route behind the authentication, whose token names a user, leaves the accounts
-- of all other users as they were, in any order, whatever it asks for and whether it succeeds or
-- fails.
pub route-Own :
    (env : Env) (validate : String → Option Claims) (r : Request) (e : Routes.Endpoint) (s : Server)
    (me : ℕ) (name : String)
    → Routes.is_open e ≡ false
    → jwt_auth_middleware validate env.parse_uuid r ≡ admitted me name
    → OthersKept me s.db.tables (Routes.route env validate (r, e) s).1.db.tables
unfolding Routes.route Routes.guarded
route-Own env validate r e s me name closed known =
    rw (closed, known) ((handle-Own env me s.db.tables e closed).at s (λ q. refl))
