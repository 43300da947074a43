-- ===== src/Api/Routes.antt =====
-- internal/api/handler.go: the routes. `Login` and `GetChatHistory` stand in `Access`.
use vibe_net_backend.Base.{
  ℕ, String, Bool, true, false, Option, none, some, List, [], ◌∷◌, if◌then◌else◌,
}
use vibe_net_backend.Access.{
  Claims, Request, Answer, admitted, refused as turned_away, jwt_auth_middleware,
}
use vibe_net_backend.Api.{Env, Server, Serve, ◌>>=◌, pure, refuse}
use vibe_net_backend.Api.Groups.{CreateGroupRequest, create_group, list_groups, update_group}
use vibe_net_backend.Api.Members.{
  AddMemberRequest, add_group_member, list_invites, accept_group_invite, decline_group_invite,
  change_member_role, leave, remove_group_member,
}
use vibe_net_backend.Api.Accounts.{
  RegisterRequest, ProfileUpdateRequest, register, get_me, deactivate_account, delete_account,
  change_profile, change_public_key, get_user_public_key, search_users,
  get_discoverable_conversations,
}
use vibe_net_backend.Api.Google.{CallbackRequest, google_login, google_callback}
use vibe_net_backend.Api.Pins.{
  PinSettingsRequest, verify_pin, verify_peer_pin, change_pin_settings, get_my_chat_pin,
}
use vibe_net_backend.Api.Uploads.{
  AvatarForm, get_upload_url, get_download_url, upload_avatar, upload_group_avatar,
}

-- What a request asks for: its path parameters, its query or its body.
pub data Endpoint : Type 0 where
  registers : Option RegisterRequest → Endpoint
  starts_google_login : Endpoint
  comes_from_google : CallbackRequest → Endpoint
  shows_me deactivates deletes lists_groups lists_invites lists_conversations shows_pin : Endpoint
  changes_profile : Option ProfileUpdateRequest → Endpoint
  changes_key : Option String → Endpoint
  changes_pin : Option PinSettingsRequest → Endpoint
  verifies_pin : Option String → Endpoint
  verifies_peer_pin : String → Option String → Endpoint
  searches shows_key signs_upload signs_download : String → Endpoint
  uploads_avatar : AvatarForm → Endpoint
  uploads_group_avatar : String → AvatarForm → Endpoint
  creates_group : Option CreateGroupRequest → Endpoint
  renames_group : String → Option String → Endpoint
  adds_member : String → Option AddMemberRequest → Endpoint
  changes_role : String → String → Option String → Endpoint
  removes_member : String → String → Endpoint
  leaves_group : String → Endpoint
  accepts_invite declines_invite : Option String → Endpoint

-- The routes that stand outside the group with the middleware.
unfoldable pub is_open : Endpoint → Bool
is_open (registers body) = true
is_open starts_google_login = true
is_open (comes_from_google r) = true
is_open _ = false

-- The state after a reply is of interest here, and not the reply.
unfoldable pub forget {ℓ} : {A : Type ℓ} → Serve A → Serve (Unit {0})
forget m = m >>= λ _. pure tt

module _ (env : Env) where
  unfoldable pub handle : Option ℕ → Endpoint → Serve (Unit {0})
  unfolding forget
  handle caller (registers body) = forget (register env body)
  handle caller starts_google_login = forget (google_login env)
  handle caller (comes_from_google r) = forget (google_callback env r)
  handle caller shows_me = forget (get_me env caller)
  handle caller deactivates = forget (deactivate_account env caller)
  handle caller deletes = forget (delete_account env caller)
  handle caller (changes_profile body) = forget (change_profile env caller body)
  handle caller (uploads_avatar form) = forget (upload_avatar env caller form)
  handle caller (signs_upload filename) = forget (get_upload_url env filename)
  handle caller (signs_download key) = forget (get_download_url env key)
  handle caller (changes_key body) = forget (change_public_key env caller body)
  handle caller (changes_pin body) = forget (change_pin_settings env caller body)
  handle caller (verifies_pin body) = forget (verify_pin env caller body)
  handle caller shows_pin = forget (get_my_chat_pin env caller)
  handle caller (searches username) = forget (search_users env username)
  handle caller (shows_key id) = forget (get_user_public_key env id)
  handle caller (verifies_peer_pin id body) = forget (verify_peer_pin env caller id body)
  handle caller lists_conversations = forget (get_discoverable_conversations env caller)
  handle caller (creates_group body) = forget (create_group env caller body)
  handle caller lists_groups = forget (list_groups env caller)
  handle caller (renames_group id body) = forget (update_group env caller id body)
  handle caller (uploads_group_avatar id form) = forget (upload_group_avatar env caller id form)
  handle caller (adds_member id body) = forget (add_group_member env caller id body)
  handle caller (changes_role id user_id body) =
      forget (change_member_role env caller id user_id body)
  handle caller (removes_member id user_id) = forget (remove_group_member env caller id user_id)
  handle caller (leaves_group id) = forget (leave env caller id)
  handle caller lists_invites = forget (list_invites env caller)
  handle caller (accepts_invite body) = forget (accept_group_invite env caller body)
  handle caller (declines_invite body) = forget (decline_group_invite env caller body)

  -- `validate` is the check of a token.
  module _ (validate : String → Option Claims) where
    unfoldable pub guarded : Answer → Endpoint → Serve (Unit {0})
    unfolding handle
    guarded (turned_away code message) endpoint = refuse code message
    guarded (admitted me username) endpoint = handle (some me) endpoint

    unfoldable pub route : Request × Endpoint → Serve (Unit {0})
    unfolding guarded handle is_open
    route (r, endpoint) =
        if is_open endpoint
        then handle none endpoint
        else guarded (jwt_auth_middleware validate env.parse_uuid r) endpoint

    -- Requests that are served one after another.
    unfoldable pub serve_all : List (Request × Endpoint) → Server → Server
    unfolding route
    serve_all [] s = s
    serve_all (r ∷ rs) s = serve_all rs (route r s).1
