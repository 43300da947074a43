-- ===== src/Api/Serving.antt =====
-- internal/api: the states of the server that requests lead to, one after another.
use vibe_net_backend.Base.{ℕ, String, Option, none, some, List, [], ◌∷◌}
use vibe_net_backend.Models.{User}
use vibe_net_backend.Db.Store.{Tables, user_table}
use vibe_net_backend.Db.Store.Reads.{Saves}
use vibe_net_backend.Db.Groups.{update_group_avatar}
use vibe_net_backend.Db.Groups.Sound.{IsSound}
use vibe_net_backend.Db.Groups.Changes.{update_group_avatar-IsSound}
use vibe_net_backend.Db.Lifetime.{empty_db, starts, Reach-groups-IsSound}
use vibe_net_backend.Access.{Claims, Request, Answer, admitted, refused as turned_away}
use vibe_net_backend.Api.{Env, Server, Serve}
use vibe_net_backend.Api.Keeping.{
  Keeps, Keeps-bind, Keeps-pure, Keeps-refuse, Keeps-if, keeps_rules,
}
use vibe_net_backend.Api.Sound.{
  require_group_member-Keeps, show_group-Keeps, list_groups-Keeps, list_invites-Keeps,
  update_group-IsSound, leave-IsSound, remove_group_member-IsSound, accept_group_invite-IsSound,
  decline_group_invite-IsSound, add_group_member-IsSound, change_member_role-IsSound,
}
use vibe_net_backend.Api.Founding.{create_group-IsSound}
use vibe_net_backend.Api.Sparing.{
  get_me-Keeps, get_user_public_key-Keeps, search_users-Keeps, get_discoverable_conversations-Keeps,
  verify_pin-Keeps, verify_peer_pin-Keeps, get_my_chat_pin-Keeps, get_upload_url-Keeps,
  get_download_url-Keeps, store_uploaded_avatar-Keeps, or_discard-Keeps, register-Keeps,
  deactivate_account-Keeps, delete_account-Keeps, change_profile-Keeps, change_public_key-Keeps,
  change_pin_settings-Keeps, upload_avatar-Keeps, google_login-Keeps, google_callback-Keeps,
}
use vibe_net_backend.Api.Uploads.{AvatarForm, upload_group_avatar}
use vibe_net_backend.Api.Routes

-- A server that has just started, with an empty database.
abbrev pub fresh_server : Server
fresh_server = record { db = empty_db; effects = []; names = 0 }

spared : (any : ℕ) (t : Tables) (rs : List User) → IsSound any t → IsSound any (user_table.put rs t)
spared any t rs v = record { governed = v.governed; invited = v.invited; founded = v.founded }

module _ (env : Env) (any : ℕ) where
  update_group_avatar-Saves :
      (g : ℕ) (url : String) → Saves (IsSound any) (update_group_avatar env.sql g url)
  update_group_avatar-Saves g url = record {
    at = λ db v. update_group_avatar-IsSound env.sql g db any v url;
  }

  upload_group_avatar-IsSound :
      (caller : Option ℕ) (id : String) (form : AvatarForm)
      → Keeps (IsSound any) (upload_group_avatar env caller id form)
  unfolding upload_group_avatar
  upload_group_avatar-IsSound caller id form =
      search
        (
          keeps_rules,
          require_group_member-Keeps {0} env,
          store_uploaded_avatar-Keeps {0} env,
          or_discard-Keeps {0} env,
          show_group-Keeps {0} env,
          update_group_avatar-Saves,
        )
        depth 40

  forget-IsSound :
      {A : Type 0} (m : Serve A) → Keeps (IsSound any) m → Keeps (IsSound any) (Routes.forget m)
  unfolding Routes.forget
  forget-IsSound m km = Keeps-bind _ _ km (λ a. Keeps-pure tt)

  handle-IsSound :
      (caller : Option ℕ) (e : Routes.Endpoint) → Keeps (IsSound any) (Routes.handle env caller e)
  unfolding Routes.handle
  handle-IsSound caller (Routes.registers body) =
      forget-IsSound _ (register-Keeps env _ (spared any) body)
  handle-IsSound caller Routes.starts_google_login = forget-IsSound _ (google_login-Keeps env)
  handle-IsSound caller (Routes.comes_from_google r) =
      forget-IsSound _ (google_callback-Keeps env _ (spared any) r)
  handle-IsSound caller Routes.shows_me = forget-IsSound _ (get_me-Keeps env caller)
  handle-IsSound caller Routes.deactivates =
      forget-IsSound _ (deactivate_account-Keeps env _ (spared any) caller)
  handle-IsSound caller Routes.deletes =
      forget-IsSound _ (delete_account-Keeps env _ (spared any) caller)
  handle-IsSound caller (Routes.changes_profile body) =
      forget-IsSound _ (change_profile-Keeps env _ (spared any) caller body)
  handle-IsSound caller (Routes.uploads_avatar form) =
      forget-IsSound _ (upload_avatar-Keeps env _ (spared any) caller form)
  handle-IsSound caller (Routes.signs_upload filename) =
      forget-IsSound _ (get_upload_url-Keeps env filename)
  handle-IsSound caller (Routes.signs_download key) =
      forget-IsSound _ (get_download_url-Keeps env key)
  handle-IsSound caller (Routes.changes_key body) =
      forget-IsSound _ (change_public_key-Keeps env _ (spared any) caller body)
  handle-IsSound caller (Routes.changes_pin body) =
      forget-IsSound _ (change_pin_settings-Keeps env _ (spared any) caller body)
  handle-IsSound caller (Routes.verifies_pin body) =
      forget-IsSound _ (verify_pin-Keeps env caller body)
  handle-IsSound caller Routes.shows_pin = forget-IsSound _ (get_my_chat_pin-Keeps env caller)
  handle-IsSound caller (Routes.searches username) =
      forget-IsSound _ (search_users-Keeps env username)
  handle-IsSound caller (Routes.shows_key id) = forget-IsSound _ (get_user_public_key-Keeps env id)
  handle-IsSound caller (Routes.verifies_peer_pin id body) =
      forget-IsSound _ (verify_peer_pin-Keeps env caller id body)
  handle-IsSound caller Routes.lists_conversations =
      forget-IsSound _ (get_discoverable_conversations-Keeps env caller)
  handle-IsSound caller (Routes.creates_group body) =
      forget-IsSound _ (create_group-IsSound env any caller body)
  handle-IsSound caller Routes.lists_groups = forget-IsSound _ (list_groups-Keeps env caller)
  handle-IsSound caller (Routes.renames_group id body) =
      forget-IsSound _ (update_group-IsSound env any caller id body)
  handle-IsSound caller (Routes.uploads_group_avatar id form) =
      forget-IsSound _ (upload_group_avatar-IsSound caller id form)
  handle-IsSound caller (Routes.adds_member id body) =
      forget-IsSound _ (add_group_member-IsSound env any caller id body)
  handle-IsSound caller (Routes.changes_role id user_id body) =
      forget-IsSound _ (change_member_role-IsSound env any caller id user_id body)
  handle-IsSound caller (Routes.removes_member id user_id) =
      forget-IsSound _ (remove_group_member-IsSound env any caller id user_id)
  handle-IsSound caller (Routes.leaves_group id) =
      forget-IsSound _ (leave-IsSound env any caller id)
  handle-IsSound caller Routes.lists_invites = forget-IsSound _ (list_invites-Keeps env caller)
  handle-IsSound caller (Routes.accepts_invite body) =
      forget-IsSound _ (accept_group_invite-IsSound env any caller body)
  handle-IsSound caller (Routes.declines_invite body) =
      forget-IsSound _ (decline_group_invite-IsSound env any caller body)

  module _ (validate : String → Option Claims) where
    guarded-IsSound :
        (answer : Answer) (e : Routes.Endpoint)
        → Keeps (IsSound any) (Routes.guarded env validate answer e)
    unfolding Routes.guarded
    guarded-IsSound (turned_away code message) e = Keeps-refuse _ _
    guarded-IsSound (admitted me username) e = handle-IsSound (some me) e

    route-IsSound :
        (r : Request) (e : Routes.Endpoint) → Keeps (IsSound any) (Routes.route env validate (r, e))
    unfolding Routes.route
    route-IsSound r e = Keeps-if _ _ _ (handle-IsSound none e) (guarded-IsSound _ e)

    from-IsSound :
        (requests : List (Request × Routes.Endpoint)) (s : Server)
        → IsSound any s.db.tables
        → IsSound any (Routes.serve_all env validate requests s).db.tables
    unfolding Routes.serve_all
    from-IsSound [] s v = v
    from-IsSound ((r, e) ∷ requests) s v = from-IsSound requests _ ((route-IsSound r e).at s v)

    -- After any list of requests to the HTTP routes, from anybody, one after another, on a server
    -- with no rows, every group is sound, as `IsSound` describes it: nothing is assumed of what
    -- callers send, of the check of tokens, or of which statements fail. The database is any that
    -- meets the laws of `Sql`.
    pub serve_all-IsSound :
        (requests : List (Request × Routes.Endpoint))
        → IsSound any (Routes.serve_all env validate requests fresh_server).db.tables
    serve_all-IsSound requests =
        from-IsSound requests fresh_server (Reach-groups-IsSound env.sql any starts)
