-- ===== src/Api/Authority/Ruling.antt =====
-- internal/api: every request changes the groups only where the one who sends it may do so.
use vibe_net_backend.Base.{
  ℕ, String, Option, none, some, List, ◌≡◌, ◌⊎◌, refl, inl, inr, subst, Bool-cases, trim_space,
}
use vibe_net_backend.Models.{User}
use vibe_net_backend.Db.Store.{Tables, user_table}
use vibe_net_backend.Db.Reading.{reading}
use vibe_net_backend.Access.{
  Claims, Request, Answer, admitted, refused as turned_away, jwt_auth_middleware,
}
use vibe_net_backend.Api.{Env, Server, Serve, or_refuse, ◌>>=◌}
use vibe_net_backend.Api.Keeping.{
  Keeps, Keeps-bind, Keeps-bind_known, Keeps-or_refuse, Keeps-pure, Keeps-ask, Keeps-time_now,
  or_refuse-done, keeps_rules,
}
use vibe_net_backend.Api.Sound.{
  notify_group_updated-Keeps, nudge_others-Keeps, list_groups-Keeps, list_invites-Keeps,
}
use vibe_net_backend.Api.Sparing.{
  get_me-Keeps, get_user_public_key-Keeps, search_users-Keeps, get_discoverable_conversations-Keeps,
  verify_pin-Keeps, verify_peer_pin-Keeps, get_my_chat_pin-Keeps, get_upload_url-Keeps,
  get_download_url-Keeps, register-Keeps, deactivate_account-Keeps, delete_account-Keeps,
  change_profile-Keeps, change_public_key-Keeps, change_pin_settings-Keeps, upload_avatar-Keeps,
  google_login-Keeps, google_callback-Keeps,
}
use vibe_net_backend.Api.Groups.{CreateGroupRequest, create_group, update_group}
use vibe_net_backend.Api.Members.{
  AddMemberRequest, add_group_member, accept_group_invite, decline_group_invite, change_member_role,
  leave, remove_group_member,
}
use vibe_net_backend.Api.Uploads.{AvatarForm, upload_group_avatar}
use vibe_net_backend.Api.Routes
use vibe_net_backend.Api.Authority.{Alike, Alike-refl, Ruled, May}
use vibe_net_backend.Api.Authority.Guarded.{
  members_only, admins_only, leave_group-Ruled, accept_invite-Ruled, decline_invite-Ruled,
}

-- The caller is known, and may use the route on the groups.
abbrev pub Entitled : Env → Option ℕ → Routes.Endpoint → Tables → Type 0
Entitled env caller e t = (me : ℕ) × (caller ≡ some me) × May env e me t

spared :
    (t0 : Tables) (Q : Type 0) (t : Tables) (rs : List User)
    → Ruled t0 Q t
    → Ruled t0 Q (user_table.put rs t)
spared t0 Q t rs (inl a) =
    inl (record { groups = a.groups; members = a.members; invites = a.invites })
spared t0 Q t rs (inr q) = inr q

module _ (env : Env) (t0 : Tables) where
  -- Behind the authentication the caller is known.
  known :
      {A B : Type 0} {Q : Type 0} (o : Option A) (code : ℕ) (message : String) (f : A → Serve B)
      → ((a : A) → o ≡ some a → Keeps (Ruled t0 Q) (f a))
      → Keeps (Ruled t0 Q) (or_refuse o code message >>= f)
  known o code message f h =
      Keeps-bind_known (or_refuse o code message) f (λ a. o ≡ some a)
        (λ s a s1 e. (or_refuse-done o code message s e).0) (Keeps-or_refuse o code message) h

  create_group-Ruled :
      (caller : Option ℕ) (body : Option CreateGroupRequest)
      → Keeps
          (Ruled t0 (Entitled env caller (Routes.creates_group body) t0))
          (create_group env caller body)
  unfolding create_group May
  create_group-Ruled caller body =
      known caller _ _ _ (λ me e. record { at = λ s p. inr (me, e, tt) })

  update_group-Ruled :
      (caller : Option ℕ) (id : String) (body : Option String)
      → Keeps
          (Ruled t0 (Entitled env caller (Routes.renames_group id body) t0))
          (update_group env caller id body)
  unfolding update_group May
  update_group-Ruled caller id body =
      known caller _ _ _
        (λ me e. members_only env id me t0 _ _ (λ g named member. (me, e, (g, named, member))))

  upload_group_avatar-Ruled :
      (caller : Option ℕ) (id : String) (form : AvatarForm)
      → Keeps
          (Ruled t0 (Entitled env caller (Routes.uploads_group_avatar id form) t0))
          (upload_group_avatar env caller id form)
  unfolding upload_group_avatar May
  upload_group_avatar-Ruled caller id form =
      known caller _ _ _
        (λ me e. members_only env id me t0 _ _ (λ g named member. (me, e, (g, named, member))))

  add_group_member-Ruled :
      (caller : Option ℕ) (id : String) (body : Option AddMemberRequest)
      → Keeps
          (Ruled t0 (Entitled env caller (Routes.adds_member id body) t0))
          (add_group_member env caller id body)
  unfolding add_group_member May
  add_group_member-Ruled caller id body =
      known caller _ _ _
        (λ me e. admins_only env id me t0 _ _ (λ g named admin. (me, e, (g, named, admin))))

  change_member_role-Ruled :
      (caller : Option ℕ) (id user_id : String) (body : Option String)
      → Keeps
          (Ruled t0 (Entitled env caller (Routes.changes_role id user_id body) t0))
          (change_member_role env caller id user_id body)
  unfolding change_member_role May
  change_member_role-Ruled caller id user_id body =
      known caller _ _ _
        (λ me e. admins_only env id me t0 _ _ (λ g named admin. (me, e, (g, named, admin))))

  remove_group_member-Ruled :
      (caller : Option ℕ) (id user_id : String)
      → Keeps
          (Ruled t0 (Entitled env caller (Routes.removes_member id user_id) t0))
          (remove_group_member env caller id user_id)
  unfolding remove_group_member May
  remove_group_member-Ruled caller id user_id =
      known caller _ _ _
        (λ me e. admins_only env id me t0 _ _ (λ g named admin. (me, e, (g, named, admin))))

  leave-Ruled :
      (caller : Option ℕ) (id : String)
      → Keeps (Ruled t0 (Entitled env caller (Routes.leaves_group id) t0)) (leave env caller id)
  unfolding leave May
  leave-Ruled caller id = known caller _ _ _ (λ me e. known (env.parse_uuid id) _ _ _ (λ g named.
      Keeps-bind _ _
        (Keeps-ask _ _
          (leave_group-Ruled env.sql t0 _ g me (λ member. (me, e, (g, named, member)))))
        (λ deleted. search (keeps_rules, notify_group_updated-Keeps) depth 40)))

  accept_group_invite-Ruled :
      (caller : Option ℕ) (body : Option String)
      → Keeps
          (Ruled t0 (Entitled env caller (Routes.accepts_invite body) t0))
          (accept_group_invite env caller body)
  unfolding accept_group_invite May
  accept_group_invite-Ruled caller body = known caller _ _ _ (λ me e. known body _ _ _ (λ id given.
      known (env.parse_uuid (trim_space id)) _ _ _ (λ i named.
        Keeps-bind _ _ (Keeps-time_now env) (λ now.
          Keeps-bind _ _
            (Keeps-ask _ _ (
              accept_invite-Ruled env.sql t0 _ i me now
                (λ invited. (me, e, (id, given, (i, named, invited))))))
            (λ invite. search (keeps_rules, reading, nudge_others-Keeps) depth 40)))))

  decline_group_invite-Ruled :
      (caller : Option ℕ) (body : Option String)
      → Keeps
          (Ruled t0 (Entitled env caller (Routes.declines_invite body) t0))
          (decline_group_invite env caller body)
  unfolding decline_group_invite May
  decline_group_invite-Ruled caller body = known caller _ _ _ (λ me e. known body _ _ _ (λ id given.
      known (env.parse_uuid (trim_space id)) _ _ _ (λ i named.
        Keeps-bind _ _
          (Keeps-ask _ _ (
            decline_invite-Ruled env.sql t0 _ i me
              (λ invited. (me, e, (id, given, (i, named, invited))))))
          (λ _. Keeps-pure _))))

  forget-Ruled :
      {A : Type 0} {Q : Type 0} (m : Serve A)
      → Keeps (Ruled t0 Q) m
      → Keeps (Ruled t0 Q) (Routes.forget m)
  unfolding Routes.forget
  forget-Ruled m km = Keeps-bind _ _ km (λ a. Keeps-pure tt)

  handle-Ruled :
      (caller : Option ℕ) (e : Routes.Endpoint)
      → Keeps (Ruled t0 (Entitled env caller e t0)) (Routes.handle env caller e)
  unfolding Routes.handle
  handle-Ruled caller (Routes.registers body) =
      forget-Ruled _ (register-Keeps env _ (spared t0 _) body)
  handle-Ruled caller Routes.starts_google_login = forget-Ruled _ (google_login-Keeps env)
  handle-Ruled caller (Routes.comes_from_google r) =
      forget-Ruled _ (google_callback-Keeps env _ (spared t0 _) r)
  handle-Ruled caller Routes.shows_me = forget-Ruled _ (get_me-Keeps env caller)
  handle-Ruled caller Routes.deactivates =
      forget-Ruled _ (deactivate_account-Keeps env _ (spared t0 _) caller)
  handle-Ruled caller Routes.deletes =
      forget-Ruled _ (delete_account-Keeps env _ (spared t0 _) caller)
  handle-Ruled caller (Routes.changes_profile body) =
      forget-Ruled _ (change_profile-Keeps env _ (spared t0 _) caller body)
  handle-Ruled caller (Routes.uploads_avatar form) =
      forget-Ruled _ (upload_avatar-Keeps env _ (spared t0 _) caller form)
  handle-Ruled caller (Routes.signs_upload filename) =
      forget-Ruled _ (get_upload_url-Keeps env filename)
  handle-Ruled caller (Routes.signs_download key) = forget-Ruled _ (get_download_url-Keeps env key)
  handle-Ruled caller (Routes.changes_key body) =
      forget-Ruled _ (change_public_key-Keeps env _ (spared t0 _) caller body)
  handle-Ruled caller (Routes.changes_pin body) =
      forget-Ruled _ (change_pin_settings-Keeps env _ (spared t0 _) caller body)
  handle-Ruled caller (Routes.verifies_pin body) = forget-Ruled _ (verify_pin-Keeps env caller body)
  handle-Ruled caller Routes.shows_pin = forget-Ruled _ (get_my_chat_pin-Keeps env caller)
  handle-Ruled caller (Routes.searches username) = forget-Ruled _ (search_users-Keeps env username)
  handle-Ruled caller (Routes.shows_key id) = forget-Ruled _ (get_user_public_key-Keeps env id)
  handle-Ruled caller (Routes.verifies_peer_pin id body) =
      forget-Ruled _ (verify_peer_pin-Keeps env caller id body)
  handle-Ruled caller Routes.lists_conversations =
      forget-Ruled _ (get_discoverable_conversations-Keeps env caller)
  handle-Ruled caller (Routes.creates_group body) = forget-Ruled _ (create_group-Ruled caller body)
  handle-Ruled caller Routes.lists_groups = forget-Ruled _ (list_groups-Keeps env caller)
  handle-Ruled caller (Routes.renames_group id body) =
      forget-Ruled _ (update_group-Ruled caller id body)
  handle-Ruled caller (Routes.uploads_group_avatar id form) =
      forget-Ruled _ (upload_group_avatar-Ruled caller id form)
  handle-Ruled caller (Routes.adds_member id body) =
      forget-Ruled _ (add_group_member-Ruled caller id body)
  handle-Ruled caller (Routes.changes_role id user_id body) =
      forget-Ruled _ (change_member_role-Ruled caller id user_id body)
  handle-Ruled caller (Routes.removes_member id user_id) =
      forget-Ruled _ (remove_group_member-Ruled caller id user_id)
  handle-Ruled caller (Routes.leaves_group id) = forget-Ruled _ (leave-Ruled caller id)
  handle-Ruled caller Routes.lists_invites = forget-Ruled _ (list_invites-Keeps env caller)
  handle-Ruled caller (Routes.accepts_invite body) =
      forget-Ruled _ (accept_group_invite-Ruled caller body)
  handle-Ruled caller (Routes.declines_invite body) =
      forget-Ruled _ (decline_group_invite-Ruled caller body)

same_caller : {a b : ℕ} → some a ≡ some b → b ≡ a
same_caller h = cc

nobody : {b : ℕ} → none ≡ some b → ⊥
nobody h = cc

module _ (env : Env) (validate : String → Option Claims) where
  -- A token of the request validates and names the caller, who may do what the route does.
  abbrev pub MayAs : Request → Routes.Endpoint → Tables → Type 0
  MayAs r e t =
      (me : ℕ) × (name : String) × (jwt_auth_middleware validate env.parse_uuid r
        ≡ admitted me name)
      × May env e me t

  guarded_lem :
      (r : Request) (answer : Answer) (e : Routes.Endpoint) (s : Server)
      → jwt_auth_middleware validate env.parse_uuid r ≡ answer
      → Ruled s.db.tables
          (MayAs r e s.db.tables)
          (Routes.guarded env validate answer e s).1.db.tables
  unfolding Routes.guarded
  guarded_lem r (turned_away code message) e s h = inl (Alike-refl s.db.tables)
  guarded_lem r (admitted me name) e s h =
      elim ((handle-Ruled env s.db.tables (some me) e).at s (inl (Alike-refl s.db.tables))) [
        | inl same ↦ inl same
        | inr (u, given, may) ↦
            inr (me, name, h, subst (λ x. May env e x s.db.tables) (same_caller given) may)
      ]

  open_lem :
      (r : Request) (e : Routes.Endpoint) (s : Server)
      → Alike s.db.tables (Routes.handle env none e s).1.db.tables ⊎ MayAs r e s.db.tables
  open_lem r e s =
      elim ((handle-Ruled env s.db.tables none e).at s (inl (Alike-refl s.db.tables))) [
        | inl same ↦ inl same
        | inr (u, given, may) ↦ absurd (nobody given)
      ]

  -- Whatever a request to a route is, it leaves the bags of groups, members and invitations as
  -- they were, or its token validates for a user to whom `May` grants the route: any user for a
  -- new group, a member for its name, its photo and for leaving, an owner or an admin for its
  -- members, their roles and invitations, and the user whom a pending invitation is for to answer
  -- it. The routes of accounts never change a group.
  pub route-MayAs :
      (r : Request) (e : Routes.Endpoint) (s : Server)
      → Alike s.db.tables (Routes.route env validate (r, e) s).1.db.tables ⊎ MayAs r e s.db.tables
  unfolding Routes.route
  route-MayAs r e s = elim (Bool-cases (Routes.is_open e)) [
    | inl y ↦ rw y (open_lem r e s)
    | inr n ↦ rw n (guarded_lem r _ e s refl)
  ]
