-- ===== src/Api/Sparing.antt =====
-- internal/api/handler.go and auth_google.go: the handlers of accounts and PINs keep what does not depend on the users'
-- rows.
use vibe_net_backend.Base.{ℕ, String, Option, none, some, List}
use vibe_net_backend.Models.{User}
use vibe_net_backend.Db.Store.{Tables, user_table, Error, Result, ok, err, unique_violation}
use vibe_net_backend.Db.Reading.{reading}
use vibe_net_backend.Db.Users.Sparing.{
  create_user-Saves, update_profile-Saves, update_avatar_url-Saves, update_public_key-Saves,
  deactivate_user-Saves, delete_user-Saves, update_pin_settings-Saves,
  create_or_get_user_by_google-Saves,
}
use vibe_net_backend.Api.{Env}
use vibe_net_backend.Api.Keeping.{
  Keeps, Keeps-bind, Keeps-refuse, Keeps-pure, Keeps-emit, Keeps-refuse_if, Keeps-time_now,
  Keeps-attempt, keeps_rules,
}
use vibe_net_backend.Api.Accounts.{
  RegisterRequest, ProfileUpdateRequest, UserSummary, register, get_me, deactivate_account,
  delete_account, broadcast_user_update, change_profile, change_public_key, get_user_public_key,
  search_users, get_discoverable_conversations,
}
use vibe_net_backend.Api.Pins.{
  PinSettingsRequest, verify_pin, verify_peer_pin, requested_pin, change_pin_settings,
  get_my_chat_pin,
}
use vibe_net_backend.Auth.Google.{GoogleUserInfo}
use vibe_net_backend.Api.Google.{
  CallbackRequest, google_login, or_unprovisioned, provision_again, provisioned, provision,
  open_session, admit, google_callback,
}
use vibe_net_backend.Api.Uploads.{
  AvatarForm, malformed, no_file, file, get_upload_url, get_download_url, uploaded_file, put,
  store_uploaded_avatar, or_discard, upload_avatar,
}
use vibe_net_backend.Storage.{AvatarStore}

module _ {κ} (env : Env) {P : Tables → Type κ} where
  pub broadcast_user_update-Keeps :
      (summary : UserSummary) → Keeps P (broadcast_user_update env summary)
  unfolding broadcast_user_update
  broadcast_user_update-Keeps summary = search keeps_rules depth 40

  pub get_me-Keeps : (caller : Option ℕ) → Keeps P (get_me env caller)
  unfolding get_me
  get_me-Keeps caller = search (keeps_rules, reading) depth 40

  pub get_user_public_key-Keeps : (id : String) → Keeps P (get_user_public_key env id)
  unfolding get_user_public_key
  get_user_public_key-Keeps id = search (keeps_rules, reading) depth 40

  pub search_users-Keeps : (username : String) → Keeps P (search_users env username)
  unfolding search_users
  search_users-Keeps username = search (keeps_rules, reading) depth 40

  pub get_discoverable_conversations-Keeps :
      (caller : Option ℕ) → Keeps P (get_discoverable_conversations env caller)
  unfolding get_discoverable_conversations
  get_discoverable_conversations-Keeps caller = search (keeps_rules, reading) depth 40

  pub verify_pin-Keeps :
      (caller : Option ℕ) (body : Option String) → Keeps P (verify_pin env caller body)
  unfolding verify_pin
  verify_pin-Keeps caller body = search (keeps_rules, reading) depth 40

  pub verify_peer_pin-Keeps :
      (caller : Option ℕ) (id : String) (body : Option String)
      → Keeps P (verify_peer_pin env caller id body)
  unfolding verify_peer_pin
  verify_peer_pin-Keeps caller id body = search (keeps_rules, reading) depth 40

  pub requested_pin-Keeps : (t : String) (o : Option String) → Keeps P (requested_pin env t o)
  unfolding requested_pin
  requested_pin-Keeps t none = search keeps_rules
  requested_pin-Keeps t (some p) = search keeps_rules depth 40

  pub get_my_chat_pin-Keeps : (caller : Option ℕ) → Keeps P (get_my_chat_pin env caller)
  unfolding get_my_chat_pin
  get_my_chat_pin-Keeps caller = search (keeps_rules, reading) depth 40

  pub get_upload_url-Keeps : (filename : String) → Keeps P (get_upload_url env filename)
  unfolding get_upload_url
  get_upload_url-Keeps filename = search keeps_rules depth 40

  pub get_download_url-Keeps : (key : String) → Keeps P (get_download_url env key)
  unfolding get_download_url
  get_download_url-Keeps key = search keeps_rules depth 40

  uploaded_file-Keeps : (form : AvatarForm) → Keeps P (uploaded_file env form)
  unfolding uploaded_file
  uploaded_file-Keeps malformed = search keeps_rules
  uploaded_file-Keeps no_file = search keeps_rules
  uploaded_file-Keeps (file bytes) = search keeps_rules

  put-Keeps : (store : AvatarStore) (key : String) → Keeps P (put env store key)
  unfolding put
  put-Keeps store key = search keeps_rules depth 40

  pub store_uploaded_avatar-Keeps :
      (key_prefix : String) (form : AvatarForm)
      → Keeps P (store_uploaded_avatar env key_prefix form)
  unfolding store_uploaded_avatar
  store_uploaded_avatar-Keeps key_prefix form =
      search (keeps_rules, uploaded_file-Keeps, put-Keeps) depth 40

  pub or_discard-Keeps :
      {A : Type 0} (key : String) (answer : Error → ℕ × String) (outcome : Result A)
      → Keeps P (or_discard env key answer outcome)
  unfolding or_discard
  or_discard-Keeps key answer (ok a) = Keeps-pure a
  or_discard-Keeps key answer (err e) = Keeps-bind _ _ (Keeps-emit _) (λ u. Keeps-refuse _ _)

  pub google_login-Keeps : Keeps P (google_login env)
  unfolding google_login
  google_login-Keeps = search keeps_rules depth 40

  or_unprovisioned-Keeps : (r : Result User) → Keeps P (or_unprovisioned env r)
  unfolding or_unprovisioned
  or_unprovisioned-Keeps (ok user) = Keeps-pure user
  or_unprovisioned-Keeps (err e) = Keeps-refuse _ _

  admit-Keeps : (user : User) (message : Option String) → Keeps P (admit env user message)
  unfolding admit open_session
  admit-Keeps user none = search keeps_rules depth 40
  admit-Keeps user (some message) = search keeps_rules depth 40

-- The writers, for a property that does not depend on the users' rows.
module _ {κ} (env : Env) (P : Tables → Type κ)
    (spared : (t : Tables) (rs : List User) → P t → P (user_table.put rs t)) where
  pub register-Keeps : (body : Option RegisterRequest) → Keeps P (register env body)
  unfolding register
  register-Keeps body = search (keeps_rules, create_user-Saves env.sql P spared) depth 40

  pub deactivate_account-Keeps : (caller : Option ℕ) → Keeps P (deactivate_account env caller)
  unfolding deactivate_account
  deactivate_account-Keeps caller =
      search (keeps_rules, deactivate_user-Saves env.sql P spared) depth 40

  pub delete_account-Keeps : (caller : Option ℕ) → Keeps P (delete_account env caller)
  unfolding delete_account
  delete_account-Keeps caller = search (keeps_rules, delete_user-Saves env.sql P spared) depth 40

  pub change_profile-Keeps :
      (caller : Option ℕ) (body : Option ProfileUpdateRequest)
      → Keeps P (change_profile env caller body)
  unfolding change_profile
  change_profile-Keeps caller body =
      search
        (keeps_rules, broadcast_user_update-Keeps {κ} env, update_profile-Saves env.sql P spared)
        depth 40

  pub change_public_key-Keeps :
      (caller : Option ℕ) (body : Option String) → Keeps P (change_public_key env caller body)
  unfolding change_public_key
  change_public_key-Keeps caller body =
      search (keeps_rules, update_public_key-Saves env.sql P spared) depth 40

  pub change_pin_settings-Keeps :
      (caller : Option ℕ) (body : Option PinSettingsRequest)
      → Keeps P (change_pin_settings env caller body)
  unfolding change_pin_settings
  change_pin_settings-Keeps caller body =
      search (keeps_rules, requested_pin-Keeps {κ} env, update_pin_settings-Saves env.sql P spared)
        depth 40

  pub upload_avatar-Keeps :
      (caller : Option ℕ) (form : AvatarForm) → Keeps P (upload_avatar env caller form)
  unfolding upload_avatar
  upload_avatar-Keeps caller form =
      search
        (
          keeps_rules,
          store_uploaded_avatar-Keeps {κ} env,
          or_discard-Keeps {κ} env,
          broadcast_user_update-Keeps {κ} env,
          update_avatar_url-Saves env.sql P spared,
        )
        depth 40

  provision_again-Keeps :
      (profile : GoogleUserInfo) (username display_name : String)
      → Keeps P (provision_again env profile username display_name)
  unfolding provision_again
  provision_again-Keeps profile username display_name = Keeps-bind _ _ (Keeps-refuse_if _ _ _) (λ _.
      Keeps-bind _ _ (Keeps-time_now env) (λ now.
        Keeps-bind _ _
          (Keeps-attempt _ (create_or_get_user_by_google-Saves env.sql P spared _ _ _ _ _ now))
          (λ result. or_unprovisioned-Keeps {κ} env result)))

  provisioned-Keeps :
      (profile : GoogleUserInfo) (username display_name : String) (r : Result User)
      → Keeps P (provisioned env profile username display_name r)
  unfolding provisioned
  provisioned-Keeps profile username display_name (ok user) = Keeps-pure user
  provisioned-Keeps profile username display_name (err unique_violation) =
      provision_again-Keeps profile username display_name
  provisioned-Keeps profile username display_name (err e) = Keeps-refuse _ _

  provision-Keeps : (profile : GoogleUserInfo) → Keeps P (provision env profile)
  unfolding provision
  provision-Keeps profile =
      search (keeps_rules, create_or_get_user_by_google-Saves env.sql P spared, provisioned-Keeps)
        depth 40

  pub google_callback-Keeps : (r : CallbackRequest) → Keeps P (google_callback env r)
  unfolding google_callback
  google_callback-Keeps r = search (keeps_rules, provision-Keeps, admit-Keeps {κ} env) depth 40
