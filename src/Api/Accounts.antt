-- ===== src/Api/Accounts.antt =====
-- internal/api/handler.go: the handlers of accounts.
use vibe_net_backend.Base.{
  ℕ, String, Bool, ◌||◌, Option, none, some, List, map, if◌then◌else◌, ltb, ◌==◌, ℕ_eq, String_eq,
  trim_space, byte_len,
}
use vibe_net_backend.Models.{User, user_status_deleted}
use vibe_net_backend.Db.Store.{
  Error, record_not_found, email_taken, phone_taken, unique_violation, username_taken,
}
use vibe_net_backend.Db.Users.{
  create_user, get_user_by_id, update_profile, deactivate_user, delete_user, update_public_key,
  PublicKeyInfo, get_public_key, display_name_of,
}
use vibe_net_backend.Db.Search.{search_users_by_username}
use vibe_net_backend.Db.Rosters.{DiscoverableDm, list_discoverable_dms}
use vibe_net_backend.Api.{
  Env, user_update, broadcast, Serve, ◌>>=◌, ◌>>◌, pure, refuse_if, refuse_invalid, or_refuse,
  authenticated, decoded, ask, failed, missing, emit, if_broadcaster, time_now,
}
use vibe_net_backend.Api.Validation.{
  validate_username, validate_display_name, validate_email, validate_phone_number,
  without_separators,
}

pub record RegisterRequest : Type 0 where
  pub username : String
  pub password : String
  pub email : String
  pub phone_number : String
  pub public_key : String

pub record ProfileUpdateRequest : Type 0 where
  pub username : String
  pub display_name : String

pub record UserSummary : Type 0 where
  pub user_id : ℕ
  pub username : String
  pub display_name : String
  pub email : Option String
  pub phone_number : Option String
  pub public_key : Option String
  pub avatar_url : Option String
  pub chat_pin_enabled : Bool
  pub chat_pin_type : String
  pub status : String

unfoldable pub to_user_summary : User → UserSummary
to_user_summary user = record {
  user_id = user.user_id;
  username = user.username;
  display_name = if trim_space user.display_name == "" then user.username else user.display_name;
  email = user.email;
  phone_number = user.phone_number;
  public_key = user.public_key;
  avatar_url = user.avatar_url;
  chat_pin_enabled = user.chat_pin_enabled;
  chat_pin_type = user.chat_pin_type;
  status = user.status;
}

pub record PublicKeyResponse : Type 0 where
  pub user_id : ℕ
  pub display_name : String
  pub public_key : String
  pub avatar_url : Option String
  pub last_seen : Option ℕ
  pub status : String

-- The answer to `GetUserPublicKey`: a deleted account is shown under no name of its own.
unfoldable pub key_response : ℕ → PublicKeyInfo → PublicKeyResponse
key_response u info = record {
  user_id = u;
  display_name = if info.status == user_status_deleted then "Deleted User" else info.display_name;
  public_key = info.public_key;
  avatar_url = if info.status == user_status_deleted then none else info.avatar_url;
  last_seen = info.last_seen;
  status = info.status;
}

pub record SearchResult : Type 0 where
  pub user_id : ℕ
  pub username : String
  pub display_name : String
  pub chat_pin_enabled : Bool
  pub avatar_url : Option String

unfoldable pub to_search_result : User → SearchResult
unfolding display_name_of
to_search_result user = record {
  user_id = user.user_id;
  username = user.username;
  display_name = display_name_of user;
  chat_pin_enabled = user.chat_pin_enabled;
  avatar_url = user.avatar_url;
}

-- The answers to the errors of `CreateUser` and of `UpdateProfile`. The message of a unique
-- violation holds "duplicate" or "unique".
abbrev pub not_created : Error → ℕ × String
not_created email_taken = (409, "email already registered")
not_created phone_taken = (409, "phone number already registered")
not_created unique_violation = (409, "username already exists")
not_created e = (500, "failed to create user")

abbrev pub not_renamed : Error → ℕ × String
not_renamed username_taken = (409, "username already taken")
not_renamed record_not_found = (404, "user not found")
not_renamed e = (500, "failed to update profile")

module _ (env : Env) where
  unfoldable pub register : Option RegisterRequest → Serve (String × UserSummary)
  unfolding to_user_summary
  register body = do
    req ← decoded body
    let username = trim_space req.username
    let public_key = trim_space req.public_key
    let email = trim_space req.email
    let phone = without_separators (trim_space req.phone_number)
    refuse_if
        (username == "" || req.password == "" || public_key == "" || email == "" || phone == "") 400
        "username, password, email, phone_number, and public_key are required"
    refuse_if (ltb (byte_len req.password) 8) 400 "password must be at least 8 characters"
    refuse_invalid (validate_email email)
    refuse_invalid (validate_phone_number phone)
    hash ← or_refuse (env.hash_password req.password) 500 "failed to hash password"
    now ← time_now env
    user ←
        ask (create_user env.sql username hash public_key (some email) (some phone) now) not_created
    token ← or_refuse (env.generate_token user.user_id user.username) 500 "failed to generate token"
    pure (token, to_user_summary user)

  unfoldable pub get_me : Option ℕ → Serve UserSummary
  unfolding to_user_summary
  get_me caller = do
    me ← authenticated caller
    user ← ask (get_user_by_id env.sql me) (missing 404 "user not found" "failed to fetch user")
    pure (to_user_summary user)

  unfoldable pub deactivate_account : Option ℕ → Serve String
  deactivate_account caller = do
    me ← authenticated caller
    ask (deactivate_user env.sql me) (missing 404 "user not found" "failed to deactivate account")
    pure "account deactivated"

  unfoldable pub delete_account : Option ℕ → Serve String
  delete_account caller = do
    me ← authenticated caller
    ask (delete_user env.sql me) (missing 404 "user not found" "failed to delete account")
    pure "account deleted"

  unfoldable pub broadcast_user_update : UserSummary → Serve (Unit {0})
  unfolding emit
  broadcast_user_update summary = if_broadcaster env (
      emit (
        broadcast
          (user_update summary.user_id summary.username summary.display_name summary.avatar_url)))

  unfoldable pub change_profile : Option ℕ → Option ProfileUpdateRequest → Serve UserSummary
  unfolding to_user_summary broadcast_user_update
  change_profile caller body = do
    req ← decoded body
    let username = trim_space req.username
    refuse_invalid (validate_username username)
    let given = trim_space req.display_name
    refuse_invalid (validate_display_name given)
    let display_name = if given == "" then username else given
    me ← authenticated caller
    user ← ask (update_profile env.sql env.lower me username display_name) not_renamed
    broadcast_user_update (to_user_summary user)
    pure (to_user_summary user)

  unfoldable pub change_public_key : Option ℕ → Option String → Serve String
  change_public_key caller body = do
    key ← decoded body
    refuse_if (trim_space key == "") 400 "public_key is required"
    me ← authenticated caller
    ask (update_public_key env.sql me (trim_space key))
        (missing 404 "user not found" "failed to update public key")
    pure "public key updated"

  unfoldable pub get_user_public_key : String → Serve PublicKeyResponse
  unfolding key_response
  get_user_public_key id = do
    u ← or_refuse (env.parse_uuid id) 400 "invalid user id"
    info ←
        ask (get_public_key env.sql u)
          (missing 404 "public key not found" "failed to fetch public key")
    pure (key_response u info)

  unfoldable pub search_users : String → Serve (List SearchResult)
  unfolding to_search_result
  search_users username = do
    let query = trim_space username
    refuse_if (query == "") 400 "username query parameter is required"
    users ←
        ask (search_users_by_username env.sql env.ilike env.collation query 20)
          (failed "failed to search users")
    pure (map to_search_result users)

  unfoldable pub get_discoverable_conversations : Option ℕ → Serve (List DiscoverableDm)
  get_discoverable_conversations caller = do
    me ← authenticated caller
    ask (list_discoverable_dms env.sql me) (failed "failed to list conversations")
