-- ===== src/Db/Users.antt =====
-- internal/db/postgres.go: the accounts, and the index of direct messages. `now` is the time of the
-- call, for the columns that GORM fills.
pub mod Unique
pub mod Renaming
pub mod Own
pub mod Sparing
pub mod Erasure
pub mod Google
use vibe_net_backend.Base.{
  ℕ, suc, ◌+◌, String, Bool, true, false, not, ◌&&◌, ◌||◌, Option, none, some, List, [], ◌∷◌, map,
  if◌then◌else◌, ◌==◌, ℕ_eq, String_eq, ltb, trim_space,
}
use vibe_net_backend.Models.{
  User, DmParticipant, chat_pin_rotating, chat_pin_static, user_status_active,
  user_status_deactivated, user_status_deleted,
}
use vibe_net_backend.Db.Sql.{Sql}
use vibe_net_backend.Db.Store.{
  M, Db, Error, record_not_found, username_taken, email_taken, invalid_pin_type, phone_taken,
  unique_violation, Result, ok, err, ◌>>=◌, ◌>>◌, bind, pure, fail, on_error, when, first, count,
  update, update_unique, create, create_missing, user_table, dm_participant_table, same_text,
}

-- WHERE user_id = u
abbrev pub is_user : ℕ → User → Bool
is_user u r = r.user_id == u

-- `if isUniqueViolation(err) { return nil, e }`
abbrev pub unique_as : Error → Error → Error
unique_as e unique_violation = e
unique_as _ e = e

-- An error is logged, and the call goes on.
abbrev pub logged {ℓ} : {A : Type ℓ} → Result A × Db → Result (Option A) × Db
logged (ok a, db) = (ok (some a), db)
logged (err e, db) = (ok none, db)

abbrev pub attempt {ℓ} : {A : Type ℓ} → M A → M (Option A)
attempt m db = logged (m db)

abbrev pub non_empty : Option String → Bool
non_empty none = false
non_empty (some s) = not (s == "")

-- The user that `CreateUser` builds.
abbrev pub new_user : String → String → String → Option String → Option String → ℕ → ℕ → User
new_user username password_hash public_key email phone_number now id = record {
  user_id = id;
  username = username;
  display_name = username;
  email = email;
  phone_number = phone_number;
  google_id = none;
  password_hash = some password_hash;
  public_key = some public_key;
  created_at = now;
  avatar_url = none;
  last_seen = none;
  chat_pin_enabled = true;
  chat_pin_type = chat_pin_rotating;
  custom_pin = none;
  status = user_status_active;
}

-- The user that `CreateOrGetUserByGoogle` builds, with the defaults of the columns that GORM leaves
-- out because they have their zero value.
abbrev pub new_google_user : String → String → String → String → String → ℕ → ℕ → User
new_google_user google_id email username display_name avatar_url now id = record {
  user_id = id;
  username = username;
  display_name = display_name;
  email = some email;
  phone_number = none;
  google_id = some google_id;
  password_hash = none;
  public_key = none;
  created_at = now;
  avatar_url = if avatar_url == "" then none else some avatar_url;
  last_seen = none;
  chat_pin_enabled = true;
  chat_pin_type = chat_pin_rotating;
  custom_pin = none;
  status = user_status_active;
}

-- `displayNameOf`
unfoldable pub display_name_of : User → String
display_name_of user =
    if not (trim_space user.display_name == "") then user.display_name else user.username

-- What `DeleteUser` makes of the row.
abbrev pub erased : User → User
erased r = record r {
  status = user_status_deleted;
  display_name = "";
  email = none;
  phone_number = none;
  avatar_url = none;
  google_id = none;
  password_hash = none;
  public_key = none;
  custom_pin = none;
  chat_pin_enabled = false;
}

pub record PublicKeyInfo : Type 0 where
  pub public_key : String
  pub avatar_url : Option String
  pub display_name : String
  pub last_seen : Option ℕ
  pub status : String

module _ (sql : Sql) where
  -- `Count` of the accounts with an e-mail address or a telephone number, if one is given.
  unfoldable pub check_free : Option String → (String → User → Bool) → Error → M (Unit {0})
  check_free none p e = pure tt
  check_free (some v) p e = do n ← count sql user_table (p v); when (ltb 0 n) (fail e)

  unfoldable pub create_user : String → String → String → Option String → Option String → ℕ → M User
  unfolding check_free
  create_user username password_hash public_key email phone_number now = do
    check_free email (λ v r. same_text r.email (some v)) email_taken
    check_free phone_number (λ v r. same_text r.phone_number (some v)) phone_taken
    on_error
        (create sql user_table (new_user username password_hash public_key email phone_number now))
        (unique_as email_taken)

  unfoldable pub get_user_by_username : String → M User
  get_user_by_username username = first sql user_table (λ r. r.username == username)

  unfoldable pub get_user_by_id : ℕ → M User
  get_user_by_id u = first sql user_table (is_user u)

  -- An account that Google knows already takes its new photo, and a name if it has none.
  unfoldable pub refresh_avatar : String → User → M User
  refresh_avatar avatar_url existing =
      if not (avatar_url == "") && not (same_text existing.avatar_url (some avatar_url))
      then (do
        changed ← attempt (
            update sql user_table (is_user existing.user_id)
              (λ r. record r { avatar_url = some avatar_url }))
        pure (elim changed [
          | none ↦ existing
          | some n ↦ record existing { avatar_url = some avatar_url }
        ]))
      else pure existing

  unfoldable pub backfill_display_name : String → User → M User
  backfill_display_name display_name existing =
      if existing.display_name == "" && not (display_name == "")
      then (do
        changed ← attempt (
            update sql user_table (is_user existing.user_id)
              (λ r. record r { display_name = display_name }))
        pure (elim changed [
          | none ↦ existing
          | some n ↦ record existing { display_name = display_name }
        ]))
      else pure existing

  unfoldable pub found_google_user :
      String → String → String → String → String → ℕ → Result User × Db → Result User × Db
  unfolding refresh_avatar backfill_display_name
  found_google_user google_id email username display_name avatar_url now (ok existing, db) =
      (refresh_avatar avatar_url existing >>= backfill_display_name display_name) db
  found_google_user google_id email username display_name avatar_url now
        (err record_not_found, db) =
      create sql user_table (new_google_user google_id email username display_name avatar_url now)
        db
  found_google_user google_id email username display_name avatar_url now (err e, db) = (err e, db)

  unfoldable pub create_or_get_user_by_google :
      String → String → String → String → String → ℕ → M User
  unfolding found_google_user
  create_or_get_user_by_google google_id email username display_name avatar_url now db =
      found_google_user google_id email username display_name avatar_url now
        (first sql user_table (λ r. same_text r.google_id (some google_id)) db)

  -- `lower` is LOWER of the database.
  unfoldable pub update_profile : (String → String) → ℕ → String → String → M User
  unfolding get_user_by_id
  update_profile lower u username display_name = do
    conflicts ←
        count sql user_table (λ r. lower r.username == lower username && not (r.user_id == u))
    when (ltb 0 conflicts) (fail username_taken)
    _ ←
        on_error
          (update_unique sql user_table (is_user u)
            (λ r. record r { username = username; display_name = display_name }))
          (unique_as username_taken)
    get_user_by_id u

  -- The updates of one column that fail when the user is gone.
  unfoldable pub update_user : ℕ → (User → User) → M (Unit {0})
  update_user u f = do
    affected ← update sql user_table (is_user u) f
    if affected == 0 then fail record_not_found else pure tt

  unfoldable pub update_avatar_url : ℕ → String → M User
  unfolding update_user get_user_by_id
  update_avatar_url u avatar_url = do
    update_user u (λ r. record r { avatar_url = some avatar_url })
    get_user_by_id u

  unfoldable pub update_last_seen : ℕ → ℕ → M (Unit {0})
  unfolding update_user
  update_last_seen u t = update_user u (λ r. record r { last_seen = some t })

  unfoldable pub update_public_key : ℕ → String → M (Unit {0})
  unfolding update_user
  update_public_key u public_key = update_user u (λ r. record r { public_key = some public_key })

  unfoldable pub deactivate_user : ℕ → M (Unit {0})
  unfolding update_user
  deactivate_user u = update_user u (λ r. record r { status = user_status_deactivated })

  unfoldable pub delete_user : ℕ → M (Unit {0})
  unfolding update_user
  delete_user u = update_user u erased

  unfoldable pub get_public_key : ℕ → M PublicKeyInfo
  unfolding display_name_of
  get_public_key u = do
    user ← first sql user_table (is_user u)
    let has_key = non_empty user.public_key
    if not has_key && not (user.status == user_status_deleted)
        then fail record_not_found
        else pure (record {
          public_key = elim user.public_key [ none ↦ "" | some k ↦ k ];
          avatar_url = user.avatar_url;
          display_name = display_name_of user;
          last_seen = user.last_seen;
          status = user.status;
        })

  abbrev pub pin_settings : Bool → String → Option String → User → User
  pin_settings enabled pin_type none r = record r {
    chat_pin_enabled = enabled;
    chat_pin_type = pin_type;
  }
  pin_settings enabled pin_type (some p) r = record r {
    chat_pin_enabled = enabled;
    chat_pin_type = pin_type;
    custom_pin = if pin_type == chat_pin_static then some p else r.custom_pin;
  }

  unfoldable pub update_pin_settings : ℕ → Bool → String → Option String → M User
  unfolding get_user_by_id
  update_pin_settings u enabled pin_type custom_pin =
      if not (pin_type == chat_pin_rotating) && not (pin_type == chat_pin_static)
      then fail invalid_pin_type
      else (do
        _ ← update sql user_table (is_user u) (pin_settings enabled pin_type custom_pin)
        get_user_by_id u)

  unfoldable pub record_dm_participants : String → ℕ → ℕ → ℕ → M (Unit {0})
  record_dm_participants room a b now = create_missing sql dm_participant_table (
      record { chat_room_id = room; user_id = a; peer_id = b; created_at = now }
      ∷ record { chat_room_id = room; user_id = b; peer_id = a; created_at = now }
      ∷ [])
