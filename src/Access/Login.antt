-- ===== src/Access/Login.antt =====
-- internal/api/handler.go: signing in with a password.
pub mod Earned
use vibe_net_backend.Base.{
  ℕ, String, Bool, not, ◌||◌, Option, none, some, if◌then◌else◌, ◌==◌, String_eq, trim_space,
}
use vibe_net_backend.Models.{User, user_status_deactivated, user_status_deleted}
use vibe_net_backend.Db.Sql.{Sql}
use vibe_net_backend.Db.Store.{Db, Result, ok, err, record_not_found}
use vibe_net_backend.Db.Users.{get_user_by_username}

-- An error with its status code, or a token with the account it is for.
pub data LoginAnswer : Type 0 where
  turned_away : ℕ → String → LoginAnswer
  logged_in : String → User → LoginAnswer

-- The message, if the status keeps an account from signing in.
unfoldable pub login_blocked_reason : String → Option String
login_blocked_reason status =
    if status == user_status_deactivated
    then some "This account has been deactivated."
    else if status == user_status_deleted
    then some "This account no longer exists."
    else none

-- `matches hash password` is bcrypt's comparison, and `generate` makes a token; `none` is an error.
module _ (matches : String → String → Bool) (generate : ℕ → String → Option String) where
  unfoldable pub issued : User → LoginAnswer
  issued user = elim (generate user.user_id user.username) [
    | none ↦ turned_away 500 "failed to generate token"
    | some token ↦ logged_in token user
  ]

  unfoldable pub login_user : String → User → LoginAnswer
  unfolding login_blocked_reason issued
  login_user password user = elim user.password_hash [
    | none ↦ turned_away 401 "this account uses Google sign-in"
    | some hash ↦
        if not (matches hash password)
        then turned_away 401 "invalid credentials"
        else elim (login_blocked_reason user.status) [
          | some msg ↦ turned_away 403 msg
          | none ↦ issued user
        ]
  ]

  unfoldable pub looked_up : String → Result User × Db → LoginAnswer × Db
  unfolding login_user
  looked_up password (err record_not_found, db) = (turned_away 401 "invalid credentials", db)
  looked_up password (err _, db) = (turned_away 500 "failed to lookup user", db)
  looked_up password (ok user, db) = (login_user password user, db)

  -- `Login` of a request that decodes.
  unfoldable pub login : Sql → String → String → Db → LoginAnswer × Db
  unfolding looked_up
  login sql username password db =
      let name = trim_space username in
      if name == "" || password == ""
      then (turned_away 400 "username and password are required", db)
      else looked_up password (get_user_by_username sql name db)
