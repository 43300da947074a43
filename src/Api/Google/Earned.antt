-- ===== src/Api/Google/Earned.antt =====
-- internal/api/auth_google.go: whom the callback signs in.
use vibe_net_backend.Base.{
  String, not, Option, none, some, ◌≡◌, ◌⊎◌, ◌==◌, ℕ_eq, String_eq, if◌then◌else◌,
}
use vibe_net_backend.Models.{User}
use vibe_net_backend.Db.Store.{Db}
use vibe_net_backend.Db.Users.Google.{IsAccount}
use vibe_net_backend.Auth.Google.{GoogleUserInfo, fetch_google_user_info}
use vibe_net_backend.Access.Login.{login_blocked_reason}
use vibe_net_backend.Api.{Env}
use vibe_net_backend.Api.Accounts.{to_user_summary}
use vibe_net_backend.Api.Google.{GoogleAnswer, signed_in, CallbackRequest, front_end}

module _ (env : Env) where
  -- How a session is handed over.
  abbrev pub Session : String → User → GoogleAnswer
  Session token user =
      if not (env.google.frontend_url == "")
      then front_end env "/auth/google-success?token=" token
      else signed_in token (to_user_summary user)

  -- A session of an account of the database, or the way back to the login page.
  pub record IsAdmitted (r : CallbackRequest) (answer : GoogleAnswer) (db : Db) : Type 0 where
    pub is_ours : r.state_cookie ≡ some r.state
    pub access : String
    pub exchanged : env.exchange r.code ≡ some access
    pub profile : GoogleUserInfo
    pub fetched : fetch_google_user_info env.user_info access ≡ some profile
    pub user : User
    pub is_theirs : IsAccount env.sql profile.id user db
    pub outcome :
        ((token : String) × (login_blocked_reason user.status ≡ none)
          × (env.generate_token user.user_id user.username ≡ some token)
          × (answer ≡ Session token user))
        ⊎ ((message : String) × (login_blocked_reason user.status ≡ some message)
            × (answer ≡ front_end env "/login?error=" message))

  abbrev Outcome : User → Option String → GoogleAnswer → Type 0
  Outcome user blocked answer =
      ((token : String) × (blocked ≡ none)
        × (env.generate_token user.user_id user.username ≡ some token)
        × (answer ≡ Session token user))
      ⊎ ((message : String) × (blocked ≡ some message)
          × (answer ≡ front_end env "/login?error=" message))
