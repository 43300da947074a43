-- ===== src/Api/Google.antt =====
-- internal/api/auth_google.go: the sign-in with a Google account.
pub mod Earned
use Prim.Native.String.{◌++◌}
use Prim.Native.Char.{code}
use vibe_net_backend.Base.{
  ℕ, String, Bool, true, not, ◌||◌, ◌&&◌, Option, none, some, if◌then◌else◌, ltb, ◌==◌, ℕ_eq,
  String_eq, trim_space, byte_len,
}
use vibe_net_backend.Models.{User}
use vibe_net_backend.Db.Store.{Result, ok, err, unique_violation}
use vibe_net_backend.Db.Users.{create_or_get_user_by_google}
use vibe_net_backend.Auth.{derive_username, first_bytes}
use vibe_net_backend.Auth.Google.{GoogleOauthConfig, GoogleUserInfo, fetch_google_user_info}
use vibe_net_backend.Access.Login.{login_blocked_reason}
use vibe_net_backend.Api.{
  Env, set_state_cookie, Serve, ◌>>=◌, ◌>>◌, pure, refuse, refuse_if, or_refuse, attempt, emit,
  time_now,
}
use vibe_net_backend.Api.Accounts.{UserSummary, to_user_summary}

-- A redirection with its status code, or a session.
pub data GoogleAnswer : Type 0 where
  redirects : ℕ → String → GoogleAnswer
  signed_in : String → UserSummary → GoogleAnswer

-- The query of the callback, and the cookie of the state, if there is one.
pub record CallbackRequest : Type 0 where
  pub state : String
  pub code : String
  pub state_cookie : Option String

unfoldable pub is_unconfigured : GoogleOauthConfig → Bool
is_unconfigured google =
    google.client_id == "" || google.client_secret == "" || google.redirect_url == ""

-- `strings.TrimRight(…, "/")`
unfoldable pub without_slashes : String → String
without_slashes String.[] = ""
without_slashes (String.◌∷◌ c s) =
    let rest = without_slashes s in if code c == b'/' && rest == "" then "" else String.◌∷◌ c rest

unfoldable pub wrong_state : CallbackRequest → Bool
wrong_state r = elim r.state_cookie [
  | none ↦ true
  | some value ↦ value == "" || not (value == r.state)
]

unfoldable pub seed_name : String → String → String
seed_name name username = if trim_space name == "" then username else trim_space name

module _ (env : Env) where
  unfoldable pub google_login : Serve GoogleAnswer
  unfolding is_unconfigured emit
  google_login = do
    refuse_if (is_unconfigured env.google) 503 "google oauth is not configured"
    state ← or_refuse env.random_state 500 "failed to generate oauth state"
    emit (set_state_cookie state)
    pure (redirects 307 (env.auth_code_url state))

  unfoldable pub or_unprovisioned : Result User → Serve User
  or_unprovisioned (ok user) = pure user
  or_unprovisioned (err e) = refuse 500 "failed to provision google user"

  -- The second try, under another name. A slice past the end of the identifier, whose runes are
  -- one byte each, is a panic, which the router answers.
  unfoldable pub provision_again : GoogleUserInfo → String → String → Serve User
  unfolding first_bytes or_unprovisioned
  provision_again profile username display_name = do
    refuse_if (ltb (byte_len profile.id) 8) 500 ""
    now ← time_now env
    result ← attempt (
        create_or_get_user_by_google env.sql profile.id profile.email
          (username ++ "_" ++ first_bytes 8 profile.id) display_name profile.picture now)
    or_unprovisioned result

  unfoldable pub provisioned : GoogleUserInfo → String → String → Result User → Serve User
  unfolding provision_again
  provisioned profile username display_name (ok user) = pure user
  provisioned profile username display_name (err unique_violation) =
      provision_again profile username display_name
  provisioned profile username display_name (err e) = refuse 500 "failed to provision google user"

  unfoldable pub provision : GoogleUserInfo → Serve User
  unfolding provisioned derive_username seed_name
  provision profile = do
    let username = derive_username env.lower_rune profile.name profile.email
    let display_name = seed_name profile.name username
    now ← time_now env
    result ← attempt (
        create_or_get_user_by_google env.sql profile.id profile.email username display_name
          profile.picture now)
    provisioned profile username display_name result

  abbrev pub front_end : String → String → GoogleAnswer
  front_end path value =
      redirects 302 (without_slashes env.google.frontend_url ++ path ++ env.query_escape value)

  unfoldable pub open_session : User → Serve GoogleAnswer
  unfolding to_user_summary without_slashes
  open_session user = do
    token ← or_refuse (env.generate_token user.user_id user.username) 500 "failed to generate token"
    pure (
        if not (env.google.frontend_url == "")
        then front_end "/auth/google-success?token=" token
        else signed_in token (to_user_summary user))

  unfoldable pub admit : User → Option String → Serve GoogleAnswer
  unfolding open_session without_slashes
  admit user none = open_session user
  admit user (some message) =
      if not (env.google.frontend_url == "")
      then pure (front_end "/login?error=" message)
      else refuse 403 message

  unfoldable pub google_callback : CallbackRequest → Serve GoogleAnswer
  unfolding is_unconfigured wrong_state emit provision admit fetch_google_user_info
      login_blocked_reason
  google_callback r = do
    refuse_if (is_unconfigured env.google) 503 "google oauth is not configured"
    refuse_if (r.state == "" || r.code == "") 400 "missing oauth state or code"
    refuse_if (wrong_state r) 400 "invalid oauth state"
    emit (set_state_cookie "")
    token ← or_refuse (env.exchange r.code) 502 "failed to exchange oauth code"
    profile ←
        or_refuse (fetch_google_user_info env.user_info token) 502 "failed to fetch google profile"
    user ← provision profile
    admit user (login_blocked_reason user.status)
