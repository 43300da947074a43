-- ===== src/Auth/Google.antt =====
-- internal/auth: the settings of Google's sign-in, and the profile that Google gives.
use vibe_net_backend.Base.{
  ℕ, String, Bool, not, ◌||◌, Option, none, some, if◌then◌else◌, ◌==◌, ℕ_eq, String_eq,
}
use vibe_net_backend.Storage.{get_env}

pub record GoogleOauthConfig : Type 0 where
  pub client_id : String
  pub client_secret : String
  pub redirect_url : String
  pub frontend_url : String

unfoldable pub load_google_oauth_config : (String → String) → GoogleOauthConfig
unfolding get_env
load_google_oauth_config environ = record {
  client_id = get_env environ "GOOGLE_CLIENT_ID" "";
  client_secret = get_env environ "GOOGLE_CLIENT_SECRET" "";
  redirect_url = get_env environ "GOOGLE_REDIRECT_URL" "";
  frontend_url = get_env environ "FRONTEND_URL" "http://localhost:3000";
}

pub record GoogleUserInfo : Type 0 where
  pub id : String
  pub email : String
  pub verified_email : Bool
  pub name : String
  pub picture : String

-- What comes back of the request: its status, and the body, which may not decode.
pub record UserInfoResponse : Type 0 where
  pub status_code : ℕ
  pub body : Option GoogleUserInfo

-- `get` makes the request with an access token; `none` is an error.
unfoldable pub fetch_google_user_info :
    (String → Option UserInfoResponse) → String → Option GoogleUserInfo
fetch_google_user_info get access_token = elim (get access_token) [
  | none ↦ none
  | some response ↦ if not (response.status_code == 200) then none else elim response.body [
    | none ↦ none
    | some info ↦ if info.id == "" || info.email == "" then none else some info
  ]
]
