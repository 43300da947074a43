-- ===== src/Access.antt =====
-- internal/api/middleware.go and internal/websocket/handler.go: who a request comes from, and who may
-- open a realtime session.
pub mod Login
pub mod Reading
pub mod Sessions
mod Tests
use Prim.Native.Char.{code}
use Prim.Native.String
use vibe_net_backend.Base.{
  ℕ, String, Bool, true, false, not, Option, none, some, if◌then◌else◌, ◌==◌, ℕ_eq, String_eq,
  trim_space,
}
use vibe_net_backend.Models.{user_status_active}
use vibe_net_backend.Db.Sql.{Sql}
use vibe_net_backend.Db.Store.{M, Db, Result, ok, err, ◌>>=◌, bind, pure}
use vibe_net_backend.Db.Users.{get_user_by_id}

-- The claims of a token that the handlers read.
pub record Claims : Type 0 where
  pub user_id : String
  pub username : String

-- The parts of a request that they read: `r.Header.Get("Authorization")` and
-- `r.URL.Query().Get("token")`.
pub record Request : Type 0 where
  pub authorization : String
  pub query_token : String

-- A refusal with its status code, or the identity that the request goes on with.
pub data Answer : Type 0 where
  refused : ℕ → String → Answer
  admitted : ℕ → String → Answer

-- What follows a prefix, if it is there.
abbrev pub strip_prefix : String → String → Option String
strip_prefix String.[] s = some s
strip_prefix (String.◌∷◌ c p) String.[] = none
strip_prefix (String.◌∷◌ c p) (String.◌∷◌ d s) =
    let rest = strip_prefix p s in if code c == code d then rest else none

unfoldable pub extract_bearer_token : Request → String
extract_bearer_token r = elim (strip_prefix "Bearer " r.authorization) [
  | none ↦ trim_space r.query_token
  | some token ↦ trim_space token
]

-- The token of a WebSocket handshake.
unfoldable pub handshake_token : Request → String
handshake_token r =
    if not (r.query_token == "")
    then r.query_token
    else elim (strip_prefix "Bearer " r.authorization) [ none ↦ "" | some token ↦ token ]

-- `validate` is the check of a token by the JWT library, and `parse_uuid` is `uuid.Parse`; `none`
-- is an error.
module _ (validate : String → Option Claims) (parse_uuid : String → Option ℕ) where
  unfoldable pub jwt_auth_middleware : Request → Answer
  unfolding extract_bearer_token
  jwt_auth_middleware r =
      let token = extract_bearer_token r in
      if token == "" then refused 401 "missing authorization token" else elim (validate token) [
        | none ↦ refused 401 "invalid or expired token"
        | some claims ↦ elim (parse_uuid claims.user_id) [
          | none ↦ refused 401 "invalid token subject"
          | some u ↦ admitted u claims.username
        ]
      ]

  module _ (sql : Sql) where
    unfoldable pub user_status : ℕ → M String
    user_status u = do user ← get_user_by_id sql u; pure user.status

    unfoldable pub checked_status : ℕ → String → Result String × Db → Answer × Db
    checked_status u username (err e, db) = (refused 401 "user not found", db)
    checked_status u username (ok status, db) =
        if not (status == user_status_active)
        then (refused 403 "account is deactivated or deleted", db)
        else (admitted u username, db)

    -- `ServeHTTP` up to the upgrade of the connection.
    unfoldable pub serve_http : Request → Db → Answer × Db
    unfolding handshake_token user_status checked_status
    serve_http r db =
        let token = handshake_token r in
        if token == ""
        then (refused 401 "missing authentication token", db)
        else elim (validate token) [
          | none ↦ (refused 401 "invalid or expired token", db)
          | some claims ↦ elim (parse_uuid claims.user_id) [
            | none ↦ (refused 401 "invalid token subject", db)
            | some u ↦ checked_status u claims.username (user_status u db)
          ]
        ]
