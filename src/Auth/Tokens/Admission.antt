-- ===== src/Auth/Tokens/Admission.antt =====
-- internal/auth/jwt.go and internal/api/middleware.go: a token that was made is let through.
use vibe_net_backend.Base.{
  ℕ, ◌+◌, ◌*◌, ◌≤◌, String, false, Option, none, some, ◌≡◌, refl, ◌==◌, String_eq,
}
use vibe_net_backend.Access.{
  Claims, Request, Answer, refused, admitted, extract_bearer_token, jwt_auth_middleware,
}
use vibe_net_backend.Auth.Tokens.{
  SignedClaims, Jwt, token_hours, new_jwt_manager, claims_for, generate_token, validate_token,
}
use vibe_net_backend.Auth.Tokens.Lifetime.{validate_token-generate_token}

-- The claims that the middleware reads of those that are validated.
abbrev pub claims_read : Option SignedClaims → Option Claims
claims_read none = none
claims_read (some c) = some (record { user_id = c.user_id; username = c.username })

-- The middleware with the manager of `NewJWTManager`, at a time.
abbrev pub middleware : Jwt → (String → Option ℕ) → (String → String) → ℕ → Request → Answer
middleware jwt parse_uuid environ now =
    jwt_auth_middleware (λ t. claims_read (validate_token jwt (new_jwt_manager environ) now t))
      parse_uuid

-- A request with a token that `GenerateToken` made, under a setting of at most 2562047 hours, is
-- let through as the user whom the token was made for until a second before those hours are over,
-- and refused with 401 from their end on, where `uuid.Parse` reads what `UUID.String` writes of
-- that user.
pub jwt_auth_middleware-generate_token :
    (jwt : Jwt) (uuid_string : ℕ → String) (parse_uuid : String → Option ℕ)
    (environ : String → String) (now early late u : ℕ) (name : String) (r : Request)
    {token : String}
    → token_hours environ ≤ 2562047
    → parse_uuid (uuid_string u) ≡ some u
    → generate_token jwt uuid_string (new_jwt_manager environ) now u name ≡ some token
    → extract_bearer_token r ≡ token
    → (token == "") ≡ false
    → early + 1000000000 ≤ now + token_hours environ * 3600000000000
    → now + token_hours environ * 3600000000000 ≤ late
    → (middleware jwt parse_uuid environ early r ≡ admitted u name)
      × (middleware jwt parse_uuid environ late r ≡ refused 401 "invalid or expired token")
unfolding jwt_auth_middleware claims_for
jwt_auth_middleware-generate_token jwt uuid_string parse_uuid environ now early late u name r few
      parses made sent some_text h k =
    let (good, over) =
      validate_token-generate_token jwt uuid_string environ now early late u name few made h k in
    (rw (sent, some_text, good, parses) refl, rw (sent, some_text, over) refl)
