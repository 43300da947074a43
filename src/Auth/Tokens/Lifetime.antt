-- ===== src/Auth/Tokens/Lifetime.antt =====
-- internal/auth/jwt.go: how long a token is good, and which tokens are.
use vibe_net_backend.Base.{
  ℕ, ◌+◌, ◌*◌, ◌<◌, ◌≤◌, String, true, none, some, ◌≡◌, refl, ap, sym, ◌==◌, ==_iff, String_eq,
  Bool-cases, Option-cases, inl, inr, arith,
}
use vibe_net_backend.Auth.Tokens.{
  SignedClaims, Jwt, JwtManager, token_hours, new_jwt_manager, add, key_for, claims_of, claims_for,
  generate_token, validate_token,
}

ttl_lem :
    (environ : String → String)
    → token_hours environ ≤ 2562047
    → ((new_jwt_manager environ).ttl ≡ token_hours environ * 3600000000000)
      × ((new_jwt_manager environ).ttl < 9223372036854775808)
unfolding new_jwt_manager
ttl_lem environ few = (omega arith, omega arith)

add_of_positive : (now ttl : ℕ) → ttl < 9223372036854775808 → add now ttl ≡ now + ttl
unfolding add
add_of_positive now ttl small = ground arith

-- A token that the manager of `NewJWTManager` makes, with at most 2562047 hours set, is validated
-- to the very claims that it was made with until a second before those hours are over, and is
-- refused from their end on.
pub validate_token-generate_token :
    (jwt : Jwt) (uuid_string : ℕ → String) (environ : String → String) (now early late u : ℕ)
    (name : String) {token : String}
    → token_hours environ ≤ 2562047
    → generate_token jwt uuid_string (new_jwt_manager environ) now u name ≡ some token
    → early + 1000000000 ≤ now + token_hours environ * 3600000000000
    → now + token_hours environ * 3600000000000 ≤ late
    → (validate_token jwt (new_jwt_manager environ) early token
        ≡ some (claims_for jwt uuid_string (new_jwt_manager environ) now u name))
      × (validate_token jwt (new_jwt_manager environ) late token ≡ none)
unfolding generate_token validate_token claims_for key_for claims_of
validate_token-generate_token jwt uuid_string environ now early late u name {token} few made h k =
    let m = new_jwt_manager environ in
    let c = claims_for jwt uuid_string m now u name in
    let (lasts, small) = ttl_lem environ few in
    let ends = add_of_positive now m.ttl small in
    let below = jwt.numeric_date_le (add now m.ttl) in
    let above = jwt.numeric_date_lt (add now m.ttl) in
    (
      ap claims_of (
          jwt.parse_signed early now (add now m.ttl) (key_for m) "HS256" m.secret token c refl refl
            made refl (omega arith)),
      ap claims_of (
          jwt.parse_expired late now (add now m.ttl) (key_for m) "HS256" m.secret token c refl refl
            made (omega arith)),
    )

key_for_lem :
    (m : JwtManager) (method : String) {key : String}
    → key_for m method ≡ some key
    → (method ≡ "HS256") × (m.secret ≡ key)
unfolding key_for
key_for_lem m method h = elim (Bool-cases (method == "HS256")) [
  | inl e ↦ ((==_iff method "HS256").0 e, ground arith)
  | inr e ↦ absurd (ground arith)
]

-- The claims that `ValidateToken` gives are those of a token that carries the HMAC-SHA256
-- signature of the manager's own secret: one of another method, "none" among them, is refused.
pub validate_token-IsSigned :
    (jwt : Jwt) (m : JwtManager) (now : ℕ) (token : String) {c : SignedClaims}
    → validate_token jwt m now token ≡ some c
    → jwt.verifies "HS256" m.secret token ≡ true
unfolding validate_token claims_of
validate_token-IsSigned jwt m now token h =
    elim (Option-cases (jwt.parse_with_claims now (key_for m) token)) [
      | inl e ↦ absurd (ground arith)
      | inr (t, e) ↦
          let (key, given, fits) = jwt.parse_verifies now (key_for m) token e in
          let (method, secret) = key_for_lem m t.method given in rw (sym method, secret) fits
    ]
