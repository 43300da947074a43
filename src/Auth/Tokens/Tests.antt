-- ===== src/Auth/Tokens/Tests.antt =====
-- Sessions' tokens with a library that signs one token.
use vibe_net_backend.Base.{
  ℕ, ◌*◌, ◌/◌, ◌<◌, ◌≤◌, String, Bool, true, false, ◌&&◌, Option, none, some, ◌≡◌, refl, ap, sym,
  ◌∙◌, if◌then◌else◌, ltb, ◌==◌, ==_iff, ℕ_eq, String_eq, Bool-cases, Option-cases, inl, inr, arith,
  is_space, trim_space,
}
use vibe_net_backend.Access.{Request, refused, admitted, extract_bearer_token}
use vibe_net_backend.Auth.Tokens.{
  SignedClaims, Token, Jwt, JwtManager, sscanf, token_hours, new_jwt_manager, add, claims_for,
  generate_token, validate_token,
}
use vibe_net_backend.Auth.Tokens.Lifetime.{validate_token-IsSigned}
use vibe_net_backend.Auth.Tokens.Admission.{middleware, jwt_auth_middleware-generate_token}

plain : sscanf "72" ≡ some 72
unfolding sscanf is_space
plain = refl

with_unit : sscanf " +48h" ≡ some 48
unfolding sscanf is_space
with_unit = refl

negative : sscanf "-1" ≡ none
unfolding sscanf is_space
negative = refl

abbrev seconds : ℕ → ℕ
seconds t = t / 1000000000 * 1000000000

-- An hour after the second second of 1970.
abbrev one_token : SignedClaims
one_token = record {
  user_id = "u";
  username = "ada";
  subject = "u";
  issued_at = some 2000000000;
  expires_at = some 3602000000000;
}

abbrev is_time : ℕ → Option ℕ → Bool
is_time n none = false
is_time n (some t) = t == n

abbrev is_one : SignedClaims → Bool
is_one c =
    (c.user_id == "u")
    && ((c.username == "ada")
        && ((c.subject == "u")
            && (is_time 2000000000 c.issued_at && is_time 3602000000000 c.expires_at)))

abbrev sign_one : String → String → SignedClaims → Option String
sign_one method key c =
    if (method == "HS256") && ((key == "s") && is_one c) then some "token" else none

abbrev read_one : ℕ → Option String → Option Token
read_one now none = none
read_one now (some key) =
    if (key == "s") && ltb now 3602000000000
    then some (record { method = "HS256"; claims = one_token; is_valid = true })
    else none

abbrev parse_one : ℕ → (String → Option String) → String → Option Token
parse_one now key_of token = if token == "token" then read_one now (key_of "HS256") else none

abbrev verify_one : String → String → String → Bool
verify_one method key token = (method == "HS256") && ((key == "s") && (token == "token"))

and_lem : (a b : Bool) → (a && b) ≡ true → (a ≡ true) × (b ≡ true)
and_lem true b h = (refl, h)
and_lem false b h = absurd (ground arith)

is_time_lem : (n : ℕ) (t : Option ℕ) → is_time n t ≡ true → t ≡ some n
is_time_lem n none h = absurd (ground arith)
is_time_lem n (some t) h = ap some ((==_iff t n).0 h)

is_one_lem : (c : SignedClaims) → is_one c ≡ true → c ≡ one_token
is_one_lem c h =
    let (a, h1) = and_lem _ _ h in
    let (b, h2) = and_lem _ _ h1 in
    let (d, h3) = and_lem _ _ h2 in
    let (e, f) = and_lem _ _ h3 in
    let p1 = (==_iff c.user_id "u").0 a in
    let p2 = (==_iff c.username "ada").0 b in
    let p3 = (==_iff c.subject "u").0 d in
    let p4 = is_time_lem _ c.issued_at e in
    let p5 = is_time_lem _ c.expires_at f in
    λ i. record {
      user_id = p1 i;
      username = p2 i;
      subject = p3 i;
      issued_at = p4 i;
      expires_at = p5 i;
    }

sign_one_lem :
    (method key : String) (c : SignedClaims) {token : String}
    → sign_one method key c ≡ some token
    → (method ≡ "HS256") × (key ≡ "s") × (c ≡ one_token) × (token ≡ "token")
sign_one_lem method key c {token} h =
    elim (Bool-cases ((method == "HS256") && ((key == "s") && is_one c))) [
      | inl e ↦
          let (a, e1) = and_lem _ _ e in
          let (b, d) = and_lem _ _ e1 in
          ((==_iff method "HS256").0 a, (==_iff key "s").0 b, is_one_lem c d, ground arith)
      | inr e ↦ absurd (ground arith)
    ]

expiry_lem :
    (c : SignedClaims) (expires : ℕ)
    → c ≡ one_token
    → c.expires_at ≡ some (seconds expires)
    → seconds expires ≡ 3602000000000
expiry_lem c expires w e =
    let same : some 3602000000000 ≡ some (seconds expires) = sym (ap (λ x. x.expires_at) w) ∙ e in
    ground arith

parse_signed_lem :
    (now expires : ℕ) (key_of : String → Option String) (method key token : String)
    (c : SignedClaims)
    → c.expires_at ≡ some (seconds expires)
    → sign_one method key c ≡ some token
    → key_of method ≡ some key
    → now < seconds expires
    → parse_one now key_of token ≡ some (record { method = method; claims = c; is_valid = true })
parse_signed_lem now expires key_of method key token c e made given early =
    let (m, k, w, t) = sign_one_lem method key c made in
    let key_is : key_of "HS256" ≡ some "s" = cc in
    let ends = expiry_lem c expires w e in
    let before : ltb now 3602000000000 ≡ true = ground arith in rw (m, w, t, key_is, before) refl

parse_expired_lem :
    (now expires : ℕ) (key_of : String → Option String) (method key token : String)
    (c : SignedClaims)
    → c.expires_at ≡ some (seconds expires)
    → sign_one method key c ≡ some token
    → seconds expires ≤ now
    → parse_one now key_of token ≡ none
parse_expired_lem now expires key_of method key token c e made late =
    let (m, k, w, t) = sign_one_lem method key c made in
    let ends = expiry_lem c expires w e in
    let after : ltb now 3602000000000 ≡ false = ground arith in
    rw t (elim (Option-cases (key_of "HS256")) [
      | inl off ↦ rw off refl
      | inr (key', on) ↦
          rw on (elim (Bool-cases (key' == "s")) [ inl y ↦ rw (y, after) refl | inr n ↦ rw n refl ])
    ])

read_one_lem :
    (now : ℕ) (key : Option String) {t : Token}
    → read_one now key ≡ some t
    → (key ≡ some "s") × (t.method ≡ "HS256")
read_one_lem now none h = absurd (ground arith)
read_one_lem now (some key) h = elim (Bool-cases ((key == "s") && ltb now 3602000000000)) [
  | inl e ↦ (ap some ((==_iff key "s").0 (and_lem _ _ e).0), ground arith)
  | inr e ↦ absurd (ground arith)
]

parse_verifies_lem :
    (now : ℕ) (key_of : String → Option String) (token : String) {t : Token}
    → parse_one now key_of token ≡ some t
    → (key : String) × (key_of t.method ≡ some key) × (verify_one t.method key token ≡ true)
parse_verifies_lem now key_of token {t} h = elim (Bool-cases (token == "token")) [
  | inl e ↦
      let (given, m) = read_one_lem now (key_of "HS256") {t = t} (rw e at h) in
      ("s", (rw m given), rw (m, e) refl)
  | inr e ↦ absurd (ground arith)
]

one_jwt : Jwt
one_jwt = record {
  numeric_date = seconds;
  signed_string = sign_one;
  parse_with_claims = parse_one;
  verifies = verify_one;
  numeric_date_le = λ t. omega arith;
  numeric_date_lt = λ t. omega arith;
  parse_signed = λ now issued expires key_of method key token c i e made given early.
      parse_signed_lem now expires key_of method key token c e made given early;
  parse_expired = λ now issued expires key_of method key token c i e made late.
      parse_expired_lem now expires key_of method key token c e made late;
  parse_verifies = parse_verifies_lem;
}

abbrev one_hour : String → String
one_hour key = if key == "JWT_EXPIRY_HOURS" then "1" else if key == "JWT_SECRET" then "s" else ""

abbrev one_manager : JwtManager
one_manager = record { secret = "s"; ttl = 3600000000000 }

one_hour_lem : token_hours one_hour ≡ 1
unfolding token_hours is_space
one_hour_lem = refl

made_lem :
    generate_token one_jwt (λ _. "u") (new_jwt_manager one_hour) 2500000000 7 "ada" ≡ some "token"
unfolding generate_token new_jwt_manager claims_for add is_space one_jwt
made_lem = refl

read_lem : validate_token one_jwt one_manager 5000000000 "token" ≡ some one_token
unfolding validate_token one_jwt
read_lem = refl

abbrev only_u : String → Option ℕ
only_u t = if t == "u" then some 7 else none

abbrev with_token : Request
with_token = record { authorization = "Bearer token"; query_token = "" }

sent_lem : extract_bearer_token with_token ≡ "token"
unfolding extract_bearer_token trim_space
sent_lem = refl

jwt_auth_middleware-generate_token_example :
    (middleware one_jwt only_u one_hour 3601500000000 with_token ≡ admitted 7 "ada")
    × (middleware one_jwt only_u one_hour 3602500000000 with_token
        ≡ refused 401 "invalid or expired token")
jwt_auth_middleware-generate_token_example =
    jwt_auth_middleware-generate_token one_jwt (λ _. "u") only_u one_hour 2500000000 3601500000000
      3602500000000 7 "ada" with_token (omega (arith, one_hour_lem)) refl made_lem sent_lem refl
      (omega (arith, one_hour_lem)) (omega (arith, one_hour_lem))

validate_token-IsSigned_example : one_jwt.verifies "HS256" "s" "token" ≡ true
validate_token-IsSigned_example =
    validate_token-IsSigned one_jwt one_manager 5000000000 "token" read_lem
