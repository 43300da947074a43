-- ===== src/Auth/Tokens.antt =====
-- internal/auth/jwt.go: the tokens of sessions. Times and durations are nanoseconds, and `Jwt` is
-- the interface to the library github.com/golang-jwt/jwt/v5.
pub mod Lifetime
pub mod Admission
mod Tests
use Prim.Native.Char.{Char, code}
use Prim.Native.String
use vibe_net_backend.Base.{
  ℕ, ◌+◌, ◌-◌, ◌*◌, ◌%◌, ◌^◌, ◌<◌, ◌≤◌, String, Bool, true, not, ◌&&◌, Option, none, some, ◌≡◌,
  if◌then◌else◌, ltb, leb, ◌==◌, ℕ_eq, String_eq, is_space,
}
use vibe_net_backend.Storage.{get_env}

-- The claims, with the registered ones that the code sets. A token from elsewhere may lack times.
pub record SignedClaims : Type 0 where
  pub user_id : String
  pub username : String
  pub subject : String
  pub issued_at : Option ℕ
  pub expires_at : Option ℕ

pub record Token : Type 0 where
  pub method : String
  pub claims : SignedClaims
  pub is_valid : Bool

-- `NewNumericDate` cuts a time to seconds; `SignedString` signs with a method and a key, and its
-- `none` is an error; `ParseWithClaims`, at a time, asks a function for the key that belongs to the
-- method of the token. `verifies` says of a method, a key and a token that its signature fits.
pub record Jwt : Type 0 where
  pub numeric_date : ℕ → ℕ
  pub signed_string : String → String → SignedClaims → Option String
  pub parse_with_claims : ℕ → (String → Option String) → String → Option Token
  pub verifies : String → String → String → Bool
  pub numeric_date_le : (t : ℕ) → numeric_date t ≤ t
  pub numeric_date_lt : (t : ℕ) → t < numeric_date t + 1000000000
  -- A token with whole seconds in its times is parsed to what was signed, before it expires, if the
  -- key is the one that it was signed with.
  pub parse_signed :
      (now issued expires : ℕ) (key_of : String → Option String) (method key token : String)
      (c : SignedClaims)
      → c.issued_at ≡ some (numeric_date issued)
      → c.expires_at ≡ some (numeric_date expires)
      → signed_string method key c ≡ some token
      → key_of method ≡ some key
      → now < numeric_date expires
      → parse_with_claims now key_of token
        ≡ some (record { method = method; claims = c; is_valid = true })
  pub parse_expired :
      (now issued expires : ℕ) (key_of : String → Option String) (method key token : String)
      (c : SignedClaims)
      → c.issued_at ≡ some (numeric_date issued)
      → c.expires_at ≡ some (numeric_date expires)
      → signed_string method key c ≡ some token
      → numeric_date expires ≤ now
      → parse_with_claims now key_of token ≡ none
  -- A token that is parsed has the signature of the key that the function gave for its method.
  pub parse_verifies :
      (now : ℕ) (key_of : String → Option String) (token : String) {t : Token}
      → parse_with_claims now key_of token ≡ some t
      → (key : String) × (key_of t.method ≡ some key) × (verifies t.method key token ≡ true)

is_digit : Char → Bool
is_digit c = leb 48 (code c) && leb (code c) 57

-- The value of the digits that a text begins with, after those that give `n`.
leading : ℕ → String → ℕ
unfolding is_digit
leading n String.[] = n
leading n (String.◌∷◌ c s) =
    let rest = leading (n * 10 + (code c - 48)) s in if is_digit c then rest else n

-- `none` where the text does not begin with a digit, and for a number beyond an int64.
scan_digits : String → Option ℕ
unfolding leading is_digit
scan_digits String.[] = none
scan_digits (String.◌∷◌ c s) =
    let n = leading (code c - 48) s in
    if not (is_digit c) then none else if ltb n (2 ^ 63) then some n else none

-- `fmt.Sscanf(s, "%d", …)`, with `none` for an error and for a number with a minus sign. It skips
-- white space other than a line's end, and leaves what follows the digits.
unfoldable pub sscanf : String → Option ℕ
unfolding scan_digits
sscanf String.[] = none
sscanf (String.◌∷◌ c s) =
    let rest = sscanf s in
    if code c == 10
    then none
    else if is_space c
    then rest
    else if code c == 43
    then scan_digits s
    else scan_digits (String.◌∷◌ c s)

unfoldable pub positive_or_72 : Option ℕ → ℕ
positive_or_72 none = 72
positive_or_72 (some hours) = if hours == 0 then 72 else hours

-- The hours of JWT_EXPIRY_HOURS; what is no number above 0 counts as 72.
unfoldable pub token_hours : (String → String) → ℕ
unfolding get_env sscanf positive_or_72
token_hours environ = positive_or_72 (sscanf (get_env environ "JWT_EXPIRY_HOURS" "72"))

pub record JwtManager : Type 0 where
  pub secret : String
  pub ttl : ℕ

-- `time.Duration(hours) * time.Hour`, as the 64 bits of an int64.
unfoldable pub new_jwt_manager : (String → String) → JwtManager
unfolding token_hours get_env
new_jwt_manager environ = record {
  secret = get_env environ "JWT_SECRET" "change-me-in-production";
  ttl = token_hours environ * 3600000000000 % 2 ^ 64;
}

-- `now.Add(ttl)`, of 64 bits that are a negative number from 2 ^ 63 on. Times before 1970 count as
-- 1970.
unfoldable pub add : ℕ → ℕ → ℕ
add now ttl = if ltb ttl (2 ^ 63) then now + ttl else now - (2 ^ 64 - ttl)

-- The function that gives the key for a method.
unfoldable pub key_for : JwtManager → String → Option String
key_for m method = if method == "HS256" then some m.secret else none

unfoldable pub claims_of : Option Token → Option SignedClaims
claims_of none = none
claims_of (some token) = if not token.is_valid then none else some token.claims

-- `now` is `time.Now()`, and `uuid_string` is `UUID.String`.
module _ (jwt : Jwt) (uuid_string : ℕ → String) where
  unfoldable pub claims_for : JwtManager → ℕ → ℕ → String → SignedClaims
  unfolding add
  claims_for m now user_id username = record {
    user_id = uuid_string user_id;
    username = username;
    subject = uuid_string user_id;
    issued_at = some (jwt.numeric_date now);
    expires_at = some (jwt.numeric_date (add now m.ttl));
  }

  unfoldable pub generate_token : JwtManager → ℕ → ℕ → String → Option String
  unfolding claims_for
  generate_token m now user_id username =
      jwt.signed_string "HS256" m.secret (claims_for m now user_id username)

module _ (jwt : Jwt) where
  unfoldable pub validate_token : JwtManager → ℕ → String → Option SignedClaims
  unfolding key_for claims_of
  validate_token m now token = claims_of (jwt.parse_with_claims now (key_for m) token)
