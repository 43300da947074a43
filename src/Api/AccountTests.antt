-- ===== src/Api/AccountTests.antt =====
-- Registration, and the validators, at concrete texts.
use vibe_net_backend.Base.{
  ◌<◌, String, some, none, [], ◌∷◌, ◌≡◌, ◌≢◌, ◌↔◌, refl, true, false, ◌≤◌, byte_len, trim_space,
  count_p, arith,
}
use vibe_net_backend.Db.AccountTests.{small, small-IsUnique}
use vibe_net_backend.Models.{User}
use vibe_net_backend.Auth.{derive_username, len}
use vibe_net_backend.Db.Users.{new_google_user}
use vibe_net_backend.Db.Users.Unique.{has_name}
use vibe_net_backend.Api.{Server, Reply, done, refused}
use vibe_net_backend.Api.Validation.{
  validate_email, validate_phone_number, validate_username, without_separators, all_runes,
  email_pattern,
}
use vibe_net_backend.Api.Uploads.{image_extension, extension}
use vibe_net_backend.Api.Accounts.{RegisterRequest, UserSummary, register}
use vibe_net_backend.Api.Google.{CallbackRequest, GoogleAnswer, seed_name, google_callback}
use vibe_net_backend.Access.{admitted, jwt_auth_middleware, extract_bearer_token, strip_prefix}
use vibe_net_backend.Api.Routes.{changes_key, is_open, route}
use vibe_net_backend.Db.Users.Own.{OthersKept}
use vibe_net_backend.Api.Authority.Own.{route-Own}
use vibe_net_backend.Api.Provisioned.{validate_username-derive_username}
use vibe_net_backend.Api.Patterns.{IsEmail, email_pattern_iff}
use vibe_net_backend.Api.Registering.{register_taken}
use vibe_net_backend.Api.Tests.{env, check, as_user, small_server}

-- "ada" has an account.
abbrev with_ada : Server
with_ada = record { db = small; effects = []; names = 0 }

abbrev another_ada : RegisterRequest
another_ada = record {
  username = " ada ";
  password = "password";
  email = "ada@mail.example.org";
  phone_number = "+1 (555) 010-1234";
  public_key = "key";
}

taken : 0 < count_p (has_name (trim_space another_ada.username)) small.tables.users
unfolding trim_space
taken = ground arith

register_taken_example :
    ((out : String × UserSummary) (s' : Server)
      → register env (some another_ada) with_ada ≢ (done out, s'))
    × ((register env (some another_ada) with_ada).0 ≢ refused 409 "username already exists")
register_taken_example = register_taken env another_ada with_ada small-IsUnique taken

abbrev from_google : CallbackRequest
from_google = record { state = "s"; code = "c"; state_cookie = some "s" }

abbrev callback : Reply GoogleAnswer × Server
callback = google_callback env from_google small_server

abbrev new_account : User
new_account =
    new_google_user "12345678" "ada@example.org"
      (derive_username env.lower_rune "Ada" "ada@example.org")
      (seed_name "Ada" (derive_username env.lower_rune "Ada" "ada@example.org")) "" 0 1001

-- "ada" is the account 10.
is_ada : jwt_auth_middleware check env.parse_uuid (as_user "10") ≡ admitted 10 ""
unfolding jwt_auth_middleware extract_bearer_token strip_prefix trim_space
is_ada = refl

guarded_key : is_open (changes_key (some "new key")) ≡ false
unfolding is_open
guarded_key = refl

route-Own_example :
    OthersKept 10 with_ada.db.tables
      (route env check (as_user "10", changes_key (some "new key")) with_ada).1.db.tables
route-Own_example =
    route-Own env check (as_user "10") (changes_key (some "new key")) with_ada 10 "" guarded_key
      is_ada

validate_username-derive_username_example :
    (validate_username (derive_username env.lower_rune "Al" "al@example.org") ≡ none)
    ↔ (3 ≤ len (derive_username env.lower_rune "Al" "al@example.org"))
validate_username-derive_username_example =
    validate_username-derive_username env.lower_rune "Al" "al@example.org"

email_pattern_iff_example :
    (email_pattern "ada@mail.example.org" ≡ true) ↔ IsEmail "ada@mail.example.org"
email_pattern_iff_example = email_pattern_iff "ada@mail.example.org"

good_email : validate_email "ada@mail.example.org" ≡ none
unfolding validate_email byte_len
good_email = refl

bad_email : validate_email "ada@mail." ≡ some "please enter a valid email address"
unfolding validate_email byte_len
bad_email = refl

phone : validate_phone_number (without_separators "+1 (555) 010-1234") ≡ none
unfolding validate_phone_number without_separators byte_len
phone = refl

short_name : validate_username "ab" ≡ some "username must be at least 3 characters"
unfolding validate_username byte_len
short_name = refl

gif : image_extension (0x47 ∷ 0x49 ∷ 0x46 ∷ 0x38 ∷ 0x39 ∷ 0x61 ∷ 0 ∷ []) ≡ some ".gif"
unfolding image_extension
gif = refl

last_dot : extension "a.tar.gz" ≡ ".gz"
unfolding extension all_runes
last_dot = refl
