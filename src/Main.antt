-- ===== src/Main.antt =====
-- cmd/api/main.go: the origins that CORS allows, the port, and the health check.
mod Origins
use Prim.Native.Char.{Char, code}
use Prim.Native.String
use vibe_net_backend.Base.{
  ℕ, String, Bool, not, true, false, Option, none, some, List, [], ◌∷◌, ◌≡◌, refl, if◌then◌else◌,
  ◌==◌, ℕ_eq, String_eq, prepend, trim_space, is_space,
}
use vibe_net_backend.Storage.{get_env}

-- `strings.Split(value, ",")`.
unfoldable pub split_comma : String → List String
split_comma String.[] = "" ∷ []
split_comma (String.◌∷◌ c s) =
    let rest = split_comma s in if code c == 44 then "" ∷ rest else prepend c rest

-- The loop over the parts.
unfoldable pub trimmed_origins : List String → List String
trimmed_origins [] = []
trimmed_origins (origin ∷ parts) =
    let rest = trimmed_origins parts in
    if trim_space origin == "" then rest else trim_space origin ∷ rest

unfoldable pub or_any : List String → List String
or_any [] = "*" ∷ []
or_any (origin ∷ origins) = origin ∷ origins

unfoldable pub allowed_origins : (String → String) → List String
unfolding get_env split_comma trimmed_origins or_any
allowed_origins environ =
    or_any (trimmed_origins (split_comma (get_env environ "CORS_ALLOWED_ORIGINS" "*")))

unfoldable pub port : (String → String) → String
unfolding get_env
port environ = get_env environ "PORT" (get_env environ "APP_PORT" "8080")

-- What a ping gives: `some` is an error.
pub record ServiceHealth : Type 0 where
  pub status : String
  pub error : String

unfoldable pub check : Option String → ServiceHealth
check none = record { status = "up"; error = "" }
check (some e) = record { status = "down"; error = e }

-- The loop over the services.
unfoldable pub all_up : List (String × ServiceHealth) → Bool
all_up [] = true
all_up ((_, s) ∷ services) =
    let rest = all_up services in if not (s.status == "up") then false else rest

-- The answer, without its times.
pub record Health : Type 0 where
  pub code : ℕ
  pub status : String
  pub service : String
  pub version : String
  pub environment : String
  pub services : List (String × ServiceHealth)

unfoldable pub health : (String → String) → Option String → Health
unfolding check all_up get_env
health environ ping =
    let services = ("postgres", check ping) ∷ [] in
    let healthy = all_up services in
    record {
      code = if healthy then 200 else 503;
      status = if healthy then "ok" else "degraded";
      service = "vibenet-backend";
      version = get_env environ "APP_VERSION" "1.0.0";
      environment = get_env environ "APP_ENV" "development";
      services = services;
    }

two_origins : trimmed_origins (split_comma "http://a, http://b,,") ≡ "http://a" ∷ "http://b" ∷ []
unfolding trimmed_origins split_comma trim_space is_space
two_origins = refl

down : (health (λ _. "") (some "timeout")).code ≡ 503
unfolding health
down = refl
