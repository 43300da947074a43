-- ===== src/Auth.antt =====
-- internal/auth/google.go: the username that a Google account gets. Texts are code points, and
-- `lower` is `unicode.ToLower`, a parameter, since no theorem needs to know its table.
pub mod Usernames
pub mod Google
pub mod Tokens
mod Tests
use Prim.Native.Char.{Char, code}
use Prim.Native.String
use vibe_net_backend.Base.{
  ℕ, zero, suc, String, Bool, true, false, ◌&&◌, ◌||◌, if◌then◌else◌, leb, ltb, ◌==◌, ℕ_eq,
  String_eq, trim_space,
}

-- `strings.Split(email, "@")[0]`.
unfoldable pub local_part : String → String
local_part String.[] = ""
local_part (String.◌∷◌ c s) =
    let rest = local_part s in if code c == 64 then "" else String.◌∷◌ c rest

-- `strings.Map`, of a function that drops no rune.
unfoldable pub map_runes : (Char → Char) → String → String
map_runes f String.[] = ""
map_runes f (String.◌∷◌ c s) = String.◌∷◌ (f c) (map_runes f s)

unfoldable pub space_to_underscore : Char → Char
space_to_underscore c = if code c == 32 then "_" else c

-- The runes that the function given to `strings.Map` returns: a-z, 0-9, `_` and `.`.
unfoldable pub is_kept : Char → Bool
is_kept ch =
    let c = code ch in (leb 97 c && leb c 122) || (leb 48 c && leb c 57) || c == 95 || c == 46

unfoldable pub keep_runes : String → String
keep_runes String.[] = ""
keep_runes (String.◌∷◌ c s) =
    let rest = keep_runes s in if is_kept c then String.◌∷◌ c rest else rest

-- `len`, and a slice up to `n`, of a text whose runes are one byte each, as the kept ones are.
unfoldable pub len : String → ℕ
len String.[] = 0
len (String.◌∷◌ _ s) = suc (len s)

unfoldable pub first_bytes : ℕ → String → String
first_bytes zero s = ""
first_bytes (suc n) String.[] = ""
first_bytes (suc n) (String.◌∷◌ c s) = String.◌∷◌ c (first_bytes n s)

unfoldable pub base_name : String → String → String
unfolding local_part
base_name display_name email =
    let candidate = trim_space display_name in
    if candidate == "" then local_part email else candidate

unfoldable pub or_default : String → String
or_default candidate = if candidate == "" then "google_user" else candidate

unfoldable pub at_most_48 : String → String
unfolding len first_bytes
at_most_48 candidate = if ltb 48 (len candidate) then first_bytes 48 candidate else candidate

unfoldable pub derive_username : (Char → Char) → String → String → String
unfolding base_name map_runes space_to_underscore keep_runes is_kept or_default at_most_48
derive_username lower display_name email = at_most_48 (
    or_default
      (keep_runes (map_runes space_to_underscore (map_runes lower (base_name display_name email)))))
