-- ===== src/Api/Validation.antt =====
-- internal/api/handler.go: the validators. `none` accepts, and `some` has the message.
use Prim.Native.Char.{Char, code}
use vibe_net_backend.Base.{
  String, Bool, true, false, not, ◌&&◌, ◌||◌, Option, none, some, if◌then◌else◌, ltb, leb, ◌==◌,
  ℕ_eq, String_eq, byte_len,
}

-- `^[p]+$` of a class `p`, without its demand of one character.
unfoldable pub all_runes : (Char → Bool) → String → Bool
all_runes p String.[] = true
all_runes p (String.◌∷◌ c s) = p c && all_runes p s

unfoldable pub is_digit : Char → Bool
is_digit ch = leb b'0' (code ch) && leb (code ch) b'9'

-- `[A-Za-z0-9._]`
unfoldable pub is_username_rune : Char → Bool
unfolding is_digit
is_username_rune ch =
    let c = code ch in
    (leb b'A' c && leb c b'Z')
    || (leb b'a' c && leb c b'z')
    || is_digit ch
    || c == b'.'
    || c == b'_'

-- `usernamePattern`
unfoldable pub username_pattern : String → Bool
unfolding all_runes is_username_rune
username_pattern s = not (s == "") && all_runes is_username_rune s

unfoldable pub validate_username : String → Option String
unfolding username_pattern
validate_username username =
    if ltb (byte_len username) 3
    then some "username must be at least 3 characters"
    else if ltb 48 (byte_len username)
    then some "username must be at most 48 characters"
    else if not (username_pattern username)
    then some "username may only contain letters, numbers, dots, and underscores"
    else none

-- `\s` of Go's regular expressions.
unfoldable pub is_regexp_space : Char → Bool
is_regexp_space ch = let c = code ch in c == 9 || c == 10 || c == 12 || c == 13 || c == 32

-- `[^@\s]`
unfoldable pub is_email_rune : Char → Bool
unfolding is_regexp_space
is_email_rune ch = not (code ch == b'@') && not (is_regexp_space ch)

-- `\.[^@\s]+$`, at some place after the first character.
unfoldable pub dotted : String → Bool
unfolding all_runes is_email_rune
dotted String.[] = false
dotted (String.◌∷◌ c s) =
    (code c == b'.' && not (s == "") && all_runes is_email_rune s) || (is_email_rune c && dotted s)

-- `[^@\s]+\.[^@\s]+$`
unfoldable pub is_domain : String → Bool
unfolding dotted
is_domain String.[] = false
is_domain (String.◌∷◌ c s) = is_email_rune c && dotted s

-- `[^@\s]*@[^@\s]+\.[^@\s]+$`
unfoldable pub after_local : String → Bool
unfolding is_domain
after_local String.[] = false
after_local (String.◌∷◌ c s) =
    if code c == b'@' then is_domain s else is_email_rune c && after_local s

-- `emailPattern`
unfoldable pub email_pattern : String → Bool
unfolding after_local
email_pattern String.[] = false
email_pattern (String.◌∷◌ c s) = is_email_rune c && after_local s

unfoldable pub validate_email : String → Option String
unfolding email_pattern
validate_email email =
    if ltb 255 (byte_len email)
    then some "email must be at most 255 characters"
    else if not (email_pattern email)
    then some "please enter a valid email address"
    else none

-- `[0-9]{7,15}`
unfoldable pub is_number : String → Bool
unfolding all_runes is_digit
is_number s = leb 7 (byte_len s) && leb (byte_len s) 15 && all_runes is_digit s

-- `phonePattern`
unfoldable pub phone_pattern : String → Bool
unfolding is_number
phone_pattern String.[] = false
phone_pattern (String.◌∷◌ c s) = if code c == b'+' then is_number s else is_number (String.◌∷◌ c s)

unfoldable pub validate_phone_number : String → Option String
unfolding phone_pattern
validate_phone_number phone =
    if not (phone_pattern phone) then some "please enter a valid phone number" else none

-- `phoneSeparators`
unfoldable pub is_separator : Char → Bool
unfolding is_regexp_space
is_separator ch =
    let c = code ch in is_regexp_space ch || c == b'(' || c == b')' || c == b'.' || c == b'-'

-- `phoneSeparators.ReplaceAllString(…, "")`
unfoldable pub without_separators : String → String
unfolding is_separator
without_separators String.[] = ""
without_separators (String.◌∷◌ c s) =
    let rest = without_separators s in if is_separator c then rest else String.◌∷◌ c rest

-- `sixDigitPattern`
unfoldable pub six_digit_pattern : String → Bool
unfolding all_runes is_digit
six_digit_pattern s = byte_len s == 6 && all_runes is_digit s

unfoldable pub validate_display_name : String → Option String
validate_display_name display_name =
    if ltb 64 (byte_len display_name) then some "real name must be at most 64 characters" else none
