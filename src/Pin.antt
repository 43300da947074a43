-- ===== src/Pin.antt =====
-- internal/pin/pin.go: the chat PINs. The clock is an argument, in seconds since 1970 and not
-- before it. HMAC-SHA256 is a parameter, since no theorem needs to know its values.
pub mod Windows
pub mod Accepts
mod Tests
use Prim.Native.Char.{Char}
use Prim.Native.String
use vibe_net_backend.Base.{
  ℕ, zero, suc, ◌+◌, ◌-◌, ◌*◌, ◌/◌, ◌%◌, ◌^◌, String, Bool, true, false, not, ◌&&◌, ◌||◌, Option,
  none, some, List, [], ◌∷◌, ◌++◌, if◌then◌else◌, ◌==◌, ℕ_eq, String_eq, trim_space, ltb,
}
use vibe_net_backend.Models.{User, chat_pin_static}

abbrev pub window_seconds : ℕ
window_seconds = 300

unfoldable pub first_non_empty : List String → String
first_non_empty [] = ""
first_non_empty (v ∷ vals) = if not (v == "") then v else first_non_empty vals

-- `get_env` is `utils.GetEnv` with the fallback "".
unfoldable pub secret : (String → String) → String
unfolding first_non_empty
secret get_env =
    first_non_empty
      (get_env "CHAT_PIN_SECRET" ∷ get_env "JWT_SECRET" ∷ "vibenet-dev-chat-pin-secret" ∷ [])

unfoldable pub window : ℕ → ℕ
window t = t / window_seconds

-- The end of the window, in seconds.
unfoldable pub current_expiry : ℕ → ℕ
unfolding window
current_expiry t = (window t + 1) * window_seconds

-- The last `n` bytes of a number, the highest first.
be_bytes : ℕ → ℕ → List ℕ
be_bytes zero w = []
be_bytes (suc n) w = (w / 256 ^ n % 256) ∷ be_bytes n w

-- `binary.BigEndian.Uint32`.
be_uint32 : List ℕ → ℕ
be_uint32 (a ∷ b ∷ c ∷ d ∷ _) = ((a * 256 + b) * 256 + c) * 256 + d
be_uint32 _ = 0

abbrev pub digit_char : ℕ → Char
digit_char zero = "0"
digit_char (suc zero) = "1"
digit_char (suc (suc zero)) = "2"
digit_char (suc (suc (suc zero))) = "3"
digit_char (suc (suc (suc (suc zero)))) = "4"
digit_char (suc (suc (suc (suc (suc zero))))) = "5"
digit_char (suc (suc (suc (suc (suc (suc zero)))))) = "6"
digit_char (suc (suc (suc (suc (suc (suc (suc zero))))))) = "7"
digit_char (suc (suc (suc (suc (suc (suc (suc (suc zero)))))))) = "8"
digit_char _ = "9"

infixr 67 ◌▹◌
abbrev pub ◌▹◌ : ℕ → String → String
d ▹ s = String.◌∷◌ (digit_char (d % 10)) s

-- The digits of a number before some text, the last of `k` at most.
digits_before : ℕ → ℕ → String → String
digits_before zero n s = s
digits_before (suc k) n s = if n == 0 then s else digits_before k (n / 10) (n ▹ s)

-- `fmt.Sprintf("%06d", n)`, of a `uint32`, which has at most ten digits.
unfoldable pub six_digits : ℕ → String
unfolding digits_before
six_digits n =
    if ltb n 1000000
    then (n / 100000) ▹ (n / 10000) ▹ (n / 1000) ▹ (n / 100) ▹ (n / 10) ▹ n ▹ ""
    else digits_before 10 n ""

const_eq : String → String → Bool
const_eq a b = a == b

-- `hmac key message` is HMAC-SHA256, and `key` the package's secret.
module _ (hmac : String → List ℕ → List ℕ) (key : String) where
  -- `w` is the window as the bits of a `uint64`.
  pub code_for_window : ℕ → ℕ → String
  unfolding be_bytes be_uint32
  code_for_window user_id w =
      let sum = hmac key (be_bytes 16 user_id ++ be_bytes 8 w) in
      six_digits (be_uint32 sum % 1000000)

  unfoldable pub rotating : ℕ → ℕ → String
  rotating user_id t = code_for_window user_id (window t)

  -- `none` is the result ("", false).
  unfoldable pub current_code : User → ℕ → Option String
  current_code user now =
      if user.chat_pin_type == chat_pin_static
      then elim user.custom_pin [ none ↦ none | some p ↦ if p == "" then none else some p ]
      else some (rotating user.user_id now)

  unfoldable pub valid : User → String → ℕ → Bool
  unfolding window const_eq
  valid user provided now =
      let given = trim_space provided in
      let w = window now in
      if not user.chat_pin_enabled
      then true
      else if given == ""
      then false
      else if user.chat_pin_type == chat_pin_static
      then elim user.custom_pin [ none ↦ false | some p ↦ const_eq given p ]
      else const_eq given (code_for_window user.user_id w)
        || const_eq given (code_for_window user.user_id ((w + 2 ^ 64 - 1) % 2 ^ 64))
