-- ===== src/Api/Pins.antt =====
-- internal/api/handler.go: the handlers of the chat PIN.
use vibe_net_backend.Base.{
  ℕ, ◌/◌, String, Bool, true, not, ◌&&◌, Option, none, some, if◌then◌else◌, ◌==◌, String_eq,
  trim_space,
}
use vibe_net_backend.Models.{User, chat_pin_rotating, chat_pin_static}
use vibe_net_backend.Pin.{valid, current_code, current_expiry}
use vibe_net_backend.Db.Store.{Error, record_not_found, invalid_pin_type}
use vibe_net_backend.Db.Users.{get_user_by_id, update_pin_settings}
use vibe_net_backend.Api.{
  Env, Serve, ◌>>=◌, ◌>>◌, pure, refuse_if, or_refuse, authenticated, decoded, ask, missing,
  time_now,
}
use vibe_net_backend.Api.Validation.{six_digit_pattern}

pub record PinSettingsRequest : Type 0 where
  pub enabled : Bool
  pub pin_type : String
  pub custom_pin : Option String

-- `expires_at` is in seconds.
pub record PinStatus : Type 0 where
  pub enabled : Bool
  pub pin_type : String
  pub pin : String
  pub expires_at : Option ℕ

abbrev pub not_configured : Error → ℕ × String
not_configured invalid_pin_type = (400, "type must be \"rotating\" or \"static\"")
not_configured record_not_found = (404, "user not found")
not_configured e = (500, "failed to update pin settings")

-- No PIN was ever set.
unfoldable pub has_no_pin : Option String → Bool
has_no_pin none = true
has_no_pin (some p) = p == ""

module _ (env : Env) where
  -- `pin.Valid` and `pinStatusFor`, which read the clock in seconds.
  abbrev pub accepts : User → String → ℕ → Bool
  accepts user given now = valid env.hmac env.pin_secret user given (now / 1000)

  unfoldable pub pin_status_for : User → ℕ → PinStatus
  pin_status_for user now =
      let code = current_code env.hmac env.pin_secret user (now / 1000) in
      record {
        enabled = user.chat_pin_enabled;
        pin_type = user.chat_pin_type;
        pin = if user.chat_pin_enabled then elim code [ none ↦ "" | some c ↦ c ] else "";
        expires_at =
            if user.chat_pin_enabled && user.chat_pin_type == chat_pin_rotating
            then elim code [ none ↦ none | some c ↦ some (current_expiry (now / 1000)) ]
            else none;
      }

  unfoldable pub verify_pin : Option ℕ → Option String → Serve Bool
  verify_pin caller body = do
    given ← decoded body
    me ← authenticated caller
    user ← ask (get_user_by_id env.sql me) (missing 404 "user not found" "failed to verify pin")
    now ← time_now env
    refuse_if (not (accepts user (trim_space given) now)) 403 "incorrect PIN"
    pure true

  unfoldable pub verify_peer_pin : Option ℕ → String → Option String → Serve Bool
  verify_peer_pin caller id body = do
    _ ← authenticated caller
    target ← or_refuse (env.parse_uuid id) 400 "invalid user id"
    given ← decoded body
    user ← ask (get_user_by_id env.sql target) (missing 404 "user not found" "failed to verify pin")
    now ← time_now env
    refuse_if (not (accepts user (trim_space given) now)) 403 "incorrect PIN"
    pure true

  -- The PIN that the request sets, which only the static type reads.
  unfoldable pub requested_pin : String → Option String → Serve (Option String)
  requested_pin pin_type none = pure none
  requested_pin pin_type (some p) =
      if pin_type == chat_pin_static
      then (do
        refuse_if (not (six_digit_pattern (trim_space p))) 400 "custom PIN must be exactly 6 digits"
        pure (some (trim_space p)))
      else pure none

  unfoldable pub change_pin_settings : Option ℕ → Option PinSettingsRequest → Serve PinStatus
  unfolding requested_pin has_no_pin pin_status_for
  change_pin_settings caller body = do
    req ← decoded body
    me ← authenticated caller
    let pin_type = trim_space req.pin_type
    refuse_if (not (pin_type == chat_pin_rotating) && not (pin_type == chat_pin_static)) 400
        "type must be \"rotating\" or \"static\""
    custom_pin ← requested_pin pin_type req.custom_pin
    user ← ask (update_pin_settings env.sql me req.enabled pin_type custom_pin) not_configured
    refuse_if
        (user.chat_pin_enabled
          && user.chat_pin_type == chat_pin_static
          && has_no_pin user.custom_pin)
        400 "set a 6-digit custom PIN to use a static code"
    now ← time_now env
    pure (pin_status_for user now)

  unfoldable pub get_my_chat_pin : Option ℕ → Serve PinStatus
  unfolding pin_status_for
  get_my_chat_pin caller = do
    me ← authenticated caller
    user ← ask (get_user_by_id env.sql me) (missing 404 "user not found" "failed to fetch pin")
    now ← time_now env
    pure (pin_status_for user now)
