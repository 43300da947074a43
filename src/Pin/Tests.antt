-- ===== src/Pin/Tests.antt =====
-- The chat PINs of small accounts, with a constant in the place of the HMAC.
use vibe_net_backend.Base.{
  ℕ, ◌+◌, ◌≤◌, ◌<◌, String, true, Option, none, some, List, [], ◌∷◌, ◌≡◌, ◌≢◌, ◌↔◌, refl, arith,
  ==_iff, String_eq, trim_space, NoSpace, is_space,
}
use vibe_net_backend.Models.{User, chat_pin_static, chat_pin_rotating, user_status_active}
use vibe_net_backend.Pin.{
  rotating, current_code, current_expiry, valid, code_for_window, six_digits, window,
}
use vibe_net_backend.Pin.Accepts.{valid-rotating_iff, valid_static_iff, valid-current_code}
use vibe_net_backend.Pin.Windows.{Digits, rotating-Digits, current_expiry_bounds}

abbrev account : String → Option String → User
account type pin = record {
  user_id = 42;
  username = "ada";
  display_name = "Ada";
  email = none;
  phone_number = none;
  google_id = none;
  password_hash = none;
  public_key = none;
  created_at = 0;
  avatar_url = none;
  last_seen = none;
  chat_pin_enabled = true;
  chat_pin_type = type;
  custom_pin = pin;
  status = user_status_active;
}

abbrev mac : String → List ℕ → List ℕ
mac key message = 0 ∷ 1 ∷ 226 ∷ 64 ∷ []

shows : rotating mac "k" 42 1000 ≡ "123456"
unfolding rotating code_for_window six_digits
shows = refl

rotates : chat_pin_rotating ≢ chat_pin_static
rotates e = ground (arith, ==_iff chat_pin_rotating chat_pin_static)

valid-rotating_iff_example :
    (valid mac "k" (account chat_pin_rotating none) " 123456 " 1000 ≡ true) ↔ (
      (t : ℕ) × (t ≤ 1000)
      × (1000 < current_expiry t + 300)
      × (trim_space " 123456 " ≡ rotating mac "k" 42 t))
valid-rotating_iff_example =
    valid-rotating_iff mac "k" (account chat_pin_rotating none) " 123456 " 1000 refl rotates
      (omega arith) (omega arith)

valid_static_iff_example :
    (valid mac "k" (account chat_pin_static (some "99")) "99 " 1000 ≡ true)
    ↔ ((trim_space "99 " ≢ "") × (some "99" ≡ some (trim_space "99 ")))
valid_static_iff_example =
    valid_static_iff mac "k" (account chat_pin_static (some "99")) "99 " 1000 refl refl

shared_pin : current_code mac "k" (account chat_pin_static (some "99")) 1000 ≡ some "99"
unfolding current_code
shared_pin = refl

plain_pin : NoSpace "99"
unfolding is_space
plain_pin = (refl, (refl, tt))

recent : 1100 < current_expiry 1000 + 300
unfolding current_expiry window
recent = omega arith

valid-current_code_example : valid mac "k" (account chat_pin_static (some "99")) "99" 1100 ≡ true
valid-current_code_example =
    valid-current_code mac "k" (account chat_pin_static (some "99")) 1000 1100 (omega arith) recent
      (omega arith) shared_pin plain_pin

rotating-Digits_example : Digits 6 (rotating mac "k" 42 1000)
rotating-Digits_example = rotating-Digits mac "k" 42 1000

current_expiry_bounds_example :
    (1000 < current_expiry 1000)
    × (current_expiry 1000 ≤ 1000 + 300)
    × ((current_expiry 1000 ≤ 1100 + 300) × (1100 < current_expiry 1000)
        ↔ (window 1100 ≡ window 1000))
current_expiry_bounds_example = current_expiry_bounds 1000 1100
