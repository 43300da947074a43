-- ===== src/Pin/Accepts.antt =====
-- internal/pin/pin.go: which inputs `Valid` accepts, against the codes that `CurrentCode` shows.
use vibe_net_backend.Base.{
  ℕ, ◌+◌, ◌-◌, ◌/◌, ◌%◌, ◌^◌, ◌≤◌, ◌<◌, String, true, false, some, List, ◌≡◌, ap, ◌∙◌, ◌≢◌, ◌↔◌,
  ◌⊎◌, inl, inr, ltb, arith, ◌==◌, ==_iff, String_eq, Bool-cases, Option-cases, trim_space, NoSpace,
  trim_space_of_NoSpace, ℕ_eq,
}
use vibe_net_backend.Models.{User, chat_pin_static}
use vibe_net_backend.Pin.{window, code_for_window, rotating, current_code, current_expiry, valid}
use vibe_net_backend.Pin.Windows.{code_for_window-ne-empty}

window_of_recent :
    (t now : ℕ)
    → t ≤ now
    → now < current_expiry t + 300
    → now < 2 ^ 63
    → (window t ≡ window now) ⊎ (window t ≡ (window now + 2 ^ 64 - 1) % 2 ^ 64)
unfolding window current_expiry
window_of_recent t now h k late = elim (Bool-cases (ltb now (current_expiry t))) [
  | inl e ↦ inl (ground arith)
  | inr e ↦ inr (ground arith)
]

module _ (hmac : String → List ℕ → List ℕ) (key : String) where
  abbrev code_at : ℕ → ℕ → String
  code_at = code_for_window hmac key

  -- With the requirement on and the type static, `Valid` accepts an input exactly if its trimming
  -- is not empty and is the PIN that was set.
  pub valid_static_iff :
      (user : User) (provided : String) (now : ℕ)
      → user.chat_pin_enabled ≡ true
      → user.chat_pin_type ≡ chat_pin_static
      → (valid hmac key user provided now ≡ true)
        ↔ ((trim_space provided ≢ "") × (user.custom_pin ≡ some (trim_space provided)))
  unfolding valid
  valid_static_iff user provided now on static = elim (Option-cases user.custom_pin) [
    | inl unset ↦
        ground (arith, ==_iff (trim_space provided) "", ==_iff user.chat_pin_type chat_pin_static)
    | inr (p, e) ↦ ground (
      arith,
      ==_iff (trim_space provided) "",
      ==_iff user.chat_pin_type chat_pin_static,
      ==_iff (trim_space provided) p,
    )
  ]

  valid-rotating_windows :
      (user : User) (provided : String) (now : ℕ)
      → user.chat_pin_enabled ≡ true
      → user.chat_pin_type ≢ chat_pin_static
      → (valid hmac key user provided now ≡ true) ↔ (
          (trim_space provided ≡ code_at user.user_id (window now))
          ⊎ (trim_space provided ≡ code_at user.user_id ((window now + 2 ^ 64 - 1) % 2 ^ 64)))
  unfolding valid
  valid-rotating_windows user provided now on rotates =
      let given = trim_space provided in
      let this = code_at user.user_id (window now) in
      let last = code_at user.user_id ((window now + 2 ^ 64 - 1) % 2 ^ 64) in
      ground (
        arith,
        ==_iff given "",
        ==_iff user.chat_pin_type chat_pin_static,
        ==_iff given this,
        ==_iff given last,
        code_for_window-ne-empty hmac key user.user_id (window now),
        code_for_window-ne-empty hmac key user.user_id ((window now + 2 ^ 64 - 1) % 2 ^ 64),
      )

  -- With the requirement on and a type that is not static, `Valid` accepts exactly the inputs
  -- whose trimming is the code of some moment, not in the future, whose announced expiry passed
  -- less than 300 seconds ago, at any clock from 300 up to 2^63 seconds.
  pub valid-rotating_iff :
      (user : User) (provided : String) (now : ℕ)
      → user.chat_pin_enabled ≡ true
      → user.chat_pin_type ≢ chat_pin_static
      → 300 ≤ now
      → now < 2 ^ 63
      → (valid hmac key user provided now ≡ true) ↔ (
          (t : ℕ) × (t ≤ now)
          × (now < current_expiry t + 300)
          × (trim_space provided ≡ rotating hmac key user.user_id t))
  unfolding rotating current_expiry window
  valid-rotating_iff user provided now on rotates early late =
      let (sound, complete) = valid-rotating_windows user provided now on rotates in
      let last : (window now + 2 ^ 64 - 1) % 2 ^ 64 ≡ (now - 300) / 300 = omega arith in
      (
        (λ v. elim (sound v) [
          | inl this ↦ (now, omega arith, omega arith, this)
          | inr before ↦
              (now - 300, omega arith, omega arith, before ∙ ap (code_at user.user_id) last)
        ]),
        λ (t, past, fresh, same). elim (window_of_recent t now past fresh late) [
          | inl e ↦ complete (inl (same ∙ ap (code_at user.user_id) e))
          | inr e ↦ complete (inr (same ∙ ap (code_at user.user_id) e))
        ],
      )

  static_shown :
      (user : User) (t : ℕ) (shared : String)
      → (user.chat_pin_type == chat_pin_static) ≡ true
      → current_code hmac key user t ≡ some shared
      → (user.custom_pin ≡ some shared) × ((shared == "") ≡ false)
  unfolding current_code
  static_shown user t shared static e = elim (Option-cases user.custom_pin) [
    | inl unset ↦ absurd (ground arith)
    | inr (p, set) ↦ ground arith
  ]

  -- The PIN that `CurrentCode` shows at a moment, if it holds no white space, is accepted by
  -- `Valid` from that moment until one window (300 seconds) after the announced expiry.
  pub valid-current_code :
      (user : User) (t now : ℕ) {shared : String}
      → t ≤ now
      → now < current_expiry t + 300
      → now < 2 ^ 63
      → current_code hmac key user t ≡ some shared
      → NoSpace shared
      → valid hmac key user shared now ≡ true
  unfolding current_code rotating valid
  valid-current_code user t now {shared} h k late e plain =
      elim (Bool-cases (user.chat_pin_type == chat_pin_static)) [
        | inl static ↦ ground (
          arith,
          trim_space_of_NoSpace shared plain,
          static_shown user t shared static e,
          ==_iff shared shared,
        )
        | inr rotates ↦
            let shown : shared ≡ code_at user.user_id (window t) = ground arith in
            elim (window_of_recent t now h k late) [
              | inl e ↦ ground (
                arith,
                trim_space_of_NoSpace shared plain,
                code_for_window-ne-empty hmac key user.user_id (window t),
                ==_iff shared (code_at user.user_id (window now)),
              )
              | inr e ↦ ground (
                arith,
                trim_space_of_NoSpace shared plain,
                code_for_window-ne-empty hmac key user.user_id (window t),
                ==_iff shared (code_at user.user_id ((window now + 2 ^ 64 - 1) % 2 ^ 64)),
              )
            ]
      ]
