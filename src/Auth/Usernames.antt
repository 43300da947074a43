-- ===== src/Auth/Usernames.antt =====
-- internal/auth/google.go: what usernames that come from a Google account look like.
use Prim.Native.Char.{Char, code}
use vibe_net_backend.Base.{
  ℕ, zero, suc, ◌≤◌, ◌⊎◌, String, true, false, ltb, ◌==◌, ℕ_eq, String_eq, cons-ne-empty,
  Bool-cases, inl, inr, ◌≡◌, refl, arith,
}
use vibe_net_backend.Auth.{
  is_kept, keep_runes, len, first_bytes, or_default, at_most_48, derive_username, map_runes,
  space_to_underscore, base_name,
}

-- A small letter a-z, a digit, `_` or `.`.
abbrev pub PlainRune : Char → Type 0
PlainRune c =
    ((b'a' ≤ code c) × (code c ≤ b'z'))
    ⊎ ((b'0' ≤ code c) × (code c ≤ b'9'))
    ⊎ (code c ≡ b'_')
    ⊎ (code c ≡ b'.')

abbrev pub Plain : String → Type 0
Plain String.[] = Unit
Plain (String.◌∷◌ c s) = PlainRune c × Plain s

is_kept_lem : (c : Char) → is_kept c ≡ true → PlainRune c
unfolding is_kept
is_kept_lem c h = ground arith

-- A text that may be a username.
abbrev pub IsUsername : String → Type 0
IsUsername s = ((s == "") ≡ false) × Plain s × (len s ≤ 48)

keep_runes-Plain : (s : String) → Plain (keep_runes s)
unfolding keep_runes
keep_runes-Plain String.[] = tt
keep_runes-Plain (String.◌∷◌ c s) = elim (Bool-cases (is_kept c)) [
  | inl e ↦ rw e (is_kept_lem c e, keep_runes-Plain s)
  | inr e ↦ rw e (keep_runes-Plain s)
]

first_bytes-Plain : (n : ℕ) (s : String) → Plain s → Plain (first_bytes n s)
unfolding first_bytes
first_bytes-Plain zero s h = tt
first_bytes-Plain (suc n) String.[] h = tt
first_bytes-Plain (suc n) (String.◌∷◌ c s) (h, hs) = (h, first_bytes-Plain n s hs)

len-first_bytes : (n : ℕ) (s : String) → len (first_bytes n s) ≤ n
unfolding first_bytes len
len-first_bytes zero s = omega arith
len-first_bytes (suc n) String.[] = omega arith
len-first_bytes (suc n) (String.◌∷◌ c s) = let ih = len-first_bytes n s in omega arith

first_bytes-ne_empty :
    (n : ℕ) (s : String) → (s == "") ≡ false → (first_bytes (suc n) s == "") ≡ false
unfolding first_bytes
first_bytes-ne_empty n String.[] h = h
first_bytes-ne_empty n (String.◌∷◌ c s) h = cons-ne-empty c (first_bytes n s)

or_default-ne_empty : (s : String) → (or_default s == "") ≡ false
unfolding or_default
or_default-ne_empty s = elim (Bool-cases (s == "")) [ inl e ↦ rw e refl | inr e ↦ rw e e ]

google_user-Plain : Plain "google_user"
unfolding keep_runes is_kept
google_user-Plain = keep_runes-Plain "google_user"

or_default-Plain : (s : String) → Plain s → Plain (or_default s)
unfolding or_default
or_default-Plain s h = elim (Bool-cases (s == "")) [
  | inl e ↦ rw e google_user-Plain
  | inr e ↦ rw e h
]

at_most_48-IsUsername : (s : String) → (s == "") ≡ false → Plain s → IsUsername (at_most_48 s)
unfolding at_most_48
at_most_48-IsUsername s ne plain = elim (Bool-cases (ltb 48 (len s))) [
  | inl e ↦ rw e (first_bytes-ne_empty 47 s ne, first_bytes-Plain 48 s plain, len-first_bytes 48 s)
  | inr e ↦ rw e (ne, plain, ground arith)
]

kept-IsUsername : (s : String) → IsUsername (at_most_48 (or_default (keep_runes s)))
kept-IsUsername s =
    let kept = keep_runes s in
    at_most_48-IsUsername (or_default kept) (or_default-ne_empty kept)
      (or_default-Plain kept (keep_runes-Plain s))

-- Whatever the display name and the address of a Google account are, and whatever the table of
-- small letters is, `DeriveUsername` returns a text that is not empty, has at most 48 characters,
-- and has only small letters a-z, digits, `_` and `.` in it.
pub derive_username-IsUsername :
    (lower : Char → Char) (display_name email : String)
    → IsUsername (derive_username lower display_name email)
unfolding derive_username
derive_username-IsUsername lower display_name email =
    kept-IsUsername (map_runes space_to_underscore (map_runes lower (base_name display_name email)))
