-- ===== src/Base/Text.antt =====
-- What the program uses of Go's `strings`, over code points.
use Prim.Native.Char.{Char, code}
use Prim.Native.String.{String}
use Prim.Native.Nat.{ℕ, ◌+◌}
use mathlib.Core.Path.{◌≡◌, refl}
use mathlib.Core.List.{List, [], ◌∷◌}
use mathlib.Core.Bool.{Bool, true, false, ◌&&◌, ◌||◌}
use text.Mathlib.TextLemmas.{cons-ne-nil}
use mathlib.Core.Logic.{inl, inr}
use vibe_net_backend.Base.Tests.{String_eq, ==_iff, if◌then◌else◌, leb, ltb, ◌==◌, ℕ_eq, Bool-cases}

-- `unicode.IsSpace`.
unfoldable pub is_space : Char → Bool
is_space ch =
    let c = code ch in
    (leb 9 c && leb c 13)
    || c == 32
    || c == 0x85
    || c == 0xa0
    || c == 0x1680
    || (leb 0x2000 c && leb c 0x200a)
    || c == 0x2028
    || c == 0x2029
    || c == 0x202f
    || c == 0x205f
    || c == 0x3000

is_empty : String → Bool
is_empty String.[] = true
is_empty (String.◌∷◌ c s) = false

trim_left : String → String
trim_left String.[] = ""
trim_left (String.◌∷◌ c s) = let rest = trim_left s in if is_space c then rest else String.◌∷◌ c s

trim_right : String → String
trim_right String.[] = ""
trim_right (String.◌∷◌ c s) =
    if is_space c && is_empty (trim_right s) then "" else String.◌∷◌ c (trim_right s)

-- `strings.TrimSpace`.
unfoldable pub trim_space : String → String
unfolding trim_left trim_right is_space is_empty
trim_space s = trim_right (trim_left s)

trim_space_runs : trim_space " \t 12 3 " ≡ "12 3"
unfolding trim_space
trim_space_runs = refl

-- A character before the first of some parts.
abbrev pub prepend : Char → List String → List String
prepend c [] = String.◌∷◌ c "" ∷ []
prepend c (p ∷ ps) = String.◌∷◌ c p ∷ ps

-- A text with no white space is its own trimming.
abbrev pub NoSpace : String → Type 0
NoSpace String.[] = Unit
NoSpace (String.◌∷◌ c s) = (is_space c ≡ false) × NoSpace s

trim_left_of_NoSpace : (s : String) → NoSpace s → trim_left s ≡ s
unfolding trim_left
trim_left_of_NoSpace String.[] h = refl
trim_left_of_NoSpace (String.◌∷◌ c s) (h, _) = rw h

trim_right_of_NoSpace : (s : String) → NoSpace s → trim_right s ≡ s
unfolding trim_right
trim_right_of_NoSpace String.[] h = refl
trim_right_of_NoSpace (String.◌∷◌ c s) (h, hs) = rw (h, trim_right_of_NoSpace s hs)

pub trim_space_of_NoSpace : (s : String) → NoSpace s → trim_space s ≡ s
unfolding trim_space
trim_space_of_NoSpace s h = rw (trim_left_of_NoSpace s h) (trim_right_of_NoSpace s h)

pub cons-ne-empty : (c : Char) (s : String) → (String.◌∷◌ c s == "") ≡ false
cons-ne-empty c s = elim (Bool-cases (String.◌∷◌ c s == "")) [
  | inl e ↦ absurd (cons-ne-nil c s ((==_iff _ _).0 e))
  | inr e ↦ e
]

-- The bytes of a code point in UTF-8.
rune_len : Char → ℕ
rune_len ch =
    let c = code ch in
    if ltb c 0x80 then 1 else if ltb c 0x800 then 2 else if ltb c 0x10000 then 3 else 4

-- Go's `len`, which counts bytes.
unfoldable pub byte_len : String → ℕ
unfolding rune_len
byte_len String.[] = 0
byte_len (String.◌∷◌ c s) = rune_len c + byte_len s
