-- ===== src/Api/Patterns.antt =====
-- internal/api/handler.go: what the pattern of e-mail addresses accepts, by its parts.
use Prim.Native.Char.{Char, code}
use Prim.Native.String.{◌++◌}
use text.Mathlib.TextLemmas.{nil-append, cons-append}
use text.Mathlib.TextEquality.{Char-path}
use vibe_net_backend.Base.{
  String, Bool, true, false, not, ◌&&◌, ◌||◌, ◌≡◌, ◌↔◌, refl, sym, ap, ◌∙◌, ◌==◌, ==_iff, ℕ_eq,
  String_eq, Bool-cases, inl, inr, arith, cons-ne-empty,
}
use vibe_net_backend.Api.Validation.{
  all_runes, is_email_rune, dotted, is_domain, after_local, email_pattern,
}

-- A text without white space and without "@".
abbrev pub IsPlain : String → Type 0
IsPlain s = all_runes is_email_rune s ≡ true

abbrev pub IsWord : String → Type 0
IsWord s = IsPlain s × ((s == "") ≡ false)

-- A word, "@", and two words with a dot between them, the first of which may have dots too.
abbrev pub IsDomain : String → Type 0
IsDomain s = (a : String) × (b : String) × (s ≡ a ++ String.◌∷◌ "." b) × IsWord a × IsWord b

abbrev pub IsEmail : String → Type 0
IsEmail s = (a : String) × (d : String) × (s ≡ a ++ String.◌∷◌ "@" d) × IsWord a × IsDomain d

abbrev IsDotted : String → Type 0
IsDotted s = (a : String) × (b : String) × (s ≡ a ++ String.◌∷◌ "." b) × IsPlain a × IsWord b

abbrev IsTail : String → Type 0
IsTail s = (a : String) × (d : String) × (s ≡ a ++ String.◌∷◌ "@" d) × IsPlain a × IsDomain d

-- A text that begins with a character of a known code.
begins : (c d : Char) (s : String) → (code c == code d) ≡ true → String.◌∷◌ c s ≡ String.◌∷◌ d s
begins c d s h = ap (λ x. String.◌∷◌ x s) (Char-path c d ((==_iff (code c) (code d)).0 h))

longer : (c : Char) {s : String} (a b : String) → s ≡ a ++ b → String.◌∷◌ c s ≡ String.◌∷◌ c a ++ b
longer c a b e = ap (String.◌∷◌ c) e ∙ sym (cons-append c a b)

second : (p q r : Bool) → (p || (q && r)) ≡ true → p ≡ false → (q ≡ true) × (r ≡ true)
second p q r h n = ground arith

all_three : (p q r : Bool) → (p && not q && r) ≡ true → (p ≡ true) × (q ≡ false) × (r ≡ true)
all_three p q r h = ground arith

dotted-IsDotted : (s : String) → dotted s ≡ true → IsDotted s
unfolding dotted
dotted-IsDotted String.[] h = absurd (ground arith)
dotted-IsDotted (String.◌∷◌ c s) h =
    elim (Bool-cases (code c == b'.' && not (s == "") && all_runes is_email_rune s)) [
      | inl y ↦
          let (is_dot, some_text, plain) = all_three _ _ _ y in
          ("", s, begins c "." s is_dot ∙ sym (nil-append _), refl, (plain, some_text))
      | inr n ↦
          let (rune, rest) = second _ (is_email_rune c) (dotted s) h n in
          let (a, b, e, pa, wb) = dotted-IsDotted s rest in
          (String.◌∷◌ c a, b, longer c a _ e, rw (rune, pa) refl, wb)
    ]

IsDotted-dotted : (a b : String) → IsPlain a → IsWord b → dotted (a ++ String.◌∷◌ "." b) ≡ true
unfolding dotted
IsDotted-dotted String.[] b pa (pb, ne) = rw (nil-append (String.◌∷◌ "." b), ne, pb) refl
IsDotted-dotted (String.◌∷◌ c a) b pa wb =
    let ih = IsDotted-dotted a b (ground arith) wb in
    rw (cons-append c a (String.◌∷◌ "." b), ih) (ground arith)

is_domain-IsDomain : (s : String) → is_domain s ≡ true → IsDomain s
unfolding is_domain
is_domain-IsDomain String.[] h = absurd (ground arith)
is_domain-IsDomain (String.◌∷◌ c s) h =
    let (a, b, e, pa, wb) = dotted-IsDotted s (ground arith) in
    (String.◌∷◌ c a, b, longer c a _ e, (ground arith, cons-ne-empty c a), wb)

IsDomain-is_domain : (s : String) → IsDomain s → is_domain s ≡ true
unfolding is_domain
IsDomain-is_domain s (String.[], b, e, (pa, ne), wb) = absurd (ground arith)
IsDomain-is_domain s (String.◌∷◌ c a, b, e, (pa, ne), wb) =
    let ih = IsDotted-dotted a b (ground arith) wb in
    rw (e, cons-append c a (String.◌∷◌ "." b), ih) (ground arith)

after_local-IsTail : (s : String) → after_local s ≡ true → IsTail s
unfolding after_local
after_local-IsTail String.[] h = absurd (ground arith)
after_local-IsTail (String.◌∷◌ c s) h = elim (Bool-cases (code c == b'@')) [
  | inl y ↦
      ("", s, begins c "@" s y ∙ sym (nil-append _), refl, is_domain-IsDomain s (ground arith))
  | inr n ↦
      let (a, d, e, pa, dom) = after_local-IsTail s (ground arith) in
      (String.◌∷◌ c a, d, longer c a _ e, ground arith, dom)
]

IsTail-after_local :
    (a d : String) → IsPlain a → IsDomain d → after_local (a ++ String.◌∷◌ "@" d) ≡ true
unfolding after_local
IsTail-after_local String.[] d pa dom =
    rw (nil-append (String.◌∷◌ "@" d), IsDomain-is_domain d dom) refl
IsTail-after_local (String.◌∷◌ c a) d pa dom =
    let ih = IsTail-after_local a d (ground arith) dom in
    rw (cons-append c a (String.◌∷◌ "@" d), ih) (ground arith)

email_pattern-IsEmail : (s : String) → email_pattern s ≡ true → IsEmail s
unfolding email_pattern
email_pattern-IsEmail String.[] h = absurd (ground arith)
email_pattern-IsEmail (String.◌∷◌ c s) h =
    let (a, d, e, pa, dom) = after_local-IsTail s (ground arith) in
    (String.◌∷◌ c a, d, longer c a _ e, (ground arith, cons-ne-empty c a), dom)

IsEmail-email_pattern : (s : String) → IsEmail s → email_pattern s ≡ true
unfolding email_pattern
IsEmail-email_pattern s (String.[], d, e, (pa, ne), dom) = absurd (ground arith)
IsEmail-email_pattern s (String.◌∷◌ c a, d, e, (pa, ne), dom) =
    let ih = IsTail-after_local a d (ground arith) dom in
    rw (e, cons-append c a (String.◌∷◌ "@" d), ih) (ground arith)

-- The matcher of e-mail addresses accepts a text exactly if it is a word, "@", a word, a dot and
-- a word, where a word is not empty and has neither white space nor "@" in it.
pub email_pattern_iff : (s : String) → (email_pattern s ≡ true) ↔ IsEmail s
email_pattern_iff s = (email_pattern-IsEmail s, IsEmail-email_pattern s)
