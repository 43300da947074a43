-- ===== src/Main/Origins.antt =====
-- cmd/api/main.go: the origins are usable whatever the setting is.
use text.Mathlib.TextLemmas.{cons-ne-nil}
use vibe_net_backend.Base.{
  String, List, [], ◌∷◌, ◌≢◌, ◌==◌, ==_iff, String_eq, Bool-cases, inl, inr, trim_space, arith,
}
use vibe_net_backend.Storage.{get_env}
use vibe_net_backend.Main.{split_comma, trimmed_origins, or_any, allowed_origins}

-- Every origin is a text with something in it.
abbrev pub NoBlank : List String → Type 0
NoBlank [] = Unit
NoBlank (o ∷ os) = (o ≢ "") × NoBlank os

trimmed_origins-NoBlank : (parts : List String) → NoBlank (trimmed_origins parts)
unfolding trimmed_origins
trimmed_origins-NoBlank [] = tt
trimmed_origins-NoBlank (p ∷ parts) = elim (Bool-cases (trim_space p == "")) [
  | inl e ↦ rw e (trimmed_origins-NoBlank parts)
  | inr e ↦ rw e ((λ same. ground (arith, ==_iff (trim_space p) "")), trimmed_origins-NoBlank parts)
]

or_any_lem : (os : List String) → NoBlank os → (or_any os ≢ []) × NoBlank (or_any os)
unfolding or_any
or_any_lem [] _ = ((λ same. ground arith), (cons-ne-nil "*" "", tt))
or_any_lem (o ∷ os) h = ((λ same. ground arith), h)

-- Whatever CORS_ALLOWED_ORIGINS is, at least one origin is allowed, and none is blank.
pub allowed_origins-NoBlank :
    (environ : String → String) → (allowed_origins environ ≢ []) × NoBlank (allowed_origins environ)
unfolding allowed_origins
allowed_origins-NoBlank environ =
    or_any_lem _
      (trimmed_origins-NoBlank (split_comma (get_env environ "CORS_ALLOWED_ORIGINS" "*")))
