-- ===== src/Auth/Tests.antt =====
-- Usernames of small Google accounts, with a table that lowers A to Z only.
use Prim.Native.Char.{Char, code}
use vibe_net_backend.Base.{◌≡◌, refl, if◌then◌else◌, ◌==◌, ℕ_eq, trim_space}
use vibe_net_backend.Auth.{derive_username}

abbrev lower_a : Char → Char
lower_a c = if code c == 65 then "a" else c

spaces : derive_username lower_a " Ada b! " "ada@example.org" ≡ "ada_b"
unfolding derive_username trim_space
spaces = refl

mail : derive_username lower_a "  " "a.b@example.org" ≡ "a.b"
unfolding derive_username trim_space
mail = refl

nothing_left : derive_username lower_a "!" "a@example.org" ≡ "google_user"
unfolding derive_username trim_space
nothing_left = refl
