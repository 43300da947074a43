-- ===== src/Db/Search.antt =====
-- internal/db/postgres.go: the search for usernames.
use Prim.Native.String.{◌++◌}
use vibe_net_backend.Base.{ℕ, String, Bool, ◌&&◌, List, take, ◌==◌, String_eq}
use vibe_net_backend.Models.{User, user_status_active}
use vibe_net_backend.Db.Sql.{Sql}
use vibe_net_backend.Db.Store.{M, ◌>>=◌, pure, find_ordered, user_table}

-- `ilike text pattern` is ILIKE of the database, and `collation` its order of texts.
unfoldable pub search_users_by_username :
    Sql → (String → String → Bool) → (String → ℕ) → String → ℕ → M (List User)
search_users_by_username sql ilike collation query limit = do
  users ←
      find_ordered sql user_table
        (λ r. ilike r.username (query ++ "%") && r.status == user_status_active)
        (λ r. collation r.username)
  pure (take limit users)
