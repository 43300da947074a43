-- ===== src/Db/Users/Renaming.antt =====
-- internal/db/postgres.go: what `UpdateProfile` has done when it succeeds.
use vibe_net_backend.Base.{
  ℕ, String, Bool, true, some, List, ◌≡◌, sym, ap, ◌∙◌, subst, ◌==◌, ==_iff, ℕ_eq, String_eq, ltb,
  count_p, Bool-cases, inl, inr, arith, count_p-congr, count_p-and-not, not, ◌&&◌, head?, ==_refl,
  if◌then◌else◌,
}
use vibe_net_backend.Models.{User}
use vibe_net_backend.Db.Sql.{Sql}
use vibe_net_backend.Db.Sql.Counts.{count_p-update_same}
use vibe_net_backend.Db.Store.{Db, Tables, ok, user_table}
use vibe_net_backend.Db.Store.Runs.{bind_ok, relabel_ok, first_ok}
use vibe_net_backend.Db.Groups.Governed.{head-select, count_p-head-select}
use vibe_net_backend.Db.Users.{update_profile, get_user_by_id, is_user}
use vibe_net_backend.Db.Users.Unique.{IsUnique, guard_ok, count_ok, count_value, update_unique_ok}

-- The account `u` has the two names, nobody else's username was the same but for the case, and all
-- others have the rows that they had.
module _ (lower : String → String) (u : ℕ) (username display_name : String) where
  pub record IsRenamed (t t' : Tables) (user : User) : Type 0 where
    pub unique : IsUnique t'
    pub free : count_p (λ r. lower r.username == lower username && not (r.user_id == u)) t.users ≡ 0
    pub own : user.user_id ≡ u
    pub named : user.username ≡ username
    pub displayed : user.display_name ≡ display_name
    pub others :
        (q : User → Bool)
        → count_p (λ r. q r && not (r.user_id == u)) t'.users
          ≡ count_p (λ r. q r && not (r.user_id == u)) t.users

  module _ (sql : Sql) where
    renamed : User → User
    renamed r = record r { username = username; display_name = display_name }

    -- A row that the update has reached.
    written :
        (q : User → Bool) (rows : List User) {user : User}
        → ((r : User) → q (renamed r) ≡ true)
        → head? (sql.select User (is_user u) (sql.update User (is_user u) renamed rows)) ≡ some user
        → q user ≡ true
    unfolding renamed
    written q rows {user} given found = elim (Bool-cases (q user)) [
      | inl y ↦ y
      | inr n ↦ absurd (
          omega (
            arith,
            count_p-head-select sql (is_user u) (sql.update User (is_user u) renamed rows)
                (λ r. not (q r)) found (ap not n),
            sql.count_p-update User (is_user u) renamed (λ r. is_user u r && not (q r)) rows,
            count_p-congr
                (λ r.
                  if is_user u r
                  then is_user u (renamed r) && not (q (renamed r))
                  else is_user u r && not (q r))
                (λ r. is_user u r && not (is_user u r)) rows (λ r. ground (arith, given r)),
            count_p-and-not (is_user u) rows,
          ))
    ]

    -- After `UpdateProfile` that succeeds the account that it returns is the user's, with the new
    -- names; usernames are unique, letter by letter; no other account had that username but for
    -- the case; and all others have the rows that they had.
    pub update_profile-IsRenamed :
        (db : Db) {user : User} {db' : Db}
        → update_profile sql lower u username display_name db ≡ (ok user, db')
        → IsRenamed db.tables db'.tables user
    unfolding update_profile get_user_by_id renamed
    update_profile-IsRenamed db h =
        let (n, db1, d1, h1) = bind_ok _ _ h in
        let (_, db2, d2, h2) = bind_ok _ _ h1 in
        let (_, db3, d3, h3) = bind_ok _ _ h2 in
        let (found, same) = first_ok sql user_table db3 _ h3 in
        let (none_above, still) = guard_ok (ltb 0 n) _ db1 d2 in
        let (apart, rows) = update_unique_ok sql _ _ db2 (relabel_ok _ _ d3) in
        let counted = count_value sql _ db d1 in
        let before : db2.users ≡ db.users =
          ap (λ (x : Db). x.users) (sym still)
          ∙ ap (λ (t : Tables). t.users) (count_ok sql _ db d1) in
        let top = ap (λ t. head? (sql.select User (is_user u) t)) (sym rows) ∙ found in
        record {
          unique = subst IsUnique (sym same) apart;
          free = ground (arith, counted);
          own = (==_iff _ _).0 (head-select sql (is_user u) db3.users found);
          named =
              (==_iff _ _).0
                (written (λ r. r.username == username) db2.users (λ r. ==_refl username) top);
          displayed = (==_iff _ _).0 (
              written (λ r. r.display_name == display_name) db2.users (λ r. ==_refl display_name)
                top);
          others = λ q.
              ap (λ (t : Tables). count_p (λ r. q r && not (r.user_id == u)) t.users) same
              ∙ ap (count_p (λ r. q r && not (r.user_id == u))) rows
              ∙ count_p-update_same sql (is_user u) (λ r. q r && not (r.user_id == u)) db2.users
                  renamed (λ r. ground arith)
              ∙ ap (count_p (λ r. q r && not (r.user_id == u))) before;
        }
