-- ===== src/Db/Users/Erasure.antt =====
-- internal/db/postgres.go: a deleted account keeps no personal data, and the others keep theirs.
use vibe_net_backend.Base.{
  ℕ, ◌<◌, String, Bool, true, false, not, ◌&&◌, Option, none, some, ◌≡◌, refl, sym, ap, ◌∙◌, ◌==◌,
  ℕ_eq, String_eq, count_p, count_p-congr, count_p-and-not, Bool-cases, inl, inr, arith,
}
use vibe_net_backend.Models.{User, user_status_deleted}
use vibe_net_backend.Db.Sql.{Sql}
use vibe_net_backend.Db.Store.{Db, Tables, ok, user_table}
use vibe_net_backend.Db.Store.Runs.{bind_ok, pure_ok, update_ok}
use vibe_net_backend.Db.Users.{delete_user, update_user, is_user, erased}

abbrev pub is_none : Option String → Bool
is_none none = true
is_none (some s) = false

-- No personal data but the username, and no way to log in.
abbrev pub is_blank : User → Bool
is_blank r =
    r.status == user_status_deleted
    && r.display_name == ""
    && is_none r.email
    && is_none r.phone_number
    && is_none r.avatar_url
    && is_none r.google_id
    && is_none r.password_hash
    && is_none r.public_key
    && is_none r.custom_pin
    && not r.chat_pin_enabled

module _ (sql : Sql) (u : ℕ) where
  update_user_ok :
      (f : User → User) (db : Db) {db' : Db}
      → update_user sql u f db ≡ (ok tt, db')
      → (0 < count_p (is_user u) db.users) × (db'.users ≡ sql.update User (is_user u) f db.users)
  unfolding update_user
  update_user_ok f db {db'} h =
      let (n, db1, d, k) = bind_ok _ _ h in
      let (counted, stored) = update_ok sql user_table db _ _ d in
      elim (Bool-cases (n == 0)) [
        | inl zero' ↦ absurd (ground arith)
        | inr some' ↦ (
          ground (arith, counted),
          ap (λ (x : Db). x.users) (sym (pure_ok (rw some' at k)).1)
              ∙ ap (λ (t : Tables). t.users) stored,
        )
      ]

  -- `DeleteUser` that succeeds had the account, leaves none of its rows with personal data but
  -- the username or with a way to log in, and changes no row of another account.
  pub delete_user-erases :
      (db : Db) {db' : Db}
      → delete_user sql u db ≡ (ok tt, db')
      → (0 < count_p (is_user u) db.users)
        × (count_p (λ r. is_user u r && not (is_blank r)) db'.users ≡ 0)
        × ((q : User → Bool)
            → count_p (λ r. not (is_user u r) && q r) db'.users
              ≡ count_p (λ r. not (is_user u r) && q r) db.users)
  unfolding delete_user
  delete_user-erases db {db'} h =
      let (there, stored) = update_user_ok erased db h in
      (
        there,
        ap (count_p (λ r. is_user u r && not (is_blank r))) stored
            ∙ sql.count_p-update User (is_user u) erased (λ r. is_user u r && not (is_blank r))
                db.users
            ∙ count_p-congr _ (λ r. is_user u r && not (is_user u r)) db.users
                (λ r. elim (Bool-cases (is_user u r)) [ inl y ↦ rw y refl | inr n ↦ rw n refl ])
            ∙ count_p-and-not (is_user u) db.users,
        λ q.
            ap (count_p (λ r. not (is_user u r) && q r)) stored
            ∙ sql.count_p-update User (is_user u) erased (λ r. not (is_user u r) && q r) db.users
            ∙ count_p-congr _ (λ r. not (is_user u r) && q r) db.users
                (λ r. elim (Bool-cases (is_user u r)) [ inl y ↦ rw y refl | inr n ↦ rw n refl ]),
      )
