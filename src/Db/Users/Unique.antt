-- ===== src/Db/Users/Unique.antt =====
-- internal/db/postgres.go: no two accounts have one username.
use vibe_net_backend.Base.{
  ℕ, ◌≤◌, String, Bool, true, false, Option, none, some, List, ◌≡◌, refl, sym, ap, ◌∙◌, subst, ◌==◌,
  ==_iff, ℕ_eq, String_eq, ltb, count_p, count_p_mono, Bool-cases, inl, inr, arith, count_p-true,
  count_p-congr, length, ◌&&◌,
}
use vibe_net_backend.Models.{User}
use vibe_net_backend.Db.Sql.{Sql}
use vibe_net_backend.Db.Store.{Db, Tables, Error, ok, when, fail, count, update_unique, user_table}
use vibe_net_backend.Db.Store.Runs.{bind_ok, pure_ok, relabel_ok, statement_ok, find_ok}
use vibe_net_backend.Db.Store.Session.{create_ok}
use vibe_net_backend.Db.Users.{check_free, create_user}

abbrev pub has_name : String → User → Bool
has_name name r = r.username == name

abbrev pub IsUnique : Tables → Type 0
IsUnique t = (name : String) → count_p (has_name name) t.users ≤ 1

pub guard_ok :
    (b : Bool) (e : Error) (db : Db) {db' : Db}
    → when b (fail e) db ≡ (ok tt, db')
    → (b ≡ false) × (db ≡ db')
guard_ok true e db h = cc
guard_ok false e db h = (refl, cc)

module _ (sql : Sql) where
  pub count_ok :
      (p : User → Bool) (db : Db) {n : ℕ} {db' : Db}
      → count sql user_table p db ≡ (ok n, db')
      → db'.tables ≡ db.tables
  unfolding count
  count_ok p db h =
      let (rows, db1, e, k) = bind_ok _ _ h in
      ap (λ (d : Db). d.tables) (sym ((pure_ok k).1)) ∙ (find_ok sql user_table db p e).1

  check_free_ok :
      (o : Option String) (p : String → User → Bool) (e : Error) (db : Db) {db' : Db}
      → check_free sql o p e db ≡ (ok tt, db')
      → db'.tables ≡ db.tables
  unfolding check_free
  check_free_ok none p e db h = ap (λ (d : Db). d.tables) (sym ((pure_ok h).1))
  check_free_ok (some v) p e db h =
      let (n, db1, d, k) = bind_ok _ _ h in
      ap (λ (x : Db). x.tables) (sym ((guard_ok (ltb 0 n) e db1 k).1)) ∙ count_ok (p v) db d

  name_free :
      (rows : List User) (r : User)
      → count_p (user_table.clash r) rows ≡ 0
      → count_p (has_name r.username) rows ≡ 0
  name_free rows r free = omega (
    arith,
    free,
    count_p_mono (has_name r.username) (user_table.clash r) rows
        (λ s h. ground (arith, ==_iff s.username r.username)),
  )

  -- A row that clashes with no other keeps the usernames apart.
  inserted-IsUnique :
      (t : Tables) (r : User)
      → count_p (user_table.clash r) t.users ≡ 0
      → IsUnique t
      → IsUnique (user_table.put (sql.insert User r t.users) t)
  inserted-IsUnique t r free v name = elim (Bool-cases (has_name name r)) [
    | inr n ↦ ground (arith, sql.count_p-insert User r (has_name name) t.users, v name)
    | inl y ↦
        let none_before : count_p (has_name name) t.users ≡ 0 =
          subst (λ n. count_p (has_name n) t.users ≡ 0) ((==_iff r.username name).0 y)
            (name_free t.users r free) in
        ground (arith, sql.count_p-insert User r (has_name name) t.users, none_before)
  ]

  -- An account that `CreateUser` makes has a username that nobody had, letter by letter, and that
  -- one account has then, and usernames stay unique in that sense, in which two of them may
  -- differ by case only.
  pub create_user-IsUnique :
      (username password_hash public_key : String) (email phone_number : Option String) (now : ℕ)
      (db : Db) {user : User} {db' : Db}
      → IsUnique db.tables
      → create_user sql username password_hash public_key email phone_number now db ≡ (ok user, db')
      → IsUnique db'.tables
        × (count_p (has_name username) db.users ≡ 0)
        × (count_p (has_name username) db'.users ≡ 1)
  unfolding create_user
  create_user-IsUnique username password_hash public_key email phone_number now db {user} {db'} v
        h =
      let (_, db1, d1, h1) = bind_ok _ _ h in
      let (_, db2, d2, h2) = bind_ok _ _ h1 in
      let same : db2.tables ≡ db.tables =
        check_free_ok phone_number _ _ db1 d2 ∙ check_free_ok email _ _ db d1 in
      let (made, free, stored) = create_ok sql user_table db2 _ (relabel_ok _ _ h2) in
      let called : user.username ≡ username = ap (λ (x : User). x.username) made in
      let before : count_p (has_name username) db2.users ≡ 0 =
        subst (λ n. count_p (has_name n) db2.users ≡ 0) called (name_free db2.users user free) in
      (
        subst IsUnique (sym stored)
            (inserted-IsUnique db2.tables user free (subst IsUnique (sym same) v)),
        ap (λ (x : Tables). count_p (has_name username) x.users) (sym same) ∙ before,
        ap (λ (x : Tables). count_p (has_name username) x.users) stored
            ∙ sql.count_p-insert User user (has_name username) db2.users
            ∙ ground (arith, before, ==_iff user.username username, called),
      )

  -- The check of a unique index.
  checked-IsUnique :
      (t : Tables) (rows : List User)
      → ltb 0 (count_p (λ r. ltb 1 (count_p (user_table.clash r) rows)) rows) ≡ false
      → IsUnique (user_table.put rows t)
  checked-IsUnique t rows apart name = elim (Bool-cases (ltb 1 (count_p (has_name name) rows))) [
    | inr few ↦ ground arith
    | inl many ↦
        let clashing : count_p (has_name name) rows
            ≤ count_p (λ r. ltb 1 (count_p (user_table.clash r) rows)) rows =
          count_p_mono (has_name name) (λ r. ltb 1 (count_p (user_table.clash r) rows)) rows
            (λ r h. ground (
              arith,
              count_p_mono (has_name name) (user_table.clash r) rows (λ s k. ground (
                arith,
                ==_iff s.username name,
                ==_iff r.username name,
                ==_iff s.username r.username,
              )),
            )) in
        absurd (ground (arith, clashing))
  ]

  pub update_unique_ok :
      (p : User → Bool) (f : User → User) (db : Db) {n : ℕ} {db' : Db}
      → update_unique sql user_table p f db ≡ (ok n, db')
      → IsUnique db'.tables × (db'.users ≡ sql.update User p f db.users)
  unfolding update_unique
  update_unique_ok p f db {n} {db'} h =
      let rows = sql.update User p f db.users in
      let e = statement_ok sql _ db h in
      elim (Bool-cases (ltb 0 (count_p (λ r. ltb 1 (count_p (user_table.clash r) rows)) rows))) [
        | inl bad ↦ absurd (ground arith)
        | inr good ↦
            let stored : db'.tables ≡ user_table.put rows db.tables = ground arith in
            (
              subst IsUnique (sym stored) (checked-IsUnique db.tables rows good),
              ap (λ (t : Tables). t.users) stored,
            )
      ]

  pub count_value :
      (p : User → Bool) (db : Db) {n : ℕ} {db' : Db}
      → count sql user_table p db ≡ (ok n, db')
      → n ≡ count_p p db.users
  unfolding count
  count_value p db h =
      let (rows, db1, e, k) = bind_ok _ _ h in
      sym (pure_ok k).0
      ∙ ap length (find_ok sql user_table db p e).0
      ∙ sym (count_p-true (sql.select User p db.users))
      ∙ sql.count_p-select User p (λ _. true) db.users
      ∙ count_p-congr (λ r. p r && true) p db.users (λ r. ground arith)
