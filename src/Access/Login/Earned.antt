-- ===== src/Access/Login/Earned.antt =====
-- internal/api/handler.go: a password session is earned, and a wrong password learns nothing.
use vibe_net_backend.Base.{
  ℕ, ◌<◌, String, Bool, true, false, ◌&&◌, ◌||◌, Option, none, some, ◌≡◌, ◌≢◌, refl, subst, ◌==◌,
  ==_refl, ==_iff, ℕ_eq, String_eq, count_p, Bool-cases, Option-cases, inl, inr, arith, trim_space,
}
use vibe_net_backend.Models.{User, user_status_deactivated, user_status_deleted}
use vibe_net_backend.Db.Sql.{Sql}
use vibe_net_backend.Db.Store.{Db, Result, ok, err, user_table, record_not_found}
use vibe_net_backend.Db.Store.Runs.{first_ok}
use vibe_net_backend.Db.Groups.Governed.{count_p-head-select}
use vibe_net_backend.Db.Users.{get_user_by_username}
use vibe_net_backend.Access.Login.{
  logged_in, login_blocked_reason, issued, login_user, looked_up, login,
}

login_blocked_reason_lem :
    (status : String)
    → login_blocked_reason status ≡ none
    → (status ≢ user_status_deactivated) × (status ≢ user_status_deleted)
unfolding login_blocked_reason
login_blocked_reason_lem status h = (
  (λ e. ground (arith, ==_iff status user_status_deactivated)),
  (λ e. ground (arith, ==_iff status user_status_deleted)),
)

username_ok :
    (sql : Sql) (name : String) (db : Db) {user : User} {db' : Db}
    → get_user_by_username sql name db ≡ (ok user, db')
    → 0
      < count_p
          (λ x. x.username == name && (x.user_id == user.user_id && x.status == user.status))
          db.users
unfolding get_user_by_username
username_ok sql name db {user} h =
    let (found, same) = first_ok sql user_table db _ h in
    count_p-head-select sql (λ r. r.username == name) db.users
      (λ x. x.user_id == user.user_id && x.status == user.status) found
      (rw (==_refl user.user_id, ==_refl user.status) refl)

module _ (matches : String → String → Bool) (generate : ℕ → String → Option String) where
  -- What an account must be for a password to open a session for it.
  pub record IsOpened (password : String) (user : User) (token : String) : Type 0 where
    pub hash : String
    pub stored : user.password_hash ≡ some hash
    pub matched : matches hash password ≡ true
    pub not_deactivated : user.status ≢ user_status_deactivated
    pub not_deleted : user.status ≢ user_status_deleted
    pub signed : generate user.user_id user.username ≡ some token

  issued_lem :
      (u user : User) {token : String}
      → issued matches generate u ≡ logged_in token user
      → (u ≡ user) × (generate u.user_id u.username ≡ some token)
  unfolding issued
  issued_lem u user h = elim (Option-cases (generate u.user_id u.username)) [
    | inl e ↦ absurd (ground arith)
    | inr (t, e) ↦ (ground arith, ground arith)
  ]

  login_user_lem :
      (password : String) (u user : User) {token : String}
      → login_user matches generate password u ≡ logged_in token user
      → (u ≡ user) × IsOpened password u token
  unfolding login_user
  login_user_lem password u user {token} h = elim (Option-cases u.password_hash) [
    | inl e ↦ absurd (ground arith)
    | inr (hash, e) ↦ elim (Bool-cases (matches hash password)) [
      | inr n ↦ absurd (ground arith)
      | inl y ↦ elim (Option-cases (login_blocked_reason u.status)) [
        | inr (msg, b) ↦ absurd (ground arith)
        | inl b ↦
            let k : issued matches generate u ≡ logged_in token user = ground arith in
            let (same, signed) = issued_lem u user k in
            let (active, present) = login_blocked_reason_lem u.status b in
            (
              same,
              record {
                hash = hash;
                stored = e;
                matched = y;
                not_deactivated = active;
                not_deleted = present;
                signed = signed;
              },
            )
      ]
    ]
  ]

  -- As long as the password does not match the stored hash of the account that `Login` found, or
  -- there is no hash, the answer is the same for every status of the account.
  pub login_user-Blind :
      (password status : String) (user : User)
      → ((hash : String) → user.password_hash ≡ some hash → matches hash password ≡ false)
      → login_user matches generate password (record user { status = status })
        ≡ login_user matches generate password user
  unfolding login_user
  login_user-Blind password status user wrong = elim (Option-cases user.password_hash) [
    | inl e ↦ rw e refl
    | inr (hash, e) ↦ rw (e, wrong hash e) refl
  ]

  looked_up_lem :
      (password : String) (x : Result User × Db) {token : String} {user : User} {db' : Db}
      → looked_up matches generate password x ≡ (logged_in token user, db')
      → (db1 : Db) × (x ≡ (ok user, db1)) × IsOpened password user token
  unfolding looked_up
  looked_up_lem password (err e, db) h = elim e [
    | record_not_found ↦ absurd (ground arith)
    | _ ↦ absurd (ground arith)
  ]
  looked_up_lem password (ok u, db) {token} {user} h =
      let k : login_user matches generate password u ≡ logged_in token user = ground arith in
      let (same, opened) = login_user_lem password u user k in
      (db, rw same refl, subst (λ w. IsOpened password w token) same opened)

  -- The account of a session: one that the database has under the trimmed username.
  pub record IsEarned (username password : String) (db : Db) (token : String) (user : User)
      : Type 0 where
    pub opened : IsOpened password user token
    pub found :
        0
        < count_p
            (λ x.
              x.username == trim_space username
              && (x.user_id == user.user_id && x.status == user.status))
            db.users

  -- `Login` gives a token only for an account that the database has under the trimmed username,
  -- whose stored hash the password matches, whose status is neither deactivated nor deleted, and
  -- the token is the one made for the identifier and the username of that account.
  pub login-IsEarned :
      (sql : Sql) (username password : String) (db : Db) {token : String} {user : User} {db' : Db}
      → login matches generate sql username password db ≡ (logged_in token user, db')
      → IsEarned username password db token user
  unfolding login
  login-IsEarned sql username password db {token} {user} {db'} h =
      let name = trim_space username in
      elim (Bool-cases (name == "" || password == "")) [
        | inl e ↦ absurd (ground arith)
        | inr e ↦
            let step : looked_up matches generate password (get_user_by_username sql name db)
                ≡ (logged_in token user, db') =
              ground arith in
            let (db1, read, opened) = looked_up_lem password _ step in
            record { opened = opened; found = username_ok sql name db read }
      ]
