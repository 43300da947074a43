-- ===== src/Access/Sessions.antt =====
-- internal/websocket/handler.go: a realtime session is opened for active accounts only.
use vibe_net_backend.Base.{
  ℕ, ◌<◌, String, ◌&&◌, Option, some, ◌≡◌, ap, ◌∙◌, subst, ◌==◌, ==_iff, ℕ_eq, String_eq, count_p,
  Bool-cases, Option-cases, inl, inr, arith,
}
use vibe_net_backend.Models.{user_status_active}
use vibe_net_backend.Db.Sql.{Sql}
use vibe_net_backend.Db.Store.{Db, Result, ok, err, user_table}
use vibe_net_backend.Db.Store.Runs.{bind_ok, pure_ok, first_ok}
use vibe_net_backend.Db.Groups.Governed.{count_p-head-select}
use vibe_net_backend.Db.Users.{get_user_by_id, is_user}
use vibe_net_backend.Access.{
  Claims, Request, admitted, handshake_token, serve_http, user_status, checked_status,
}

module _ (validate : String → Option Claims) (parse_uuid : String → Option ℕ) (sql : Sql) where
  -- The claims that the handshake's token stands for, and the account that they name.
  pub record IsActive (r : Request) (db : Db) (u : ℕ) (username : String) : Type 0 where
    pub claims : Claims
    pub valid : validate (handshake_token r) ≡ some claims
    pub named : parse_uuid claims.user_id ≡ some u
    pub same : claims.username ≡ username
    pub active : 0 < count_p (λ x. is_user u x && x.status == user_status_active) db.users

  admitted_lem :
      (u : ℕ) (username : String) (x : Result String × Db) {v : ℕ} {name : String} {db' : Db}
      → checked_status validate parse_uuid sql u username x ≡ (admitted v name, db')
      → (db1 : Db) × (x ≡ (ok user_status_active, db1)) × (u ≡ v) × (username ≡ name)
  unfolding checked_status
  admitted_lem u username (err e, db) h = absurd (ground arith)
  admitted_lem u username (ok status, db) h = elim (Bool-cases (status == user_status_active)) [
    | inl y ↦ (
      db,
      ap (λ s. (ok s, db)) ((==_iff status user_status_active).0 y),
      ground arith,
      ground arith,
    )
    | inr n ↦ absurd (ground arith)
  ]

  status_ok :
      (u : ℕ) (db : Db) {status : String} {db' : Db}
      → user_status validate parse_uuid sql u db ≡ (ok status, db')
      → 0 < count_p (λ x. is_user u x && x.status == status) db.users
  unfolding user_status get_user_by_id
  status_ok u db {status} h =
      let (user, db1, e, k) = bind_ok _ _ h in
      let (found, same) = first_ok sql user_table db _ e in
      let given : user.status ≡ status = (pure_ok k).0 in
      count_p-head-select sql (is_user u) db.users (λ x. x.status == status) found
        ((==_iff user.status status).1 given)

  -- The WebSocket handshake opens a session only with a token that validates, for the user that
  -- it names, whose account is there and active when the handshake reads it.
  pub serve_http-IsActive :
      (r : Request) (db : Db) {u : ℕ} {username : String} {db' : Db}
      → serve_http validate parse_uuid sql r db ≡ (admitted u username, db')
      → IsActive r db u username
  unfolding serve_http
  serve_http-IsActive r db {u} {username} {db'} h = elim (Bool-cases (handshake_token r == "")) [
    | inl e ↦ absurd (ground arith)
    | inr e ↦ elim (Option-cases (validate (handshake_token r))) [
      | inl bad ↦ absurd (ground arith)
      | inr (claims, good) ↦ elim (Option-cases (parse_uuid claims.user_id)) [
        | inl stray ↦ absurd (ground arith)
        | inr (v, named) ↦
            let step : checked_status validate parse_uuid sql v claims.username
                  (user_status validate parse_uuid sql v db)
                ≡ (admitted u username, db') =
              ground arith in
            let (db1, read, who, name) = admitted_lem v claims.username _ step in
            record {
              claims = claims;
              valid = good;
              named = named ∙ ap some who;
              same = name;
              active =
                  subst
                    (λ w. 0 < count_p (λ x. is_user w x && x.status == user_status_active) db.users)
                    who (status_ok v db read);
            }
      ]
    ]
  ]
