-- ===== src/Db/Users/Google.antt =====
-- internal/db/postgres.go: the account that `CreateOrGetUserByGoogle` returns is one of the table.
use vibe_net_backend.Base.{
  ℕ, ◌<◌, String, Bool, true, not, ◌&&◌, Option, none, some, ◌≡◌, refl, sym, ap, ◌∙◌, subst, ◌==◌,
  ==_iff, ==_refl, ℕ_eq, String_eq, Bool-cases, inl, inr, count_p, arith,
}
use vibe_net_backend.Models.{User}
use vibe_net_backend.Db.Sql.{Sql}
use vibe_net_backend.Db.Sql.Counts.{count_p-update_same}
use vibe_net_backend.Db.Store.{
  Db, Tables, Result, ok, err, record_not_found, same_text, first, update, user_table, pure, bind,
}
use vibe_net_backend.Db.Store.Runs.{bind_ok, pure_ok, first_ok, update_keeps}
use vibe_net_backend.Db.Store.Session.{create_ok}
use vibe_net_backend.Db.Groups.Governed.{head-select, count_p-head-select}
use vibe_net_backend.Db.Users.{
  is_user, attempt, refresh_avatar, backfill_display_name, found_google_user,
  create_or_get_user_by_google,
}
use vibe_net_backend.Db.Users.Sparing.{logged_tables}

same_text_lem : (o : Option String) (v : String) → same_text o (some v) ≡ true → o ≡ some v
same_text_lem none v h = absurd (ground arith)
same_text_lem (some a) v h = ap some ((==_iff a v).0 h)

-- A row with the identifier, the status and the username of `k`, and that Google identifier.
abbrev pub is_row_of : String → User → User → Bool
is_row_of google_id k r =
    same_text r.google_id (some google_id)
    && (r.user_id == k.user_id && (r.status == k.status && r.username == k.username))

abbrev pub IsStored : String → User → Tables → Type 0
IsStored google_id k t = 0 < count_p (is_row_of google_id k) t.users

-- The two differ in what the refreshing writes only.
record IsSame (user existing : User) : Type 0 where
  user_id : user.user_id ≡ existing.user_id
  status : user.status ≡ existing.status
  username : user.username ≡ existing.username
  google_id : user.google_id ≡ existing.google_id

IsSame-refl : (u : User) → IsSame u u
IsSame-refl u = record { user_id = refl; status = refl; username = refl; google_id = refl }

IsSame-trans : (a b c : User) → IsSame a b → IsSame b c → IsSame a c
IsSame-trans a b c p q = record {
  user_id = p.user_id ∙ q.user_id;
  status = p.status ∙ q.status;
  username = p.username ∙ q.username;
  google_id = p.google_id ∙ q.google_id;
}

IsStored-same :
    (google_id : String) (a b : User) (t : Tables)
    → IsSame a b
    → IsStored google_id b t
    → IsStored google_id a t
IsStored-same google_id a b t s h = rw (s.user_id, s.status, s.username) h

changed_lem :
    (f : User → User) (existing : User) (r : Result (Option ℕ) × Db) {user : User} {db' : Db}
    → IsSame (f existing) existing
    → bind r (λ changed. pure (elim changed [ none ↦ existing | some n ↦ f existing ]))
      ≡ (ok user, db')
    → IsSame user existing × (db'.tables ≡ r.1.tables)
unfolding bind
changed_lem f existing (ok none, db) same h =
    let (is, last) = pure_ok h in
    (subst (λ x. IsSame x existing) is (IsSame-refl existing), ap (λ (x : Db). x.tables) (sym last))
changed_lem f existing (ok (some n), db) same h =
    let (is, last) = pure_ok h in
    (subst (λ x. IsSame x existing) is same, ap (λ (x : Db). x.tables) (sym last))
changed_lem f existing (err e, db) same h = cc

module _ (sql : Sql) (google_id : String) where
  -- A method that may change the photo or the shown name of the account.
  abbrev Refreshes : User → Db → User → Db → Type 0
  Refreshes existing db user db' =
      IsSame user existing
      × ((k : User) → IsStored google_id k db.tables → IsStored google_id k db'.tables)

  refreshed_lem :
      (f : User → User) (existing : User) (db : Db) {user : User} {db' : Db}
      → ((r : User) → IsSame (f r) r)
      → ((k r : User) → is_row_of google_id k (f r) ≡ is_row_of google_id k r)
      → bind
          (attempt (update sql user_table (is_user existing.user_id) f) db)
          (λ changed. pure (elim changed [ none ↦ existing | some n ↦ f existing ]))
        ≡ (ok user, db')
      → Refreshes existing db user db'
  refreshed_lem f existing db same blind h =
      let (is, last) = changed_lem f existing _ (same existing) h in
      (
        is,
        λ k stored.
            subst (IsStored google_id k)
              (sym (last ∙ logged_tables (update sql user_table (is_user existing.user_id) f db)))
              (update_keeps sql (IsStored google_id k) user_table (is_user existing.user_id) f db
                stored
                (omega (
                  arith,
                  stored,
                  count_p-update_same sql (is_user existing.user_id) (is_row_of google_id k)
                      db.users f (λ r. ground (arith, blind k r)),
                ))),
      )

  idle_lem :
      (existing : User) (db : Db) {user : User} {db' : Db}
      → pure existing db ≡ (ok user, db')
      → Refreshes existing db user db'
  idle_lem existing db h =
      let (is, last) = pure_ok h in
      (
        subst (λ x. IsSame x existing) is (IsSame-refl existing),
        λ k stored. subst (λ (x : Db). IsStored google_id k x.tables) last stored,
      )

  refresh_avatar_ok :
      (url : String) (existing : User) (db : Db) {user : User} {db' : Db}
      → refresh_avatar sql url existing db ≡ (ok user, db')
      → Refreshes existing db user db'
  unfolding refresh_avatar
  refresh_avatar_ok url existing db h =
      elim (Bool-cases (not (url == "") && not (same_text existing.avatar_url (some url)))) [
        | inl y ↦
            refreshed_lem (λ r. record r { avatar_url = some url }) existing db
              (λ r. record { user_id = refl; status = refl; username = refl; google_id = refl })
              (λ k r. refl) (rw y at h)
        | inr n ↦ idle_lem existing db (rw n at h)
      ]

  backfill_display_name_ok :
      (name : String) (existing : User) (db : Db) {user : User} {db' : Db}
      → backfill_display_name sql name existing db ≡ (ok user, db')
      → Refreshes existing db user db'
  unfolding backfill_display_name
  backfill_display_name_ok name existing db h =
      elim (Bool-cases (existing.display_name == "" && not (name == ""))) [
        | inl y ↦
            refreshed_lem (λ r. record r { display_name = name }) existing db
              (λ r. record { user_id = refl; status = refl; username = refl; google_id = refl })
              (λ k r. refl) (rw y at h)
        | inr n ↦ idle_lem existing db (rw n at h)
      ]

  -- The account has the Google identifier that was asked for, and is in the table.
  abbrev pub IsAccount : User → Db → Type 0
  IsAccount user db = (user.google_id ≡ some google_id) × IsStored google_id user db.tables

  module _ (email username display_name url : String) (now : ℕ) where
    found_google_user_ok :
        (db : Db) (r : Result User × Db) {user : User} {db' : Db}
        → first sql user_table (λ r. same_text r.google_id (some google_id)) db ≡ r
        → found_google_user sql google_id email username display_name url now r ≡ (ok user, db')
        → IsAccount user db'
    unfolding found_google_user
    found_google_user_ok db (ok existing, db1) {user} {db'} e h =
        let (photographed, db2, d2, h2) = bind_ok _ _ h in
        let (found, same) = first_ok sql user_table db _ e in
        let (photo, keeps1) = refresh_avatar_ok url existing db1 d2 in
        let (name, keeps2) = backfill_display_name_ok display_name photographed db2 h2 in
        let whole = IsSame-trans user photographed existing name photo in
        let there : IsStored google_id existing db.tables =
          count_p-head-select sql (λ r. same_text r.google_id (some google_id)) db.users
            (λ r.
              r.user_id == existing.user_id
              && (r.status == existing.status && r.username == existing.username))
            found
            (rw (==_refl existing.user_id, ==_refl existing.status, ==_refl existing.username)
              refl) in
        (
          whole.google_id
              ∙ same_text_lem existing.google_id google_id
                  (head-select sql (λ r. same_text r.google_id (some google_id)) db.users found),
          IsStored-same google_id user existing db'.tables whole (
              keeps2 existing
                (keeps1 existing (subst (IsStored google_id existing) (sym same) there))),
        )
    found_google_user_ok db (err record_not_found, db1) {user} e h =
        let (made, free, stored) = create_ok sql user_table db1 _ h in
        let given : user.google_id ≡ some google_id = ap (λ (x : User). x.google_id) made in
        (
          given,
          subst (IsStored google_id user) (sym stored) (
              ground (
                arith,
                sql.count_p-insert User user (is_row_of google_id user) db1.users,
                own user given,
              )),
        )
      where
        own : (u : User) → u.google_id ≡ some google_id → is_row_of google_id u u ≡ true
        own u given =
            rw (given, ==_refl google_id, ==_refl u.user_id, ==_refl u.status, ==_refl u.username)
              refl
    found_google_user_ok db (err x, db1) e h = cc

    pub create_or_get_user_by_google_ok :
        (db : Db) {user : User} {db' : Db}
        → create_or_get_user_by_google sql google_id email username display_name url now db
          ≡ (ok user, db')
        → IsAccount user db'
    unfolding create_or_get_user_by_google
    create_or_get_user_by_google_ok db h = found_google_user_ok db _ refl h
