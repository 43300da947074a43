-- ===== src/Db/Store/Session.antt =====
-- The open transaction: a statement stays in it, and one that fails spoils it.
use vibe_net_backend.Base.{
  ℕ, Bool, true, false, Option, none, some, List, [], ◌∷◌, ◌≡◌, refl, sym, ◌∙◌, ap, arith,
  if◌then◌else◌, count_p, Bool-cases, inl, inr, ltb,
}
use vibe_net_backend.Db.Sql.{Sql}
use vibe_net_backend.Db.Store.{
  Tables, Db, Error, Result, ok, err, Table, settle, refused, statement, find, first_of_rows, first,
  update, create,
}
use vibe_net_backend.Db.Store.Runs.{bind_ok, statement_ok, statement_keeps, bind_tables}

settle_in {ℓ} :
    {A : Type ℓ} (db : Db) (o : Option (A × Tables))
    → (settle db o).1.in_transaction ≡ db.in_transaction
unfolding settle
settle_in db none = refl
settle_in db (some (a, t)) = refl

settle_err {ℓ} :
    {A : Type ℓ} (db : Db) (o : Option (A × Tables)) {e : Error} {db' : Db}
    → settle db o ≡ (err e, db')
    → db'.failed ≡ db.in_transaction
unfolding settle
settle_err db none h = ground arith
settle_err db (some (a, t)) h = cc

module _ {ℓ} {A : Type ℓ} (sql : Sql) where
  statement_in :
      (run : ℕ → Tables → Option (A × Tables)) (db : Db)
      → (statement sql run db).1.in_transaction ≡ db.in_transaction
  unfolding statement refused
  statement_in run db = elim (Bool-cases (sql.answers db.sent db.failed)) [
    | inl e ↦ rw e (settle_in db (run db.sent db.tables))
    | inr e ↦ rw e
  ]

  pub statement_err :
      (run : ℕ → Tables → Option (A × Tables)) (db : Db) {e : Error} {db' : Db}
      → statement sql run db ≡ (err e, db')
      → db'.failed ≡ db.in_transaction
  unfolding statement refused
  statement_err run db h = elim (Bool-cases (sql.answers db.sent db.failed)) [
    | inl e ↦ settle_err db (run db.sent db.tables) (rw e at h)
    | inr e ↦ ground arith
  ]

inserted_ok :
    {R : Type 0} (b : Bool) (new : R) (t : Tables) {r : R} {t' : Tables}
    → if◌then◌else◌ {A = Option (R × Tables)} b none (some (new, t)) ≡ some (r, t')
    → (b ≡ false) × (new ≡ r) × (t ≡ t')
inserted_ok true new t h = cc
inserted_ok false new t h = (refl, cc, cc)

ltb-false : (n : ℕ) → ltb 0 n ≡ false → n ≡ 0
ltb-false n h = ground arith

module _ (sql : Sql) {R : Type 0} (table : Table R) (db : Db) where
  find_in : (p : R → Bool) → (find sql table p db).1.in_transaction ≡ db.in_transaction
  unfolding find
  find_in p = statement_in sql _ db

  pub update_in :
      (p : R → Bool) (f : R → R) → (update sql table p f db).1.in_transaction ≡ db.in_transaction
  unfolding update
  update_in p f = statement_in sql _ db

  first_of_rows_in :
      (rs : List R) (db1 : Db)
      → (first_of_rows sql table rs db1).1.in_transaction ≡ db1.in_transaction
  unfolding first_of_rows
  first_of_rows_in [] db1 = refl
  first_of_rows_in (r ∷ rs) db1 = refl

  pub first_in :
      (p : R → Bool) {r : R} {db' : Db}
      → first sql table p db ≡ (ok r, db')
      → db'.in_transaction ≡ db.in_transaction
  unfolding first
  first_in p h =
      let (rs, db1, e, k) = bind_ok _ _ h in
      ap (λ (x : Result R × Db). x.1.in_transaction) (sym k)
      ∙ first_of_rows_in rs db1
      ∙ ap (λ (x : Result (List R) × Db). x.1.in_transaction) (sym e)
      ∙ find_in p

  -- `Create` succeeds only where no row clashes with the new one.
  pub create_ok :
      (row : ℕ → R) {r : R} {db' : Db}
      → create sql table row db ≡ (ok r, db')
      → (r ≡ row (sql.new_uuid db.sent))
        × (count_p (table.clash r) (table.rows db.tables) ≡ 0)
        × (db'.tables ≡ table.put (sql.insert R r (table.rows db.tables)) db.tables)
  unfolding create
  create_ok row {r} {db'} h =
      let (free, same, stored) = inserted_ok _ _ _ (statement_ok sql _ db h) in
      (
        sym same,
        ap (λ (x : R). count_p (table.clash x) (table.rows db.tables)) (sym same)
            ∙ ltb-false _ free,
        sym stored
            ∙ ap (λ (x : R). table.put (sql.insert R x (table.rows db.tables)) db.tables) same,
      )

  pub create_err :
      (row : ℕ → R) {e : Error} {db' : Db}
      → create sql table row db ≡ (err e, db')
      → db'.failed ≡ db.in_transaction
  unfolding create
  create_err row h = statement_err sql _ db h

-- A lookup changes nothing, whatever comes of it.
module _ (sql : Sql) {R : Type 0} (table : Table R) where
  pub find_tables : (p : R → Bool) (db : Db) → (find sql table p db).1.tables ≡ db.tables
  unfolding find
  find_tables p db = statement_keeps sql (λ t. t ≡ db.tables) _ db refl (λ a t e. cc)

  pub first_tables : (p : R → Bool) (db : Db) → (first sql table p db).1.tables ≡ db.tables
  unfolding first first_of_rows
  first_tables p db =
      bind_tables (λ t. t ≡ db.tables) _ (first_of_rows sql table) first_of_rows_tables
        (find_tables p db)
    where
      first_of_rows_tables :
          (rs : List R) (db1 : Db) → (first_of_rows sql table rs db1).1.tables ≡ db1.tables
      first_of_rows_tables [] db1 = refl
      first_of_rows_tables (r ∷ rs) db1 = refl
