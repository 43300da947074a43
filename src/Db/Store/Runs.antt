-- ===== src/Db/Store/Runs.antt =====
-- What a statement or a transaction has done when it succeeds, and that one that fails does nothing.
use vibe_net_backend.Base.{
  ℕ, Bool, true, false, Option, none, some, List, [], ◌∷◌, ◌≡◌, refl, sym, subst, ap, ◌∙◌, arith,
  if◌then◌else◌, count_p, head?, Bool-cases, inl, inr,
}
use vibe_net_backend.Db.Sql.{Sql}
use vibe_net_backend.Db.Store.{
  Tables, Db, Error, Result, ok, err, M, bind, pure, fail, relabel, Table, settle, refused, commit,
  closed, statement, transaction, find, find_ordered, first_of_rows, first, delete, update,
}

module _ {ℓ} {A : Type ℓ} where
  pub bind_ok {κ} :
      {B : Type κ} (r : Result A × Db) (f : A → M B) {b : B} {db' : Db}
      → bind r f ≡ (ok b, db')
      → (a : A) × (db1 : Db) × (r ≡ (ok a, db1)) × (f a db1 ≡ (ok b, db'))
  unfolding bind
  bind_ok (ok a, db1) f h = (a, db1, refl, h)
  bind_ok (err e, db1) f h = cc

  pub pure_ok : {a b : A} {db db' : Db} → pure a db ≡ (ok b, db') → (a ≡ b) × (db ≡ db')
  pure_ok h = (cc, cc)

  pub relabel_ok :
      (r : Result A × Db) (f : Error → Error) {a : A} {db' : Db}
      → relabel f r ≡ (ok a, db')
      → r ≡ (ok a, db')
  unfolding relabel
  relabel_ok (ok a, db) f h = h
  relabel_ok (err e, db) f h = cc

  settle_ok :
      (db : Db) (o : Option (A × Tables)) {a : A} {db' : Db}
      → settle db o ≡ (ok a, db')
      → o ≡ some (a, db'.tables)
  unfolding settle
  settle_ok db none h = cc
  settle_ok db (some (a, t)) h = ground arith

  commit_ok :
      (commits : ℕ → Bool → Bool) (start : Db) (r : Result A × Db) {a : A} {db' : Db}
      → commit commits start r ≡ (ok a, db')
      → (db1 : Db) × (r ≡ (ok a, db1))
        × (db'.tables ≡ db1.tables)
        × (commits db1.sent db1.failed ≡ true)
  unfolding commit closed
  commit_ok commits start (ok a, db1) h = (db1, ground arith, ground arith, ground arith)
  commit_ok commits start (err e, db1) h = cc

  commit_err :
      (commits : ℕ → Bool → Bool) (start : Db) (r : Result A × Db) {e : Error} {db' : Db}
      → commit commits start r ≡ (err e, db')
      → db'.tables ≡ start.tables
  unfolding commit closed
  commit_err commits start (ok a, db1) h = ground arith
  commit_err commits start (err e, db1) h = ground arith

module _ {ℓ} {A : Type ℓ} (sql : Sql) where
  pub transaction_ok :
      (m : M A) (db : Db) {a : A} {db' : Db}
      → transaction sql m db ≡ (ok a, db')
      → (db1 : Db) × (m (record db { in_transaction = true; failed = false }) ≡ (ok a, db1))
        × (db'.tables ≡ db1.tables)
        × (sql.commits db1.sent db1.failed ≡ true)
  unfolding transaction
  transaction_ok m db h = commit_ok sql.commits db _ h

  pub transaction_err :
      (m : M A) (db : Db) {e : Error} {db' : Db}
      → transaction sql m db ≡ (err e, db')
      → db'.tables ≡ db.tables
  unfolding transaction
  transaction_err m db h = commit_err sql.commits db _ h

  pub statement_ok :
      (run : ℕ → Tables → Option (A × Tables)) (db : Db) {a : A} {db' : Db}
      → statement sql run db ≡ (ok a, db')
      → run db.sent db.tables ≡ some (a, db'.tables)
  unfolding statement refused
  statement_ok run db h = elim (Bool-cases (sql.answers db.sent db.failed)) [
    | inl e ↦ settle_ok db (run db.sent db.tables) (rw (e) at h)
    | inr e ↦ absurd (ground arith)
  ]

module _ (sql : Sql) {R : Type 0} (table : Table R) where
  pub find_ok :
      (db : Db) (p : R → Bool) {rs : List R} {db' : Db}
      → find sql table p db ≡ (ok rs, db')
      → (rs ≡ sql.select R p (table.rows db.tables)) × (db'.tables ≡ db.tables)
  unfolding find
  find_ok db p h = let e = statement_ok sql _ db h in (cc e, cc e)

  pub find_ordered_ok :
      (db : Db) (p : R → Bool) (key : R → ℕ) {rs : List R} {db' : Db}
      → find_ordered sql table p key db ≡ (ok rs, db')
      → (rs ≡ sql.order_by R key (sql.select R p (table.rows db.tables))) × (db'.tables ≡ db.tables)
  unfolding find_ordered
  find_ordered_ok db p key h = let e = statement_ok sql _ db h in (cc e, cc e)

  first_of_rows_ok :
      (rs : List R) (db1 : Db) {r : R} {db' : Db}
      → first_of_rows sql table rs db1 ≡ (ok r, db')
      → (head? rs ≡ some r) × (db'.tables ≡ db1.tables)
  unfolding first_of_rows
  first_of_rows_ok [] db1 h = cc
  first_of_rows_ok (s ∷ rs) db1 h = (cc, cc)

  pub first_ok :
      (db : Db) (p : R → Bool) {r : R} {db' : Db}
      → first sql table p db ≡ (ok r, db')
      → (head? (sql.select R p (table.rows db.tables)) ≡ some r) × (db'.tables ≡ db.tables)
  unfolding first
  first_ok db p h =
      let (rs, db1, e, k) = bind_ok _ _ h in
      let (same, unchanged) = find_ok db p e in
      let (top, still) = first_of_rows_ok rs db1 k in (ap head? (sym same) ∙ top, still ∙ unchanged)

  pub delete_ok :
      (db : Db) (p : R → Bool) {db' : Db}
      → delete sql table p db ≡ (ok tt, db')
      → db'.tables ≡ table.put (sql.delete R p (table.rows db.tables)) db.tables
  unfolding delete
  delete_ok db p h = let e = statement_ok sql _ db h in cc e

  pub update_ok :
      (db : Db) (p : R → Bool) (f : R → R) {n : ℕ} {db' : Db}
      → update sql table p f db ≡ (ok n, db')
      → (n ≡ count_p p (table.rows db.tables))
        × (db'.tables ≡ table.put (sql.update R p f (table.rows db.tables)) db.tables)
  unfolding update
  update_ok db p f h = let e = statement_ok sql _ db h in (cc e, cc e)

-- A property of the tables is kept by a statement or a transaction, whatever the result.
module _ {ℓ κ} {A : Type ℓ} (sql : Sql) (P : Tables → Type κ) where
  commit_keeps :
      (start : Db) (r : Result A × Db)
      → P start.tables
      → ((a : A) (db1 : Db) → r ≡ (ok a, db1) → P db1.tables)
      → P (commit sql.commits start r).1.tables
  unfolding commit closed
  commit_keeps start (ok a, db1) old new = elim (Bool-cases (sql.commits db1.sent db1.failed)) [
    | inl e ↦ rw e (new a db1 refl)
    | inr e ↦ rw e old
  ]
  commit_keeps start (err e, db1) old new = old

  pub transaction_keeps :
      (m : M A) (db : Db)
      → P db.tables
      → ((a : A) (db1 : Db)
          → m (record db { in_transaction = true; failed = false }) ≡ (ok a, db1)
          → P db1.tables)
      → P (transaction sql m db).1.tables
  unfolding transaction
  transaction_keeps m db old new = commit_keeps db _ old new

  settle_keeps :
      (db : Db) (o : Option (A × Tables))
      → P db.tables
      → ((a : A) (t : Tables) → o ≡ some (a, t) → P t)
      → P (settle db o).1.tables
  unfolding settle
  settle_keeps db none old new = old
  settle_keeps db (some (a, t)) old new = new a t refl

  pub statement_keeps :
      (run : ℕ → Tables → Option (A × Tables)) (db : Db)
      → P db.tables
      → ((a : A) (t : Tables) → run db.sent db.tables ≡ some (a, t) → P t)
      → P (statement sql run db).1.tables
  unfolding statement refused
  statement_keeps run db old new = elim (Bool-cases (sql.answers db.sent db.failed)) [
    | inl e ↦ rw e (settle_keeps db (run db.sent db.tables) old new)
    | inr e ↦ rw e old
  ]

module _ {κ} (sql : Sql) (P : Tables → Type κ) {R : Type 0} (table : Table R) where
  pub update_keeps :
      (p : R → Bool) (f : R → R) (db : Db)
      → P db.tables
      → P (table.put (sql.update R p f (table.rows db.tables)) db.tables)
      → P (update sql table p f db).1.tables
  unfolding update
  update_keeps p f db old new = statement_keeps sql P _ db old (λ a t e. subst P (cc e) new)

-- A continuation that leaves the tables alone.
pub bind_tables {ℓ κ μ} :
    {A : Type ℓ} {B : Type κ} (P : Tables → Type μ) (r : Result A × Db) (f : A → M B)
    → ((a : A) (db : Db) → (f a db).1.tables ≡ db.tables)
    → P r.1.tables
    → P (bind r f).1.tables
unfolding bind
bind_tables P (ok a, db) f idle h = subst P (sym (idle a db)) h
bind_tables P (err e, db) f idle h = h

-- `if result.RowsAffected == 0 { return e }; return nil`
pub affected_tables :
    (b : Bool) (e : Error) (db : Db)
    → ((if b then fail e else pure {A = Unit {0}} tt) db).1.tables ≡ db.tables
affected_tables true e db = refl
affected_tables false e db = refl
