-- ===== src/Db/Store/Writes.antt =====
-- internal/db: writes to one table keep what does not depend on it, and a transaction keeps what its
-- statements keep.
use mathlib.Core.Option
use vibe_net_backend.Base.{
  ℕ, Bool, true, false, Option, none, some, List, ◌≡◌, if◌then◌else◌, subst, arith,
}
use vibe_net_backend.Db.Sql.{Sql}
use vibe_net_backend.Db.Store.{
  Tables, Db, M, Result, Table, update, update_unique, delete, create, create_all, transaction,
}
use vibe_net_backend.Db.Store.Reads.{Saves, Saves-statement}
use vibe_net_backend.Db.Store.Runs.{transaction_keeps}

module _ {κ} (sql : Sql) (P : Tables → Type κ) where
  pub Saves-transaction {ℓ} : {A : Type ℓ} (m : M A) → Saves P m → Saves P (transaction sql m)
  Saves-transaction m h = record {
    at = λ db p. transaction_keeps sql P m db p (λ a db1 e.
        subst (λ (x : Result _ × Db). P x.1.tables) e
          (h.at (record db { in_transaction = true; failed = false }) p));
  }

  -- The new rows are stored unless a unique index forbids them.
  pub stored_lem :
      {A R : Type 0} (table : Table R) (b : Bool) (a : A) (rs : List R) (t t' : Tables) {a' : A}
      → P (table.put rs t)
      → if◌then◌else◌ {A = Option (A × Tables)} b none (some (a, table.put rs t)) ≡ some (a', t')
      → P t'
  stored_lem table true a rs t t' p e = absurd (ground arith)
  stored_lem table false a rs t t' p e = subst P (cc e) p

  module _ {R : Type 0} (table : Table R)
      (put : (t : Tables) (rs : List R) → P t → P (table.put rs t)) where
    pub update-Saves : (p : R → Bool) (f : R → R) → Saves P (update sql table p f)
    unfolding update
    update-Saves p f = Saves-statement sql _ (λ n t a t' e q.
        let same : table.put (sql.update R p f (table.rows t)) t ≡ t' = cc e in
        subst P same (put t (sql.update R p f (table.rows t)) q))

    pub delete-Saves : (p : R → Bool) → Saves P (delete sql table p)
    unfolding delete
    delete-Saves p = Saves-statement sql _ (λ n t a t' e q.
        let same : table.put (sql.delete R p (table.rows t)) t ≡ t' = cc e in
        subst P same (put t (sql.delete R p (table.rows t)) q))

    pub update_unique-Saves : (p : R → Bool) (f : R → R) → Saves P (update_unique sql table p f)
    unfolding update_unique
    update_unique-Saves p f =
        Saves-statement sql _ (λ n t a t' e q. stored_lem table _ _ _ t t' (put t _ q) e)

    pub create-Saves : (row : ℕ → R) → Saves P (create sql table row)
    unfolding create
    create-Saves row =
        Saves-statement sql _ (λ n t a t' e q. stored_lem table _ _ _ t t' (put t _ q) e)

    filled_lem :
        (o : Option (List R)) (t t' : Tables) {u : Unit {0}}
        → Option.map {B = Unit {0} × Tables} (λ rows. (tt, table.put rows t)) o ≡ some (u, t')
        → P t
        → P t'
    filled_lem none t t' e q = absurd (ground arith)
    filled_lem (some rs) t t' e q = subst P (cc e) (put t rs q)

    pub create_all-Saves : (rs : List R) → Saves P (create_all sql table rs)
    unfolding create_all
    create_all-Saves rs = Saves-statement sql _ (λ n t a t' e q. filled_lem _ t t' e q)
