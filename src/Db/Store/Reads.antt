-- ===== src/Db/Store/Reads.antt =====
-- internal/db: calls that read only, and what a call does to a property of the tables.
use vibe_net_backend.Base.{
  ℕ, Bool, true, false, Option, some, List, [], ◌∷◌, ◌≡◌, refl, sym, subst, ◌∙◌, if◌then◌else◌,
}
use vibe_net_backend.Db.Sql.{Sql}
use vibe_net_backend.Db.Store.{
  Tables, Db, M, Error, Result, ok, err, bind, ◌>>=◌, pure, fail, relabel, on_error, when, Table,
  statement, find, find_ordered, first_of_rows, first, count,
}
use vibe_net_backend.Db.Store.Runs.{statement_keeps}

pub record Reads {ℓ} {A : Type ℓ} (m : M A) : Type ℓ where
  pub same : (db : Db) → (m db).1.tables ≡ db.tables

pub record Saves {ℓ κ} {A : Type ℓ} (P : Tables → Type κ) (m : M A) : Type κ where
  pub at : (db : Db) → P db.tables → P (m db).1.tables

module _ {ℓ} {A : Type ℓ} where
  pub Reads-Saves {κ} : {P : Tables → Type κ} (m : M A) → Reads m → Saves P m
  Reads-Saves {P} m h = record { at = λ db p. subst P (sym (h.same db)) p }

  pub Reads-pure : (a : A) → Reads (pure a)
  Reads-pure a = record { same = λ db. refl }

  pub Reads-fail : (e : Error) → Reads (fail {A = A} e)
  Reads-fail e = record { same = λ db. refl }

  relabel_tables : (f : Error → Error) (r : Result A × Db) → (relabel f r).1.tables ≡ r.1.tables
  unfolding relabel
  relabel_tables f (ok a, db) = refl
  relabel_tables f (err e, db) = refl

  pub Reads-on_error : (m : M A) (f : Error → Error) → Reads m → Reads (on_error m f)
  Reads-on_error m f h = record { same = λ db. relabel_tables f (m db) ∙ h.same db }

  pub Reads-if : (b : Bool) (m n : M A) → Reads m → Reads n → Reads (if b then m else n)
  Reads-if true m n hm hn = hm
  Reads-if false m n hm hn = hn

module _ {ℓ κ} {A : Type ℓ} {B : Type κ} where
  bind_same :
      (r : Result A × Db) (f : A → M B) (db : Db)
      → r.1.tables ≡ db.tables
      → ((a : A) → Reads (f a))
      → (bind r f).1.tables ≡ db.tables
  unfolding bind
  bind_same (ok a, db1) f db e hf = (hf a).same db1 ∙ e
  bind_same (err x, db1) f db e hf = e

  pub Reads-bind : (m : M A) (f : A → M B) → Reads m → ((a : A) → Reads (f a)) → Reads (m >>= f)
  Reads-bind m f hm hf = record { same = λ db. bind_same (m db) f db (hm.same db) hf }

module _ (sql : Sql) where
  pub Reads-statement {ℓ} :
      {A : Type ℓ} (run : ℕ → Tables → A) → Reads (statement sql (λ n t. some (run n t, t)))
  Reads-statement run = record {
    same = λ db.
        statement_keeps sql (λ t. t ≡ db.tables) (λ n t. some (run n t, t)) db refl (λ a t e. cc);
  }

  module _ {R : Type 0} (table : Table R) where
    pub Reads-find : (p : R → Bool) → Reads (find sql table p)
    unfolding find
    Reads-find p = Reads-statement (λ _ t. sql.select R p (table.rows t))

    pub Reads-find_ordered : (p : R → Bool) (key : R → ℕ) → Reads (find_ordered sql table p key)
    unfolding find_ordered
    Reads-find_ordered p key =
        Reads-statement (λ _ t. sql.order_by R key (sql.select R p (table.rows t)))

    Reads-first_of_rows : (rs : List R) → Reads (first_of_rows sql table rs)
    unfolding first_of_rows
    Reads-first_of_rows [] = Reads-fail _
    Reads-first_of_rows (r ∷ rs) = Reads-pure r

    pub Reads-first : (p : R → Bool) → Reads (first sql table p)
    unfolding first
    Reads-first p = Reads-bind _ _ (Reads-find p) (λ rs. Reads-first_of_rows rs)

    pub Reads-count : (p : R → Bool) → Reads (count sql table p)
    unfolding count
    Reads-count p = Reads-bind _ _ (Reads-find p) (λ rs. Reads-pure _)

-- The rules for calls that write.
module _ {ℓ κ} {A : Type ℓ} {P : Tables → Type κ} where
  pub Saves-pure : (a : A) → Saves P (pure a)
  Saves-pure a = record { at = λ db p. p }

  pub Saves-fail : (e : Error) → Saves P (fail {A = A} e)
  Saves-fail e = record { at = λ db p. p }

  pub Saves-if : (b : Bool) (m n : M A) → Saves P m → Saves P n → Saves P (if b then m else n)
  Saves-if true m n hm hn = hm
  Saves-if false m n hm hn = hn

  pub Saves-on_error : (m : M A) (f : Error → Error) → Saves P m → Saves P (on_error m f)
  Saves-on_error m f h = record { at = λ db p. subst P (sym (relabel_tables f (m db))) (h.at db p) }

  pub Saves-statement :
      (sql : Sql) (run : ℕ → Tables → Option (A × Tables))
      → ((n : ℕ) (t : Tables) (a : A) (t' : Tables) → run n t ≡ some (a, t') → P t → P t')
      → Saves P (statement sql run)
  Saves-statement sql run keep = record {
    at = λ db p. statement_keeps sql P run db p (λ a t e. keep db.sent db.tables a t e p);
  }

pub Saves-when {κ} :
    {P : Tables → Type κ} (b : Bool) (m : M (Unit {0})) → Saves P m → Saves P (when b m)
Saves-when true m h = h
Saves-when false m h = record { at = λ db p. p }

module _ {ℓ κ μ} {A : Type ℓ} {B : Type μ} {P : Tables → Type κ} where
  bind_saved :
      (r : Result A × Db) (f : A → M B)
      → P r.1.tables
      → ((a : A) → Saves P (f a))
      → P (bind r f).1.tables
  unfolding bind
  bind_saved (ok a, db) f p hf = (hf a).at db p
  bind_saved (err e, db) f p hf = p

  pub Saves-bind :
      (m : M A) (f : A → M B) → Saves P m → ((a : A) → Saves P (f a)) → Saves P (m >>= f)
  Saves-bind m f hm hf = record { at = λ db p. bind_saved (m db) f (hm.at db p) hf }

pub ruleset saves_rules =
    (Saves-pure, Saves-fail, Saves-if, Saves-on_error, Saves-when, Saves-bind, Reads-Saves)
