-- ===== src/Api/Keeping.antt =====
-- internal/api: what a handler does to the tables, one rule for each way to build a handler, and
-- what the steps before a result did.
use vibe_net_backend.Base.{
  ℕ, String, Bool, true, false, Option, none, some, ◌≡◌, refl, sym, subst, if◌then◌else◌, arith,
}
use vibe_net_backend.Db.Store.{Tables, Db, M, Error, Result, ok, err}
use vibe_net_backend.Db.Store.Reads.{Saves, Reads-Saves}
use vibe_net_backend.Api.{
  Env, Effect, Server, Reply, done, refused, Serve, continue, ◌>>=◌, pure, refuse, refuse_if,
  or_refuse, asked, ask, tried, attempt, emit, when, refuse_invalid, deliver_frame, invalidate,
  time_now, new_string, ApiFrame,
}

-- A handler after which a property of the tables holds as before.
pub record Keeps {ℓ κ} {A : Type ℓ} (P : Tables → Type κ) (m : Serve A) : Type κ where
  pub at : (s : Server) → P s.db.tables → P (m s).1.db.tables

module _ {ℓ} {A : Type ℓ} where
  pub asked_tables :
      (answer : Error → ℕ × String) (s : Server) (r : Result A × Db)
      → (asked answer s r).1.db.tables ≡ r.1.tables
  unfolding asked
  asked_tables answer s (ok a, db) = refl
  asked_tables answer s (err e, db) = refl

  pub ask_tables :
      (m : M A) (answer : Error → ℕ × String) (s : Server)
      → (ask m answer s).1.db.tables ≡ (m s.db).1.tables
  unfolding ask
  ask_tables m answer s = asked_tables answer s (m s.db)

module _ {ℓ κ} {A : Type ℓ} {P : Tables → Type κ} where
  pub Keeps-pure : (a : A) → Keeps P (pure a)
  Keeps-pure a = record { at = λ s p. p }

  pub Keeps-refuse : (code : ℕ) (message : String) → Keeps P (refuse {A = A} code message)
  Keeps-refuse code message = record { at = λ s p. p }

  pub Keeps-or_refuse :
      (o : Option A) (code : ℕ) (message : String) → Keeps P (or_refuse o code message)
  unfolding or_refuse
  Keeps-or_refuse none code message = record { at = λ s p. p }
  Keeps-or_refuse (some a) code message = record { at = λ s p. p }

  pub Keeps-ask : (m : M A) (answer : Error → ℕ × String) → Saves P m → Keeps P (ask m answer)
  Keeps-ask m answer h = record { at = λ s p. subst P (sym (ask_tables m answer s)) (h.at s.db p) }

  pub Keeps-attempt : (m : M A) → Saves P m → Keeps P (attempt m)
  unfolding attempt tried
  Keeps-attempt m h = record { at = λ s p. h.at s.db p }

  pub Keeps-if : (b : Bool) (m n : Serve A) → Keeps P m → Keeps P n → Keeps P (if b then m else n)
  Keeps-if true m n km kn = km
  Keeps-if false m n km kn = kn

module _ {κ} {P : Tables → Type κ} where
  pub Keeps-refuse_if :
      (b : Bool) (code : ℕ) (message : String) → Keeps P (refuse_if b code message)
  unfolding refuse_if
  Keeps-refuse_if true code message = record { at = λ s p. p }
  Keeps-refuse_if false code message = record { at = λ s p. p }

  pub Keeps-refuse_invalid : (o : Option String) → Keeps P (refuse_invalid o)
  unfolding refuse_invalid
  Keeps-refuse_invalid none = record { at = λ s p. p }
  Keeps-refuse_invalid (some message) = record { at = λ s p. p }

  pub Keeps-when : (b : Bool) (m : Serve (Unit {0})) → Keeps P m → Keeps P (when b m)
  unfolding when
  Keeps-when true m km = km
  Keeps-when false m km = record { at = λ s p. p }

  pub Keeps-emit : (e : Effect) → Keeps P (emit e)
  unfolding emit
  Keeps-emit e = record { at = λ s p. p }

  pub Keeps-deliver_frame :
      (env : Env) (u : ℕ) (frame : ApiFrame) → Keeps P (deliver_frame env u frame)
  unfolding deliver_frame
  Keeps-deliver_frame env u frame = Keeps-if env.has_broadcaster _ _ (Keeps-emit _) (Keeps-pure tt)

  pub Keeps-invalidate : (env : Env) (g : ℕ) → Keeps P (invalidate env g)
  unfolding invalidate
  Keeps-invalidate env g = Keeps-if env.has_broadcaster _ _ (Keeps-emit _) (Keeps-pure tt)

  pub Keeps-new_string : (env : Env) → Keeps P (new_string env)
  Keeps-new_string env = record { at = λ s p. p }

  pub Keeps-time_now : (env : Env) → Keeps P (time_now env)
  Keeps-time_now env = record { at = λ s p. p }

module _ {ℓ ν μ} {A : Type ℓ} {B : Type ν} (Q : Tables → Type μ) where
  pub continue_leads :
      (f : A → Serve B) (x : Reply A × Server)
      → Q x.1.db.tables
      → ((a : A) (s1 : Server) → x ≡ (done a, s1) → Q (f a s1).1.db.tables)
      → Q (continue x f).1.db.tables
  unfolding continue
  continue_leads f (done a, s1) q next = next a s1 refl
  continue_leads f (refused code message, s1) q next = q

module _ {ℓ μ κ} {A : Type ℓ} {B : Type μ} (P : Tables → Type κ) where
  -- The rest of the handler may use that the first step had a result.
  pub bind_keeps :
      (m : Serve A) (f : A → Serve B) (s : Server)
      → P (m s).1.db.tables
      → ((a : A) (s1 : Server) → m s ≡ (done a, s1) → P s1.db.tables → P (f a s1).1.db.tables)
      → P ((m >>= f) s).1.db.tables
  bind_keeps m f s p next =
      continue_leads P f (m s) p
        (λ a s1 e. next a s1 e (subst (λ (x : Reply A × Server). P x.1.db.tables) e p))

module _ {ℓ μ κ} {A : Type ℓ} {B : Type μ} {P : Tables → Type κ} where
  pub Keeps-bind :
      (m : Serve A) (f : A → Serve B) → Keeps P m → ((a : A) → Keeps P (f a)) → Keeps P (m >>= f)
  Keeps-bind m f km kf = record {
    at = λ s p. bind_keeps P m f s (km.at s p) (λ a s1 e p1. (kf a).at s1 p1);
  }

  -- The rest of the handler may use what is known of every result of the first step.
  pub Keeps-bind_known {ν} :
      (m : Serve A) (f : A → Serve B) (R : A → Type ν)
      → ((s : Server) (a : A) (s1 : Server) → m s ≡ (done a, s1) → R a)
      → Keeps P m
      → ((a : A) → R a → Keeps P (f a))
      → Keeps P (m >>= f)
  Keeps-bind_known m f R known km kf = record {
    at = λ s p. bind_keeps P m f s (km.at s p) (λ a s1 e p1. (kf a (known s a s1 e)).at s1 p1);
  }

-- A handler that is entered with `P` and left with `Q`, by any of its ways.
pub record Leads {ℓ κ μ} {A : Type ℓ} (P : Tables → Type κ) (Q : Tables → Type μ) (m : Serve A)
    : Type (κ ⊔ μ) where
  pub at : (s : Server) → P s.db.tables → Q (m s).1.db.tables

module _ {ℓ ν κ μ} {A : Type ℓ} {B : Type ν} {P : Tables → Type κ} {Q : Tables → Type μ} where
  pub Leads-later :
      (m : Serve A) (f : A → Serve B)
      → ((t : Tables) → P t → Q t)
      → Keeps P m
      → ((a : A) → Leads P Q (f a))
      → Leads P Q (m >>= f)
  Leads-later m f weaken km lf = record {
    at = λ s p.
        continue_leads Q f (m s) (weaken _ (km.at s p)) (λ a s1 e.
          (lf a).at s1 (subst (λ (x : Reply A × Server). P x.1.db.tables) e (km.at s p)));
  }

  pub Leads-then :
      (m : Serve A) (f : A → Serve B)
      → Leads P Q m
      → ((a : A) → Keeps Q (f a))
      → Leads P Q (m >>= f)
  Leads-then m f lm kf = record {
    at = λ s p. bind_keeps Q m f s (lm.at s p) (λ a s1 e q. (kf a).at s1 q);
  }

module _ {ℓ κ μ} {A : Type ℓ} {P : Tables → Type κ} {Q : Tables → Type μ} where
  pub Leads-ask :
      (m : M A) (answer : Error → ℕ × String)
      → ((db : Db) → P db.tables → Q (m db).1.tables)
      → Leads P Q (ask m answer)
  Leads-ask m answer h = record { at = λ s p. subst Q (sym (ask_tables m answer s)) (h s.db p) }

-- What the steps before a result did.
module _ {ℓ} {A : Type ℓ} where
  pub bind_done {κ} :
      {B : Type κ} (x : Reply A × Server) (f : A → Serve B) {b : B} {s' : Server}
      → continue x f ≡ (done b, s')
      → (a : A) × (s1 : Server) × (x ≡ (done a, s1)) × (f a s1 ≡ (done b, s'))
  unfolding continue
  bind_done (done a, s1) f h = (a, s1, refl, h)
  bind_done (refused code message, s1) f h = cc

  pub pure-done : {a b : A} {s s' : Server} → pure a s ≡ (done b, s') → (a ≡ b) × (s ≡ s')
  pure-done h = (cc, cc)

  pub or_refuse-done :
      (o : Option A) (code : ℕ) (message : String) (s : Server) {a : A} {s' : Server}
      → or_refuse o code message s ≡ (done a, s')
      → (o ≡ some a) × (s ≡ s')
  unfolding or_refuse
  or_refuse-done none code message s h = cc
  or_refuse-done (some a) code message s h = (cc, cc)

  asked_done :
      (answer : Error → ℕ × String) (s : Server) (r : Result A × Db) {a : A} {s' : Server}
      → asked answer s r ≡ (done a, s')
      → r ≡ (ok a, s'.db)
  unfolding asked
  asked_done answer s (ok a, db) h = ground arith
  asked_done answer s (err e, db) h = absurd (ground arith)

  pub ask_done :
      (m : M A) (answer : Error → ℕ × String) (s : Server) {a : A} {s' : Server}
      → ask m answer s ≡ (done a, s')
      → m s.db ≡ (ok a, s'.db)
  unfolding ask
  ask_done m answer s h = asked_done answer s (m s.db) h

pub refuse_if-done :
    (b : Bool) (code : ℕ) (message : String) (s : Server) {s' : Server}
    → refuse_if b code message s ≡ (done tt, s')
    → (b ≡ false) × (s ≡ s')
unfolding refuse_if
refuse_if-done true code message s h = cc
refuse_if-done false code message s h = (refl, cc)

pub refuse_invalid-done :
    (o : Option String) (s : Server) {s' : Server}
    → refuse_invalid o s ≡ (done tt, s')
    → (o ≡ none) × (s ≡ s')
unfolding refuse_invalid
refuse_invalid-done none s h = (refl, cc)
refuse_invalid-done (some message) s h = cc

-- The rest of the handler may use that a check let the request pass.
pub Keeps-checked {ℓ κ} :
    {B : Type ℓ} {P : Tables → Type κ} (b : Bool) (code : ℕ) (message : String)
    (f : Unit {0} → Serve B)
    → (b ≡ false → (u : Unit {0}) → Keeps P (f u))
    → Keeps P (refuse_if b code message >>= f)
Keeps-checked b code message f kf =
    Keeps-bind_known (refuse_if b code message) f (λ _. b ≡ false)
      (λ s a s1 e. (refuse_if-done b code message s e).0) (Keeps-refuse_if b code message)
      (λ u e. kf e u)

pub ruleset keeps_rules = (
  Keeps-pure, Keeps-refuse, Keeps-or_refuse, Keeps-refuse_if, Keeps-refuse_invalid, Keeps-if,
  Keeps-when, Keeps-deliver_frame, Keeps-invalidate, Keeps-time_now, Keeps-new_string, Keeps-emit,
  Keeps-ask, Keeps-attempt, Keeps-bind, Reads-Saves,
)

pub ruleset leads_rules = (Leads-later, Leads-then, Leads-ask)
