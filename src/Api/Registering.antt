-- ===== src/Api/Registering.antt =====
-- internal/api/handler.go: what `Register` answers when the username is taken.
use vibe_net_backend.Base.{
  ℕ, ◌<◌, String, Bool, true, false, ◌&&◌, Option, none, some, ◌≡◌, ◌≢◌, refl, sym, subst, ap, ◌∙◌,
  ◌==◌, ℕ_eq, String_eq, count_p, trim_space, arith, ltb, Bool-cases, inl, inr,
}
use vibe_net_backend.Models.{User}
use vibe_net_backend.Db.Sql.{Sql}
use vibe_net_backend.Db.Store.{
  Db, M, Error, email_taken, phone_taken, unique_violation, Result, ok, err, bind, relabel, fail,
  statement, settle, refused as rejected, find, count, when, user_table, Tables,
}
use vibe_net_backend.Db.Users.{create_user, check_free, unique_as}
use vibe_net_backend.Db.Users.Unique.{IsUnique, has_name, create_user-IsUnique}
use vibe_net_backend.Api.{
  Env, Server, Reply, done, refused, Serve, continue, or_refuse, refuse_if, refuse_invalid, ask,
  asked,
}
use vibe_net_backend.Api.Keeping.{
  bind_done, or_refuse-done, refuse_if-done, refuse_invalid-done, ask_done, pure-done,
}
use vibe_net_backend.Api.Accounts.{RegisterRequest, UserSummary, register, not_created}

abbrev is_unique : Error → Bool
is_unique unique_violation = true
is_unique _ = false

-- A result that is no unique violation as such.
abbrev IsTold {ℓ} : {A : Type ℓ} → Result A → Type 0
IsTold (ok a) = Unit
IsTold (err e) = is_unique e ≡ false

IsTold-bind {ℓ κ} :
    {A : Type ℓ} {B : Type κ} (r : Result A × Db) (f : A → M B)
    → IsTold r.0
    → ((a : A) (db : Db) → IsTold (f a db).0)
    → IsTold (bind r f).0
unfolding bind
IsTold-bind (ok a, db) f t h = h a db
IsTold-bind (err e, db) f t h = t

told_as : (e : Error) → is_unique (unique_as email_taken e) ≡ false
told_as unique_violation = refl
told_as e = refl

IsTold-relabel {ℓ} : {A : Type ℓ} (r : Result A × Db) → IsTold (relabel (unique_as email_taken) r).0
unfolding relabel
IsTold-relabel (ok a, db) = tt
IsTold-relabel (err e, db) = told_as e

IsTold-when : (b : Bool) (e : Error) (db : Db) → is_unique e ≡ false → IsTold (when b (fail e) db).0
IsTold-when true e db h = h
IsTold-when false e db h = tt

module _ (sql : Sql) where
  IsTold-count : (p : User → Bool) (db : Db) → IsTold (count sql user_table p db).0
  unfolding count find statement settle rejected
  IsTold-count p db =
      IsTold-bind (find sql user_table p db) _
        (elim (Bool-cases (sql.answers db.sent db.failed)) [ inl e ↦ rw e tt | inr e ↦ rw e refl ])
        (λ rows db1. tt)

  IsTold-check_free :
      (o : Option String) (p : String → User → Bool) (e : Error) (db : Db)
      → is_unique e ≡ false
      → IsTold (check_free sql o p e db).0
  unfolding check_free
  IsTold-check_free none p e db h = tt
  IsTold-check_free (some v) p e db h =
      IsTold-bind _ _ (IsTold-count (p v) db) (λ n db1. IsTold-when (ltb 0 n) e db1 h)

  IsTold-create_user :
      (username hash key : String) (email phone : Option String) (now : ℕ) (db : Db)
      → IsTold (create_user sql username hash key email phone now db).0
  unfolding create_user
  IsTold-create_user username hash key email phone now db =
      IsTold-bind _ _ (IsTold-check_free email _ email_taken db refl) (λ _ db1.
        IsTold-bind _ _ (IsTold-check_free phone _ phone_taken db1 refl)
          (λ _ db2. IsTold-relabel _))

-- An answer other than the one that is meant for a taken username.
abbrev IsSpared {ℓ} : {A : Type ℓ} → Reply A → Type 0
IsSpared (done a) = Unit
IsSpared (refused code message) = (code == 409 && message == "username already exists") ≡ false

IsSpared-continue {ℓ κ} :
    {A : Type ℓ} {B : Type κ} (r : Reply A × Server) (f : A → Serve B)
    → IsSpared r.0
    → ((a : A) (s : Server) → IsSpared (f a s).0)
    → IsSpared (continue r f).0
unfolding continue
IsSpared-continue (done a, s) f t h = h a s
IsSpared-continue (refused code message, s) f t h = t

module _ {ℓ} {A : Type ℓ} where
  IsSpared-or_refuse :
      (o : Option A) (code : ℕ) (message : String) (s : Server)
      → (code == 409) ≡ false
      → IsSpared (or_refuse o code message s).0
  unfolding or_refuse
  IsSpared-or_refuse none code message s e = rw e refl
  IsSpared-or_refuse (some a) code message s e = tt

  IsSpared-asked :
      (s : Server) (r : Result A × Db) → IsTold r.0 → IsSpared (asked not_created s r).0
  unfolding asked
  IsSpared-asked s (ok a, db) t = tt
  IsSpared-asked s (err email_taken, db) t = refl
  IsSpared-asked s (err phone_taken, db) t = refl
  IsSpared-asked s (err unique_violation, db) t = absurd (ground arith)
  IsSpared-asked s (err e, db) t = refl

IsSpared-refuse_if :
    (b : Bool) (message : String) (s : Server) → IsSpared (refuse_if b 400 message s).0
unfolding refuse_if
IsSpared-refuse_if true message s = refl
IsSpared-refuse_if false message s = tt

IsSpared-refuse_invalid : (o : Option String) (s : Server) → IsSpared (refuse_invalid o s).0
unfolding refuse_invalid
IsSpared-refuse_invalid none s = tt
IsSpared-refuse_invalid (some message) s = refl

told_otherwise : {A : Type 0} (r : Reply A) → IsSpared r → r ≢ refused 409 "username already exists"
told_otherwise (done a) t h = cc
told_otherwise (refused code message) t h = let bad : true ≡ false = subst IsSpared h t in cc

module _ (env : Env) where
  register-IsSpared :
      (body : Option RegisterRequest) (s : Server) → IsSpared (register env body s).0
  unfolding register ask
  register-IsSpared body s = IsSpared-continue _ _ (IsSpared-or_refuse body _ _ s refl) (λ req s1.
      IsSpared-continue _ _ (IsSpared-refuse_if _ _ s1) (λ _ s2.
        IsSpared-continue _ _ (IsSpared-refuse_if _ _ s2) (λ _ s3.
          IsSpared-continue _ _ (IsSpared-refuse_invalid _ s3) (λ _ s4.
            IsSpared-continue _ _ (IsSpared-refuse_invalid _ s4) (λ _ s5.
              IsSpared-continue _ _ (IsSpared-or_refuse _ _ _ s5 refl) (λ hash s6.
                IsSpared-continue _ _ tt (λ now s7.
                  IsSpared-continue _ _
                    (IsSpared-asked s7 _ (IsTold-create_user env.sql _ _ _ _ _ _ s7.db))
                    (λ user s8.
                      IsSpared-continue _ _ (IsSpared-or_refuse _ _ _ s8 refl)
                        (λ token s9. tt)))))))))

  register_free :
      (req : RegisterRequest) (s : Server) {out : String × UserSummary} {s' : Server}
      → IsUnique s.db.tables
      → register env (some req) s ≡ (done out, s')
      → count_p (has_name (trim_space req.username)) s.db.users ≡ 0
  unfolding register or_refuse
  register_free req s v h =
      let (r, s1, e1, h1) = bind_done _ _ h in
      let (given, same1) = pure-done e1 in
      let (_, s2, e2, h2) = bind_done _ _ h1 in
      let (_, s3, e3, h3) = bind_done _ _ h2 in
      let (_, s4, e4, h4) = bind_done _ _ h3 in
      let (_, s5, e5, h5) = bind_done _ _ h4 in
      let (_, s6, e6, h6) = bind_done _ _ h5 in
      let (_, s7, e7, h7) = bind_done _ _ h6 in
      let (user, s8, e8, h8) = bind_done _ _ h7 in
      let same : s7 ≡ s = sym (
        same1
        ∙ (refuse_if-done _ _ _ s1 e2).1
        ∙ (refuse_if-done _ _ _ s2 e3).1
        ∙ (refuse_invalid-done _ s3 e4).1
        ∙ (refuse_invalid-done _ s4 e5).1
        ∙ (or_refuse-done _ _ _ s5 e6).1
        ∙ (pure-done e7).1) in
      let tables : s7.db.tables ≡ s.db.tables = ap (λ (x : Server). x.db.tables) same in
      let (unique, before, after) =
        create_user-IsUnique env.sql _ _ _ _ _ _ s7.db (subst IsUnique (sym tables) v)
          (ask_done _ _ s7 e8) in
      subst (λ (x : RegisterRequest). count_p (has_name (trim_space x.username)) s.db.users ≡ 0)
        (sym given)
        (subst (λ (t : Tables). count_p (has_name (trim_space r.username)) t.users ≡ 0) tables
          before)

  -- With unique usernames, `Register` does not succeed for a username that an account has, white
  -- space around it aside; and it never answers with status 409 and "username already exists".
  pub register_taken :
      (req : RegisterRequest) (s : Server)
      → IsUnique s.db.tables
      → 0 < count_p (has_name (trim_space req.username)) s.db.users
      → ((out : String × UserSummary) (s' : Server) → register env (some req) s ≢ (done out, s'))
        × ((register env (some req) s).0 ≢ refused 409 "username already exists")
  register_taken req s v taken = (
    λ out s' h. omega (arith, taken, register_free req s v h),
    λ h. told_otherwise _ (register-IsSpared (some req) s) h,
  )
