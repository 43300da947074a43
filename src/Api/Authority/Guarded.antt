-- ===== src/Api/Authority/Guarded.antt =====
-- internal/api/groups.go: behind a guard, and in the calls that guard themselves, a change of the
-- groups is somebody's who may make it.
use vibe_net_backend.Base.{
  ℕ, zero, suc, ◌<◌, String, Bool, true, ◌&&◌, count_p_mono, some, ◌≡◌, ◌⊎◌, refl, sym, subst, ap,
  ◌∙◌, count_p, count_p-none, inl, inr, arith,
}
use vibe_net_backend.Models.{GroupInvite, invite_status_declined}
use vibe_net_backend.Db.Sql.{Sql}
use vibe_net_backend.Db.Store.{Tables, Db, M, Error, Result, ok, err, update}
use vibe_net_backend.Db.Store.Reads.{Saves, Saves-statement, Saves-bind, saves_rules}
use vibe_net_backend.Db.Store.Runs.{transaction_err}
use vibe_net_backend.Db.Reading.{is_group_member_ok}
use vibe_net_backend.Db.Groups.{leave_group, is_member_row, is_group_member}
use vibe_net_backend.Db.Groups.Governed.{count_p-head-select}
use vibe_net_backend.Db.Groups.Leaving.{leave_group_ok}
use vibe_net_backend.Db.Invites.{accept_invite, decline_invite, is_pending_invite}
use vibe_net_backend.Db.Invites.Accepting.{accept_invite_ok}
use vibe_net_backend.Api.{Env, Server, Serve, done, ◌>>=◌}
use vibe_net_backend.Api.Keeping.{
  Keeps, bind_keeps, bind_done, or_refuse-done, ask_done, refuse_if-done, pure-done,
}
use vibe_net_backend.Api.Guards.{IsAdmin, require_group_admin-done, require_group_admin-Keeps}
use vibe_net_backend.Api.Groups.{require_group_member, require_group_admin}
use vibe_net_backend.Api.Sound.{require_group_member-Keeps}
use vibe_net_backend.Api.Authority.{
  Alike, Alike-trans, Ruled, IsMember, IsInvited, IsMember-before, IsInvited-before, IsAdmin-before,
}

module _ (env : Env) (id : String) (me : ℕ) where
  require_group_member-done :
      (s : Server) {g : ℕ} {s' : Server}
      → require_group_member env id me s ≡ (done g, s')
      → (env.parse_uuid id ≡ some g) × IsMember g me s.db.tables
  unfolding require_group_member
  require_group_member-done s {g} {s'} h =
      let (g1, s1, e1, h1) = bind_done _ _ h in
      let (named, same1) = or_refuse-done _ _ _ s e1 in
      let (b, s2, e2, h2) = bind_done _ _ h1 in
      let (u, s3, e3, h3) = bind_done _ _ h2 in
      let (passed, same3) = refuse_if-done _ _ _ s2 e3 in
      let (given, last) = pure-done h3 in
      let yes : b ≡ true = ground arith in
      let found : is_group_member env.sql g1 me s1.db ≡ (ok true, s2.db) =
        subst (λ x. is_group_member env.sql g1 me s1.db ≡ (ok x, s2.db)) yes (ask_done _ _ s1 e2) in
      let member = is_group_member_ok env.sql g1 me s1.db found in
      (
        named ∙ ap some given,
        subst (λ x. IsMember x me s.db.tables) given
            (subst (λ (x : Server). IsMember g1 me x.db.tables) (sym same1) member),
      )

  module _ {A : Type 0} (t0 : Tables) (Q : Type 0) (f : ℕ → Serve A) where
    pub members_only :
        ((g : ℕ) → env.parse_uuid id ≡ some g → IsMember g me t0 → Q)
        → Keeps (Ruled t0 Q) (require_group_member env id me >>= f)
    members_only entitled = record {
      at = λ s p.
          bind_keeps (Ruled t0 Q) (require_group_member env id me) f s
            ((require_group_member-Keeps env {P = Ruled t0 Q} id me).at s p)
            (λ g s1 e p1. inr (elim p [
              | inl same ↦
                  let (named, member) = require_group_member-done s e in
                  entitled g named (IsMember-before same g me member)
              | inr q ↦ q
            ]));
    }

    pub admins_only :
        ((g : ℕ) → env.parse_uuid id ≡ some g → IsAdmin g me t0 → Q)
        → Keeps (Ruled t0 Q) (require_group_admin env id me >>= f)
    admins_only entitled = record {
      at = λ s p.
          bind_keeps (Ruled t0 Q) (require_group_admin env id me) f s
            ((require_group_admin-Keeps env id me {P = Ruled t0 Q}).at s p)
            (λ g s1 e p1. inr (elim p [
              | inl same ↦
                  let passed = require_group_admin-done env id me s e in
                  entitled g passed.named (IsAdmin-before same g me passed.admin)
              | inr q ↦ q
            ]));
    }

-- A call that changes the groups when it succeeds, and that succeeds for the entitled.
module _ {A : Type 0} (t0 : Tables) (Q : Type 0) (m : M A) where
  earned :
      (entitled : (db : Db) (a : A) (db' : Db) → m db ≡ (ok a, db') → Alike t0 db.tables → Q)
      (refusal : (db : Db) (e : Error) (db' : Db) → m db ≡ (err e, db') → db'.tables ≡ db.tables)
      (db : Db) (r : Result A × Db)
      → m db ≡ r
      → Ruled t0 Q db.tables
      → Ruled t0 Q r.1.tables
  earned entitled refusal db (ok a, db') e (inl same) = inr (entitled db a db' e same)
  earned entitled refusal db (ok a, db') e (inr q) = inr q
  earned entitled refusal db (err x, db') e p = subst (Ruled t0 Q) (sym (refusal db x db' e)) p

zero-or-more : (n : ℕ) → (n ≡ 0) ⊎ (0 < n)
zero-or-more zero = inl refl
zero-or-more (suc n) = inr (ground arith)

module _ (sql : Sql) where
  leave_group-err :
      (g u : ℕ) (db : Db) {e : Error} {db' : Db}
      → leave_group sql g u db ≡ (err e, db')
      → db'.tables ≡ db.tables
  unfolding leave_group
  leave_group-err g u db h = transaction_err sql _ db h

  accept_invite-err :
      (i u now : ℕ) (db : Db) {e : Error} {db' : Db}
      → accept_invite sql i u now db ≡ (err e, db')
      → db'.tables ≡ db.tables
  unfolding accept_invite
  accept_invite-err i u now db h = transaction_err sql _ db h

  leave_group-IsMember :
      (g u : ℕ) (db : Db) {deleted : Bool} {db' : Db}
      → leave_group sql g u db ≡ (ok deleted, db')
      → IsMember g u db.tables
  leave_group-IsMember g u db h =
      let l = leave_group_ok sql g u db h in
      omega (
        arith,
        count_p-head-select sql (is_member_row g u) db.group_members (λ _. true) l.found refl,
        count_p_mono (λ r. is_member_row g u r && true) (is_member_row g u) db.group_members
            (λ r y. ground arith),
      )

module _ (sql : Sql) (t0 : Tables) (Q : Type 0) where
  pub leave_group-Ruled :
      (g u : ℕ) → (IsMember g u t0 → Q) → Saves (Ruled t0 Q) (leave_group sql g u)
  leave_group-Ruled g u entitled = record {
    at = λ db p.
        earned t0 Q (leave_group sql g u)
          (λ db a db' e same.
            entitled (IsMember-before same g u (leave_group-IsMember sql g u db e)))
          (λ db x db' e. leave_group-err sql g u db e) db _ refl p;
  }

  pub accept_invite-Ruled :
      (i u now : ℕ) → (IsInvited i u t0 → Q) → Saves (Ruled t0 Q) (accept_invite sql i u now)
  accept_invite-Ruled i u now entitled = record {
    at = λ db p.
        earned t0 Q (accept_invite sql i u now)
          (λ db a db' e same.
            entitled (IsInvited-before same i u (accept_invite_ok sql i u now db e).pending))
          (λ db x db' e. accept_invite-err sql i u now db e) db _ refl p;
  }

  -- An update of no row leaves the table as it was.
  declined_lem :
      (i u : ℕ) (f : GroupInvite → GroupInvite) (t t' : Tables)
      → (IsInvited i u t0 → Q)
      → record t {
        group_invites = sql.update GroupInvite (is_pending_invite i u) f t.group_invites;
      }
        ≡ t'
      → Ruled t0 Q t
      → Ruled t0 Q t'
  declined_lem i u f t t' entitled e (inr q) = inr q
  declined_lem i u f t t' entitled e (inl same) =
      elim (zero-or-more (count_p (is_pending_invite i u) t.group_invites)) [
        | inl nobody ↦ inl (
            subst (Alike t0) e (
              Alike-trans same (record {
                groups = λ q. refl;
                members = λ q. refl;
                invites = λ q.
                    sql.count_p-update GroupInvite (is_pending_invite i u) f q t.group_invites
                    ∙ count_p-none (is_pending_invite i u) q f t.group_invites nobody;
              })))
        | inr invited ↦ inr (entitled (IsInvited-before same i u invited))
      ]

  pub decline_invite-Ruled :
      (i u : ℕ) → (IsInvited i u t0 → Q) → Saves (Ruled t0 Q) (decline_invite sql i u)
  unfolding decline_invite update
  decline_invite-Ruled i u entitled =
      Saves-bind _ _
        (Saves-statement sql _ (λ n t a t' e p.
          declined_lem i u (λ (r : GroupInvite). record r { status = invite_status_declined }) t t'
            entitled (cc e) p))
        (λ n. search saves_rules)
