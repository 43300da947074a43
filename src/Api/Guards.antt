-- ===== src/Api/Guards.antt =====
-- internal/api/groups.go: what the guards of the group endpoints let through.
use vibe_net_backend.Base.{
  ℕ, ◌<◌, String, false, not, ◌&&◌, some, ◌≡◌, ◌⊎◌, sym, subst, ap, ◌∙◌, ◌==◌, ==_iff, ℕ_eq,
  String_eq, count_p, count_p_mono, Bool-cases, inl, inr, arith,
}
use vibe_net_backend.Models.{group_role_owner, group_role_admin}
use vibe_net_backend.Db.Sql.{Sql}
use vibe_net_backend.Db.Store.{Tables, Db, ok, group_member_table}
use vibe_net_backend.Db.Store.Reads.{Reads-Saves}
use vibe_net_backend.Db.Store.Runs.{bind_ok, pure_ok, first_ok}
use vibe_net_backend.Db.Reading.{get_group_member_role-Reads}
use vibe_net_backend.Db.Groups.{is_member_row, of_group, get_group_member_role}
use vibe_net_backend.Db.Groups.Governed.{count_p-head-select}
use vibe_net_backend.Api.{Env, Server, done}
use vibe_net_backend.Api.Keeping.{
  Keeps, Keeps-bind, Keeps-or_refuse, Keeps-ask, Keeps-refuse_if, Keeps-pure, bind_done,
  or_refuse-done, ask_done, refuse_if-done, pure-done,
}
use vibe_net_backend.Api.Groups.{require_group_admin}

-- A row gives the user the role in the group.
abbrev pub HasRole : ℕ → ℕ → String → Tables → Type 0
HasRole g u role t = 0 < count_p (λ r. is_member_row g u r && r.role == role) t.group_members

abbrev pub IsAdmin : ℕ → ℕ → Tables → Type 0
IsAdmin g u t = HasRole g u group_role_owner t ⊎ HasRole g u group_role_admin t

pub HasRole-inhabited :
    (g u : ℕ) (role : String) (t : Tables)
    → HasRole g u role t
    → 0 < count_p (of_group g) t.group_members
HasRole-inhabited g u role t h = omega (
  arith,
  h,
  count_p_mono (λ r. is_member_row g u r && r.role == role) (of_group g) t.group_members
      (λ r y. ground arith),
)

pub IsAdmin-inhabited :
    (g u : ℕ) (t : Tables) → IsAdmin g u t → 0 < count_p (of_group g) t.group_members
IsAdmin-inhabited g u t (inl h) = HasRole-inhabited g u group_role_owner t h
IsAdmin-inhabited g u t (inr h) = HasRole-inhabited g u group_role_admin t h

module _ (sql : Sql) where
  pub get_group_member_role_ok :
      (g u : ℕ) (db : Db) {role : String} {db' : Db}
      → get_group_member_role sql g u db ≡ (ok role, db')
      → HasRole g u role db.tables × (db'.tables ≡ db.tables)
  unfolding get_group_member_role
  get_group_member_role_ok g u db {role} h =
      let (r, db1, e, k) = bind_ok _ _ h in
      let (found, same) = first_ok sql group_member_table db _ e in
      let (given, still) = pure_ok k in
      (
        count_p-head-select sql (is_member_row g u) db.group_members (λ x. x.role == role) found
            ((==_iff r.role role).1 given),
        ap (λ (d : Db). d.tables) (sym still) ∙ same,
      )

-- An owner or an admin passes the guard, and nobody else; the tables stay as they are.
pub record Passes (env : Env) (id : String) (me : ℕ) (s s' : Server) (g : ℕ) : Type 0 where
  pub named : env.parse_uuid id ≡ some g
  pub admin : IsAdmin g me s.db.tables
  pub same : s'.db.tables ≡ s.db.tables

role_cases :
    (g u : ℕ) (role : String) (t : Tables)
    → HasRole g u role t
    → (not (role == group_role_owner) && not (role == group_role_admin)) ≡ false
    → IsAdmin g u t
role_cases g u role t h e = elim (Bool-cases (role == group_role_owner)) [
  | inl y ↦ inl (subst (λ x. HasRole g u x t) ((==_iff role group_role_owner).0 y) h)
  | inr n ↦ inr (subst (λ x. HasRole g u x t) ((==_iff role group_role_admin).0 (ground arith)) h)
]

module _ (env : Env) (id : String) (me : ℕ) where
  pub require_group_admin-done :
      (s : Server) {g : ℕ} {s' : Server}
      → require_group_admin env id me s ≡ (done g, s')
      → Passes env id me s s' g
  unfolding require_group_admin
  require_group_admin-done s {g} {s'} h =
      let (g1, s1, e1, h1) = bind_done _ _ h in
      let (named, same1) = or_refuse-done _ _ _ s e1 in
      let (role, s2, e2, h2) = bind_done _ _ h1 in
      let (has, same2) = get_group_member_role_ok env.sql g1 me s1.db (ask_done _ _ s1 e2) in
      let (u, s3, e3, h3) = bind_done _ _ h2 in
      let (b, same3) = refuse_if-done _ _ _ s2 e3 in
      let (given, last) = pure-done h3 in
      let tables : s'.db.tables ≡ s1.db.tables = cc same2 in
      record {
        named = named ∙ ap some given;
        admin =
            subst (λ x. IsAdmin x me s.db.tables) given
              (role_cases g1 me role s.db.tables
                (subst (λ (x : Server). HasRole g1 me role x.db.tables) (sym same1) has) b);
        same = tables ∙ ap (λ (x : Server). x.db.tables) (sym same1);
      }

  pub require_group_admin-Keeps {κ} :
      {P : Tables → Type κ} → Keeps P (require_group_admin env id me)
  unfolding require_group_admin
  require_group_admin-Keeps = Keeps-bind _ _ (Keeps-or_refuse _ _ _) (λ g.
      Keeps-bind _ _ (Keeps-ask _ _ (Reads-Saves _ (get_group_member_role-Reads env.sql g me)))
        (λ role. Keeps-bind _ _ (Keeps-refuse_if _ _ _) (λ _. Keeps-pure g)))
