-- ===== src/Api/Removal.antt =====
-- internal/api/groups.go: what `RemoveGroupMember` has checked and done when it succeeds.
use vibe_net_backend.Base.{
  ℕ, ◌<◌, String, Bool, true, false, Option, some, ◌≡◌, ◌≢◌, refl, sym, subst, ap, ◌∙◌, ◌==◌,
  ==_iff, ℕ_eq, String_eq, count_p, count_p_mono, ◌&&◌, head?, inl, inr, arith,
}
use vibe_net_backend.Models.{GroupMember, group_role_owner, group_role_admin}
use vibe_net_backend.Db.Store.{Tables, ok}
use vibe_net_backend.Db.Reading.{reading}
use vibe_net_backend.Db.Groups.{is_member_row, of_group, leave_group}
use vibe_net_backend.Db.Groups.Succession.{Departed, leave_group-Departed}
use vibe_net_backend.Db.Groups.Expelling.{Expelled, role_row, leave_group-Expelled}
use vibe_net_backend.Api.{Env, Server, Serve, Reply, done, when}
use vibe_net_backend.Api.Keeping.{
  Keeps, bind_done, or_refuse-done, ask_done, refuse_if-done, keeps_rules,
}
use vibe_net_backend.Api.Guards.{
  HasRole, IsAdmin, require_group_admin-done, get_group_member_role_ok,
}
use vibe_net_backend.Api.Sound.{notify_group_updated-Keeps, check_removal-Keeps}
use vibe_net_backend.Api.Groups.{GroupDto}
use vibe_net_backend.Api.Members.{remove_group_member, show_removal, check_removal}

module _ {ℓ} {A : Type ℓ} where
  -- A handler that keeps the tables, and then returns, returns with the same tables.
  kept :
      (m : Serve A) (s : Server) {a : A} {s' : Server}
      → Keeps (λ t. t ≡ s.db.tables) m
      → m s ≡ (done a, s')
      → s'.db.tables ≡ s.db.tables
  kept m s k h = subst (λ (x : Reply A × Server). x.1.db.tables ≡ s.db.tables) h (k.at s refl)

HasRole-member :
    (g u : ℕ) (role : String) (t : Tables)
    → HasRole g u role t
    → 0 < count_p (is_member_row g u) t.group_members
HasRole-member g u role t h = omega (
  arith,
  h,
  count_p_mono (λ r. is_member_row g u r && r.role == role) (is_member_row g u) t.group_members
      (λ r y. ground arith),
)

when-done :
    (b : Bool) (m : Serve (Unit {0})) (s : Server) {s' : Server}
    → b ≡ true
    → when b m s ≡ (done tt, s')
    → m s ≡ (done tt, s')
unfolding when
when-done true m s e h = h
when-done false m s e h = absurd (ground arith)

not_owner_lem : (role : String) → role ≡ group_role_owner → (role == group_role_owner) ≡ false → ⊥
not_owner_lem role e n = ground (arith, ==_iff role group_role_owner)

module _ (env : Env) (caller : Option ℕ) (id user_id : String) where
  -- Somebody with a lower standing was removed by an owner or an admin, and nobody else left.
  pub record Removed (t t' : Tables) : Type 0 where
    pub me : ℕ
    pub g : ℕ
    pub target : ℕ
    pub role : String
    pub is_caller : caller ≡ some me
    pub named : env.parse_uuid id ≡ some g
    pub aimed : env.parse_uuid user_id ≡ some target
    pub another : target ≢ me
    pub admin : IsAdmin g me t
    pub held : HasRole g target role t
    pub not_owner : role ≢ group_role_owner
    pub by_owner : role ≡ group_role_admin → HasRole g me group_role_owner t
    pub departed : Departed env.sql g target t t' false
    pub expelled : Expelled env.sql g target t t'

  check_removal-done :
      (g me : ℕ) (role : String) (s : Server) {s' : Server}
      → check_removal env g me role s ≡ (done tt, s')
      → role ≡ group_role_admin
      → HasRole g me group_role_owner s.db.tables
  unfolding check_removal
  check_removal-done g me role s h e =
      let on : role == group_role_admin ≡ true = (==_iff role group_role_admin).1 e in
      let asked = when-done _ _ s on h in
      let (caller_role, s1, e1, h1) = bind_done _ _ asked in
      let (passed, same) = refuse_if-done _ _ _ s1 h1 in
      let (has, still) = get_group_member_role_ok env.sql g me s.db (ask_done _ _ s e1) in
      subst (λ r. HasRole g me r s.db.tables)
        ((==_iff caller_role group_role_owner).0 (ground arith)) has

  show_removal-Keeps :
      (g me target : ℕ) {P : Tables → Type 0} → Keeps P (show_removal env g me target)
  show_removal-Keeps g me target =
      search (keeps_rules, reading, notify_group_updated-Keeps {0} env) depth 40

  member_of :
      (g u : ℕ) (t : Tables) → IsAdmin g u t → 0 < count_p (is_member_row g u) t.group_members
  member_of g u t (inl h) = HasRole-member g u group_role_owner t h
  member_of g u t (inr h) = HasRole-member g u group_role_admin t h

  -- Whoever removes a member stays, so the group does.
  not_deleted :
      (me g target : ℕ) (t t' : Tables) (deleted : Bool)
      → target ≢ me
      → IsAdmin g me t
      → Departed env.sql g target t t' deleted
      → deleted ≡ false
  not_deleted me g target t t' false another admin gone = refl
  not_deleted me g target t t' true another admin gone = absurd (
      omega (
        arith,
        member_of g me t admin,
        gone.others me (λ e. another (sym e)),
        gone.emptied.0 refl,
        count_p_mono (is_member_row g me) (of_group g) t'.group_members (λ r y. ground arith),
      ))

  removed_lem :
      (me g target : ℕ) (role : String) (t t' : Tables) (deleted : Bool)
      → caller ≡ some me
      → env.parse_uuid id ≡ some g
      → env.parse_uuid user_id ≡ some target
      → (target == me) ≡ false
      → IsAdmin g me t
      → HasRole g target role t
      → (role == group_role_owner) ≡ false
      → (role ≡ group_role_admin → HasRole g me group_role_owner t)
      → Departed env.sql g target t t' deleted
      → (deleted ≡ false → Expelled env.sql g target t t')
      → Removed t t'
  removed_lem me g target role t t' deleted is_caller named aimed other admin held lower by_owner
        gone expels =
      record {
        me = me;
        g = g;
        target = target;
        role = role;
        is_caller = is_caller;
        named = named;
        aimed = aimed;
        another = another;
        admin = admin;
        held = held;
        not_owner = λ e. differs ((==_iff role group_role_owner).1 e) lower;
        by_owner = by_owner;
        departed = subst (Departed env.sql g target t t') kept_on gone;
        expelled = expels kept_on;
      }
    where
      differs : {b : Bool} → b ≡ true → b ≡ false → ⊥
      differs e h = cc

      another : target ≢ me
      another e = differs ((==_iff target me).1 e) other

      kept_on : deleted ≡ false
      kept_on = not_deleted me g target t t' deleted another admin gone

  -- When `RemoveGroupMember` succeeds, the caller is an owner or an admin of the group, the one
  -- who is removed is another user with a role there that is not the owner's, and if that role is
  -- an admin's the caller is an owner; afterwards that user is out and has no invitation to the
  -- group, every other row of members and of invitations is there as it was, and so are the
  -- groups.
  pub remove_group_member-Removed :
      (s : Server) {dto : GroupDto} {s' : Server}
      → remove_group_member env caller id user_id s ≡ (done dto, s')
      → Removed s.db.tables s'.db.tables
  unfolding remove_group_member
  remove_group_member-Removed s {dto} {s'} h =
      let (me, s1, e1, h1) = bind_done _ _ h in
      let (g, s2, e2, h2) = bind_done _ _ h1 in
      let (target, s3, e3, h3) = bind_done _ _ h2 in
      let (_, s4, e4, h4) = bind_done _ _ h3 in
      let (role, s5, e5, h5) = bind_done _ _ h4 in
      let (_, s6, e6, h6) = bind_done _ _ h5 in
      let (_, s7, e7, h7) = bind_done _ _ h6 in
      let (deleted, s8, e8, h8) = bind_done _ _ h7 in
      let (is_caller, same1) = or_refuse-done _ _ _ s e1 in
      let passed = require_group_admin-done env id me s1 e2 in
      let (aimed, same3) = or_refuse-done _ _ _ s2 e3 in
      let (other, same4) = refuse_if-done _ _ _ s3 e4 in
      let (held, still) = get_group_member_role_ok env.sql g target s4.db (ask_done _ _ s4 e5) in
      let (lower, same6) = refuse_if-done _ _ _ s5 e6 in
      let t4 : s4.db.tables ≡ s.db.tables =
        ap (λ (x : Server). x.db.tables) (sym same4 ∙ sym same3)
        ∙ passed.same
        ∙ ap (λ (x : Server). x.db.tables) (sym same1) in
      let t6 : s6.db.tables ≡ s.db.tables =
        ap (λ (x : Server). x.db.tables) (sym same6) ∙ still ∙ t4 in
      let t7 : s7.db.tables ≡ s6.db.tables = kept _ s6 (check_removal-Keeps env g me role) e7 in
      let gone = leave_group-Departed env.sql g target s7.db (ask_done _ _ s7 e8) in
      let (row, found, of_row) = role_row env.sql g target s4.db (ask_done _ _ s4 e5) in
      let still_there : s4.db.tables ≡ s7.db.tables = t4 ∙ sym (t7 ∙ t6) in
      let last : s'.db.tables ≡ s8.db.tables =
        kept (show_removal env g me target) s8 (show_removal-Keeps g me target) h8 in
      removed_lem me g target role s.db.tables s'.db.tables deleted is_caller passed.named aimed
        other (subst (λ (x : Server). IsAdmin g me x.db.tables) (sym same1) passed.admin)
        (subst (HasRole g target role) t4 held) lower
        (λ e. subst (HasRole g me group_role_owner) t6 (check_removal-done g me role s6 e7 e))
        (subst (λ t. Departed env.sql g target t s'.db.tables deleted) (t7 ∙ t6)
          (subst (λ t. Departed env.sql g target s7.db.tables t deleted) (sym last) gone))
        (λ e.
          subst (λ t. Expelled env.sql g target t s'.db.tables) (t7 ∙ t6)
            (subst (Expelled env.sql g target s7.db.tables) (sym last) (
              leave_group-Expelled env.sql g target s7.db
                (subst
                  (λ (t : Tables).
                    head? (env.sql.select GroupMember (is_member_row g target) t.group_members)
                    ≡ some row)
                  still_there found)
                (λ owns. not_owner_lem role (sym of_row ∙ owns) lower)
                (subst (λ b. leave_group env.sql g target s7.db ≡ (ok b, s8.db)) e
                  (ask_done _ _ s7 e8)))))
