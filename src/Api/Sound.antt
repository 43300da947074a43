-- ===== src/Api/Sound.antt =====
-- internal/api/groups.go: the group handlers keep every group sound, whatever the request is.
use vibe_net_backend.Base.{
  ℕ, ◌<◌, String, true, false, not, ◌&&◌, Option, List, [], ◌∷◌, ◌≡◌, ◌≢◌, sym, subst, ◌==◌, ℕ_eq,
  String_eq, count_p, trim_space,
}
use vibe_net_backend.Models.{GroupInvite, group_role_owner, group_role_admin, group_role_member}
use vibe_net_backend.Db.Store.{Tables, Db}
use vibe_net_backend.Db.Store.Reads.{Saves}
use vibe_net_backend.Db.Reading.{reading}
use vibe_net_backend.Db.Groups.{update_group_name, update_member_role, leave_group, of_group}
use vibe_net_backend.Db.Invites.{accept_invite, decline_invite, create_invite}
use vibe_net_backend.Db.Groups.Sound.{IsSound, leave_group-IsSound}
use vibe_net_backend.Db.Groups.Changes.{update_group_name-IsSound, update_member_role-IsSound}
use vibe_net_backend.Db.Invites.Sound.{accept_invite-IsSound, decline_invite-IsSound}
use vibe_net_backend.Db.Invites.Opening.{create_invite-IsSound}
use vibe_net_backend.Db.Rosters.{GroupMemberInfo}
use vibe_net_backend.Db.Store.{Result, ok, err}
use vibe_net_backend.Api.{Env, Serve, ApiFrame, ◌>>=◌}
use vibe_net_backend.Api.Keeping.{
  Keeps, Keeps-bind, Keeps-deliver_frame, Keeps-when, Keeps-or_refuse, Keeps-checked, Keeps-ask,
  Keeps-refuse_if, keeps_rules, leads_rules, Leads, bind_keeps,
}
use vibe_net_backend.Api.Groups.{
  require_group_member, require_group_admin, deliver_each, notify_members, notify_group_updated,
  show_group, update_group, list_groups,
}
use vibe_net_backend.Api.Members.{
  AddMemberRequest, add_group_member, list_invites, nudge_others, accept_group_invite,
  decline_group_invite, change_member_role, leave, check_removal, remove_group_member,
}
use vibe_net_backend.Api.Guards.{
  IsAdmin-inhabited, require_group_admin-done, require_group_admin-Keeps,
}

module _ {κ} (env : Env) {P : Tables → Type κ} where
  pub require_group_member-Keeps : (id : String) (me : ℕ) → Keeps P (require_group_member env id me)
  unfolding require_group_member
  require_group_member-Keeps id me = search (keeps_rules, reading)

  pub deliver_each-Keeps : (us : List ℕ) (frame : ApiFrame) → Keeps P (deliver_each env us frame)
  unfolding deliver_each
  deliver_each-Keeps [] frame = search keeps_rules
  deliver_each-Keeps (u ∷ us) frame =
      Keeps-bind _ _ (Keeps-deliver_frame env u frame) (λ _. deliver_each-Keeps us frame)

  notify_members-Keeps : (g : ℕ) (r : Result (List ℕ)) → Keeps P (notify_members env g r)
  unfolding notify_members
  notify_members-Keeps g (err e) = search keeps_rules
  notify_members-Keeps g (ok ids) = deliver_each-Keeps ids _

  pub notify_group_updated-Keeps : (g : ℕ) → Keeps P (notify_group_updated env g)
  unfolding notify_group_updated
  notify_group_updated-Keeps g = search (keeps_rules, reading, notify_members-Keeps)

  pub show_group-Keeps : (g me : ℕ) → Keeps P (show_group env g me)
  unfolding show_group
  show_group-Keeps g me = search (keeps_rules, reading, notify_group_updated-Keeps)

  pub nudge_others-Keeps :
      (me g : ℕ) (ms : List GroupMemberInfo) → Keeps P (nudge_others env me g ms)
  unfolding nudge_others
  nudge_others-Keeps me g [] = search keeps_rules
  nudge_others-Keeps me g (m ∷ ms) =
      Keeps-bind _ _ (Keeps-when _ _ (Keeps-deliver_frame env _ _))
        (λ _. nudge_others-Keeps me g ms)

  pub check_removal-Keeps : (g me : ℕ) (role : String) → Keeps P (check_removal env g me role)
  unfolding check_removal
  check_removal-Keeps g me role = search (keeps_rules, reading)

  pub list_groups-Keeps : (caller : Option ℕ) → Keeps P (list_groups env caller)
  unfolding list_groups
  list_groups-Keeps caller = search (keeps_rules, reading)

  pub list_invites-Keeps : (caller : Option ℕ) → Keeps P (list_invites env caller)
  unfolding list_invites
  list_invites-Keeps caller = search (keeps_rules, reading)

module _ (env : Env) (any : ℕ) where
  update_group_name-Saves :
      (g : ℕ) (name : String) → Saves (IsSound any) (update_group_name env.sql g name)
  update_group_name-Saves g name = record {
    at = λ db v. update_group_name-IsSound env.sql g db any v name;
  }

  leave_group-Saves : (g u : ℕ) → Saves (IsSound any) (leave_group env.sql g u)
  leave_group-Saves g u = record { at = λ db v. leave_group-IsSound env.sql g u db any v }

  accept_invite-Saves : (i u now : ℕ) → Saves (IsSound any) (accept_invite env.sql i u now)
  accept_invite-Saves i u now = record {
    at = λ db v. accept_invite-IsSound env.sql i u now db any v;
  }

  decline_invite-Saves : (i u : ℕ) → Saves (IsSound any) (decline_invite env.sql i u)
  decline_invite-Saves i u = record { at = λ db v. decline_invite-IsSound env.sql i u db any v }

  ruleset handler_rules = (
    keeps_rules, reading, require_group_member-Keeps, require_group_admin-Keeps,
    notify_group_updated-Keeps, show_group-Keeps, check_removal-Keeps, update_group_name-Saves,
    leave_group-Saves, accept_invite-Saves, decline_invite-Saves, nudge_others-Keeps,
  )

  pub update_group-IsSound :
      (caller : Option ℕ) (id : String) (body : Option String)
      → Keeps (IsSound any) (update_group env caller id body)
  unfolding update_group
  update_group-IsSound caller id body = search handler_rules depth 40

  pub leave-IsSound : (caller : Option ℕ) (id : String) → Keeps (IsSound any) (leave env caller id)
  unfolding leave
  leave-IsSound caller id = search handler_rules depth 40

  pub remove_group_member-IsSound :
      (caller : Option ℕ) (id user_id : String)
      → Keeps (IsSound any) (remove_group_member env caller id user_id)
  unfolding remove_group_member
  remove_group_member-IsSound caller id user_id = search handler_rules depth 40

  pub accept_group_invite-IsSound :
      (caller : Option ℕ) (body : Option String)
      → Keeps (IsSound any) (accept_group_invite env caller body)
  unfolding accept_group_invite
  accept_group_invite-IsSound caller body = search handler_rules depth 40

  pub decline_group_invite-IsSound :
      (caller : Option ℕ) (body : Option String)
      → Keeps (IsSound any) (decline_group_invite env caller body)
  unfolding decline_group_invite
  decline_group_invite-IsSound caller body = search handler_rules depth 40

  abbrev Peopled : ℕ → Tables → Type 0
  Peopled g t = IsSound any t × (0 < count_p (of_group g) t.group_members)

  Peopled-IsSound : (g : ℕ) (t : Tables) → Peopled g t → IsSound any t
  Peopled-IsSound g t p = p.0

  -- Past the guard of the admins the group is known to have a member.
  admitted-Keeps :
      {B : Type 0} (id : String) (me : ℕ) (f : ℕ → Serve B)
      → ((g : ℕ) → Leads (Peopled g) (IsSound any) (f g))
      → Keeps (IsSound any) (require_group_admin env id me >>= f)
  admitted-Keeps id me f lf = record {
    at = λ s v.
        bind_keeps (IsSound any) (require_group_admin env id me) f s
          ((require_group_admin-Keeps env id me {P = IsSound any}).at s v)
          (λ g s1 e v1.
            let p = require_group_admin-done env id me s e in
            (lf g).at s1 (
              v1,
              subst (λ (t : Tables). 0 < count_p (of_group g) t.group_members) (sym p.same)
                  (IsAdmin-inhabited g me s.db.tables p.admin),
            ));
  }

  create_invite-Leads :
      (invite : GroupInvite) (now : ℕ) (db : Db)
      → Peopled invite.group_id db.tables
      → IsSound any (create_invite env.sql invite now db).1.tables
  create_invite-Leads invite now db (v, inhabited) =
      create_invite-IsSound env.sql invite now db any inhabited v

  pub add_group_member-IsSound :
      (caller : Option ℕ) (id : String) (body : Option AddMemberRequest)
      → Keeps (IsSound any) (add_group_member env caller id body)
  unfolding add_group_member
  add_group_member-IsSound caller id body = Keeps-bind _ _ (Keeps-or_refuse _ _ _) (λ me.
      admitted-Keeps id me _
        (λ g. search (leads_rules, Peopled-IsSound g, create_invite-Leads, handler_rules) depth 40))

  not_owner :
      (role : String)
      → (not (role == group_role_admin) && not (role == group_role_member)) ≡ false
      → role ≢ group_role_owner
  not_owner role given e =
      let bad : true ≡ false =
        subst (λ r. (not (r == group_role_admin) && not (r == group_role_member)) ≡ false) e
          given in
      cc

  appoint-Saves :
      (g u : ℕ) (role : String)
      → (not (role == group_role_admin) && not (role == group_role_member)) ≡ false
      → Saves (IsSound any) (update_member_role env.sql g u role)
  appoint-Saves g u role given = record {
    at = λ db v. update_member_role-IsSound env.sql g db any v u role (not_owner role given);
  }

  pub change_member_role-IsSound :
      (caller : Option ℕ) (id user_id : String) (body : Option String)
      → Keeps (IsSound any) (change_member_role env caller id user_id body)
  unfolding change_member_role
  change_member_role-IsSound caller id user_id body = Keeps-bind _ _ (Keeps-or_refuse _ _ _) (λ me.
      Keeps-bind _ _ (require_group_admin-Keeps env id me) (λ g.
        Keeps-bind _ _ (Keeps-or_refuse _ _ _) (λ target.
          Keeps-bind _ _ (Keeps-or_refuse _ _ _) (λ role. Keeps-checked _ _ _ _ (λ given u.
            Keeps-bind _ _ (search handler_rules) (λ target_role.
              Keeps-bind _ _ (Keeps-refuse_if _ _ _) (λ w.
                Keeps-bind _ _ (Keeps-ask _ _ (appoint-Saves g target (trim_space role) given))
                  (λ w'. search handler_rules depth 40))))))))
