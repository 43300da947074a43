-- ===== src/Api/Authority/Apart.antt =====
-- internal/api/groups.go: the handlers of groups keep what depends neither on the groups, nor on their
-- members, nor on invitations.
use vibe_net_backend.Base.{ℕ, String, Option, List, [], ◌∷◌}
use vibe_net_backend.Models.{Group, GroupMember, GroupInvite}
use vibe_net_backend.Db.Store.{Tables, group_table, group_member_table, group_invite_table}
use vibe_net_backend.Db.Reading.{reading}
use vibe_net_backend.Db.Groups.Sparing.{
  create_group_with_members-Saves, update_group_name-Saves, update_group_avatar-Saves,
  update_member_role-Saves, leave_group-Saves, create_invite-Saves, accept_invite-Saves,
  decline_invite-Saves,
}
use vibe_net_backend.Api.{Env}
use vibe_net_backend.Api.Keeping.{
  Keeps, Keeps-bind, Keeps-pure, Keeps-if, Keeps-or_refuse, Keeps-refuse_if, keeps_rules,
}
use vibe_net_backend.Api.Guards.{require_group_admin-Keeps}
use vibe_net_backend.Api.Sound.{
  require_group_member-Keeps, show_group-Keeps, notify_group_updated-Keeps, nudge_others-Keeps,
  check_removal-Keeps, deliver_each-Keeps,
}
use vibe_net_backend.Api.Sparing.{store_uploaded_avatar-Keeps, or_discard-Keeps}
use vibe_net_backend.Api.Groups
use vibe_net_backend.Api.Members
use vibe_net_backend.Api.Uploads.{AvatarForm, upload_group_avatar}

module _ (env : Env) (P : Tables → Type 0)
    (of_groups : (t : Tables) (rs : List Group) → P t → P (group_table.put rs t))
    (of_members : (t : Tables) (rs : List GroupMember) → P t → P (group_member_table.put rs t))
    (of_invites : (t : Tables) (rs : List GroupInvite)
      → P t
      → P (group_invite_table.put rs t)) where
  ruleset group_rules = (
    keeps_rules, reading, require_group_admin-Keeps, require_group_member-Keeps, show_group-Keeps,
    notify_group_updated-Keeps, nudge_others-Keeps, check_removal-Keeps, deliver_each-Keeps,
    store_uploaded_avatar-Keeps, or_discard-Keeps, create_group_with_members-Saves,
    update_group_name-Saves, update_group_avatar-Saves, update_member_role-Saves, leave_group-Saves,
    create_invite-Saves, accept_invite-Saves, decline_invite-Saves,
  )

  pub update_group-Apart :
      (caller : Option ℕ) (id : String) (body : Option String)
      → Keeps P (Groups.update_group env caller id body)
  unfolding Groups.update_group
  update_group-Apart caller id body = search group_rules depth 40

  pub upload_group_avatar-Apart :
      (caller : Option ℕ) (id : String) (form : AvatarForm)
      → Keeps P (upload_group_avatar env caller id form)
  unfolding upload_group_avatar
  upload_group_avatar-Apart caller id form = search group_rules depth 40

  pub add_group_member-Apart :
      (caller : Option ℕ) (id : String) (body : Option Members.AddMemberRequest)
      → Keeps P (Members.add_group_member env caller id body)
  unfolding Members.add_group_member
  add_group_member-Apart caller id body = search group_rules depth 60

  pub leave-Apart : (caller : Option ℕ) (id : String) → Keeps P (Members.leave env caller id)
  unfolding Members.leave
  leave-Apart caller id = search group_rules depth 40

  pub change_member_role-Apart :
      (caller : Option ℕ) (id user_id : String) (body : Option String)
      → Keeps P (Members.change_member_role env caller id user_id body)
  unfolding Members.change_member_role
  change_member_role-Apart caller id user_id body = search group_rules depth 60

  pub remove_group_member-Apart :
      (caller : Option ℕ) (id user_id : String)
      → Keeps P (Members.remove_group_member env caller id user_id)
  unfolding Members.remove_group_member
  remove_group_member-Apart caller id user_id = search group_rules depth 60

  pub accept_group_invite-Apart :
      (caller : Option ℕ) (body : Option String)
      → Keeps P (Members.accept_group_invite env caller body)
  unfolding Members.accept_group_invite
  accept_group_invite-Apart caller body = search group_rules depth 40

  pub decline_group_invite-Apart :
      (caller : Option ℕ) (body : Option String)
      → Keeps P (Members.decline_group_invite env caller body)
  unfolding Members.decline_group_invite
  decline_group_invite-Apart caller body = search group_rules depth 40

  listed_members-Apart :
      (me : ℕ) (seen : List ℕ) (ms : List Groups.NewMember)
      → Keeps P (Groups.listed_members env me seen ms)
  unfolding Groups.listed_members
  listed_members-Apart me seen [] = Keeps-pure _
  listed_members-Apart me seen (m ∷ ms) = Keeps-bind _ _ (Keeps-or_refuse _ _ _) (λ u.
      Keeps-if _ _ _ (listed_members-Apart me seen ms) (
        Keeps-bind _ _ (Keeps-refuse_if _ _ _)
          (λ _. Keeps-bind _ _ (listed_members-Apart me (u ∷ seen) ms) (λ rest. Keeps-pure _))))

  pub create_group-Apart :
      (caller : Option ℕ) (body : Option Groups.CreateGroupRequest)
      → Keeps P (Groups.create_group env caller body)
  unfolding Groups.create_group
  create_group-Apart caller body = search (group_rules, listed_members-Apart) depth 60
