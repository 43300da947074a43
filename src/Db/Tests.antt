-- ===== src/Db/Tests.antt =====
-- The statements about groups and invitations at a small database.
use vibe_net_backend.Base.{
  ℕ, String, false, none, [], ◌∷◌, ◌≡◌, ◌≢◌, refl, arith, ==_iff, String_eq, ℕ_eq,
}
use vibe_net_backend.Models.{
  GroupMember, GroupInvite, group_role_owner, group_role_member, group_role_admin,
  invite_status_pending, invite_status_accepted,
}
use vibe_net_backend.Db.Store.{
  Db, ok, transaction, commit, bind, relabel, first, find, statement, settle, first_of_rows, delete,
  find_ordered, update, create,
}
use vibe_net_backend.Db.ListSql.{list_sql}
use vibe_net_backend.Db.Groups.{create_group_with_members, leave_group}
use vibe_net_backend.Db.Groups.Leaving.{Left, leave_group_ok}
use vibe_net_backend.Db.Groups.Sound.{IsSound}
use vibe_net_backend.Db.Lifetime.{
  Reach, starts, later, creates, leaves, empty_db, Reach-groups-IsSound,
}
use vibe_net_backend.Db.Groups.Succession.{
  Departed, leave_group-Departed, Succeeded, leave_group-Succeeded,
}
use vibe_net_backend.Db.Invites.{accept_invite, forgiven}
use vibe_net_backend.Db.Invites.Accepting.{Accepted, accept_invite_ok}

abbrev row : ℕ → String → ℕ → GroupMember
row u role joined = record {
  group_id = 1;
  user_id = u;
  role = role;
  wrapped_key = "key";
  key_nonce = "nonce";
  wrapped_by = 10;
  joined_at = joined;
}

abbrev invite_to : ℕ → GroupInvite
invite_to u = record {
  invite_id = 70;
  group_id = 1;
  from_user = 10;
  to_user = u;
  status = invite_status_pending;
  wrapped_key = "key";
  key_nonce = "nonce";
  created_at = 5;
}

-- The owner 10 and the members 11 and 12, with an invitation of 13.
abbrev demo : Db
demo = record {
  tables = record {
    users = [];
    groups =
        (record { group_id = 1; name = "demo"; created_by = 10; created_at = 1; avatar_url = none })
        ∷ [];
    group_members =
        row 10 group_role_owner 1 ∷ row 12 group_role_member 3 ∷ row 11 group_role_member 2 ∷ [];
    group_invites = invite_to 13 ∷ [];
    dm_participants = [];
    messages = [];
  };
  sent = 0;
  in_transaction = false;
  failed = false;
}

demo-IsSound : IsSound 1 demo.tables
demo-IsSound = record {
  governed = record {
    one_owner = omega arith;
    led = λ h. omega arith;
    distinct = λ u. ground arith;
  };
  invited = λ h. omega arith;
  founded = λ h. omega arith;
}

admin-ne-owner : group_role_admin ≢ group_role_owner
admin-ne-owner e = ground (arith, ==_iff group_role_admin group_role_owner)

abbrev left : Db
left = (leave_group (list_sql 999) 1 10 demo).1

left_ok : leave_group (list_sql 999) 1 10 demo ≡ (ok false, left)
unfolding leave_group transaction commit bind relabel first find statement settle first_of_rows
    delete find_ordered update
left_ok = refl

leave_group_ok_example : Left (list_sql 999) 1 10 demo.tables left.tables false
leave_group_ok_example = leave_group_ok (list_sql 999) 1 10 demo left_ok

abbrev joined : Db
joined = (accept_invite (list_sql 999) 70 13 9 demo).1

abbrev taken : GroupInvite
taken = record (invite_to 13) { status = invite_status_accepted }

joined_ok : accept_invite (list_sql 999) 70 13 9 demo ≡ (ok taken, joined)
unfolding accept_invite transaction commit bind first find statement settle first_of_rows update
    create forgiven
joined_ok = refl

accept_invite_ok_example : Accepted (list_sql 999) 70 13 9 demo.tables joined.tables taken
accept_invite_ok_example = accept_invite_ok (list_sql 999) 70 13 9 demo joined_ok

leave_group-Departed_example : Departed (list_sql 999) 1 10 demo.tables left.tables false
leave_group-Departed_example = leave_group-Departed (list_sql 999) 1 10 demo left_ok

leave_group-Succeeded_example : Succeeded (list_sql 999) 1 10 left.group_members
leave_group-Succeeded_example = leave_group-Succeeded (list_sql 999) 1 10 demo (omega arith) left_ok

fresh-IsSound : IsSound 1000 demo.tables
fresh-IsSound = record {
  governed = record {
    one_owner = omega arith;
    led = λ h. omega arith;
    distinct = λ u. ground arith;
  };
  invited = λ h. omega arith;
  founded = λ h. omega arith;
}

founded_db :
    Reach
      (list_sql 999)
      (leave_group
        (list_sql 999)
        1000
        10
        (create_group_with_members
          (list_sql 999)
          "new"
          10
          (row 10 group_role_owner 0 ∷ row 11 group_role_member 0 ∷ [])
          9
          empty_db).1).1
founded_db =
    later
      (later starts (
        creates empty_db "new" 10 (row 10 group_role_owner 0 ∷ row 11 group_role_member 0 ∷ []) 9
          refl))
      (leaves _ 1000 10)

Reach-groups-IsSound_example :
    IsSound 1000
      (leave_group
        (list_sql 999)
        1000
        10
        (create_group_with_members
          (list_sql 999)
          "new"
          10
          (row 10 group_role_owner 0 ∷ row 11 group_role_member 0 ∷ [])
          9
          empty_db).1).1.tables
Reach-groups-IsSound_example = Reach-groups-IsSound (list_sql 999) 1000 founded_db
