-- ===== src/Db/Lifetime.antt =====
-- internal/db/groups.go: the states that calls of the methods on groups lead to, one after another.
use vibe_net_backend.Base.{
  ℕ, ◌<◌, String, false, List, [], ◌≡◌, ◌≢◌, ◌==◌, String_eq, count_p, arith,
}
use vibe_net_backend.Models.{GroupMember, GroupInvite, group_role_owner}
use vibe_net_backend.Db.Sql.{Sql}
use vibe_net_backend.Db.Store.{Db}
use vibe_net_backend.Db.Groups.{
  of_group, create_group_with_members, update_group_name, update_group_avatar, update_member_role,
  leave_group,
}
use vibe_net_backend.Db.Groups.Sound.{IsSound, leave_group-IsSound}
use vibe_net_backend.Db.Groups.Changes.{
  update_group_name-IsSound, update_group_avatar-IsSound, update_member_role-IsSound,
}
use vibe_net_backend.Db.Groups.Founding.{create_group_with_members-IsSound}
use vibe_net_backend.Db.Invites.{create_invite, accept_invite, decline_invite}
use vibe_net_backend.Db.Invites.Sound.{accept_invite-IsSound, decline_invite-IsSound}
use vibe_net_backend.Db.Invites.Opening.{create_invite-IsSound}

-- A call of a method, with what its callers see to: a new group has one owner, a role that is given
-- to a member is not the owner's, and an invitation is to a group that has a member.
pub data Call (sql : Sql) : Db → Db → Type 0 where
  creates :
      (db : Db) (name : String) (created_by : ℕ) (members : List GroupMember) (now : ℕ)
      → count_p (λ m. m.role == group_role_owner) members ≡ 1
      → Call sql db (create_group_with_members sql name created_by members now db).1
  renames : (db : Db) (g : ℕ) (name : String) → Call sql db (update_group_name sql g name db).1
  pictures : (db : Db) (g : ℕ) (url : String) → Call sql db (update_group_avatar sql g url db).1
  appoints :
      (db : Db) (g u : ℕ) (role : String)
      → role ≢ group_role_owner
      → Call sql db (update_member_role sql g u role db).1
  leaves : (db : Db) (g u : ℕ) → Call sql db (leave_group sql g u db).1
  invites :
      (db : Db) (invite : GroupInvite) (now : ℕ)
      → 0 < count_p (of_group invite.group_id) db.group_members
      → Call sql db (create_invite sql invite now db).1
  accepts : (db : Db) (i u now : ℕ) → Call sql db (accept_invite sql i u now db).1
  declines : (db : Db) (i u : ℕ) → Call sql db (decline_invite sql i u db).1

abbrev pub empty_db : Db
empty_db = record {
  tables = record {
    users = [];
    groups = [];
    group_members = [];
    group_invites = [];
    dm_participants = [];
    messages = [];
  };
  sent = 0;
  in_transaction = false;
  failed = false;
}

pub data Reach (sql : Sql) : Db → Type 0 where
  starts : Reach sql empty_db
  later : {db db' : Db} → Reach sql db → Call sql db db' → Reach sql db'

Call-IsSound :
    (sql : Sql) (any : ℕ) {db db' : Db}
    → Call sql db db'
    → IsSound any db.tables
    → IsSound any db'.tables
Call-IsSound sql any (creates db name created_by members now one) v =
    create_group_with_members-IsSound sql name created_by members now db any one v
Call-IsSound sql any (renames db g name) v = update_group_name-IsSound sql g db any v name
Call-IsSound sql any (pictures db g url) v = update_group_avatar-IsSound sql g db any v url
Call-IsSound sql any (appoints db g u role plain) v =
    update_member_role-IsSound sql g db any v u role plain
Call-IsSound sql any (leaves db g u) v = leave_group-IsSound sql g u db any v
Call-IsSound sql any (invites db invite now inhabited) v =
    create_invite-IsSound sql invite now db any inhabited v
Call-IsSound sql any (accepts db i u now) v = accept_invite-IsSound sql i u now db any v
Call-IsSound sql any (declines db i u) v = decline_invite-IsSound sql i u db any v

-- In every state that calls of the methods on groups lead to from an empty database, whether they
-- succeed or fail, every group is sound: no user is in it twice, it has at most one owner and one
-- if it has members, only a group with members has invitations, and a group with members has its
-- row. The callers see to it that a new group has one row for an owner, that a role that is given
-- to a member is not the owner's, and that an invitation is to a group with a member. The
-- database is any that meets the laws of `Sql`.
pub Reach-groups-IsSound : (sql : Sql) (g : ℕ) {db : Db} → Reach sql db → IsSound g db.tables
Reach-groups-IsSound sql g starts = record {
  governed = record {
    one_owner = omega arith;
    led = λ h. omega arith;
    distinct = λ u. omega arith;
  };
  invited = λ h. omega arith;
  founded = λ h. omega arith;
}
Reach-groups-IsSound sql g (later r c) = Call-IsSound sql g c (Reach-groups-IsSound sql g r)
