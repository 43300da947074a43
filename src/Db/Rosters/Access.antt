-- ===== src/Db/Rosters/Access.antt =====
-- internal/db/groups.go: a group is shown to its members only, with its own roster.
use vibe_net_backend.Base.{ℕ, ◌<◌, true, ◌&&◌, List, [], ◌∷◌, ◌≡◌, ◌==◌, ℕ_eq, String_eq, count_p}
use vibe_net_backend.Models.{GroupMember}
use vibe_net_backend.Db.Sql.{Sql}
use vibe_net_backend.Db.Store.{Db}
use vibe_net_backend.Db.Groups.{is_member_row, is_group}
use vibe_net_backend.Db.Rosters.{GroupMemberInfo, GroupWithMembers}

-- Every entry of a roster is a member of the group, with that role.
abbrev pub AllMembers : ℕ → List GroupMember → List GroupMemberInfo → Type 0
AllMembers g rows [] = Unit
AllMembers g rows (i ∷ roster) =
    (0 < count_p (λ r. is_member_row g i.user_id r && r.role == i.role) rows)
    × AllMembers g rows roster

module _ (sql : Sql) (g u : ℕ) where
  -- The group that was asked for, the membership of the user who asked, as the tables have them,
  -- and members of that group. Nothing is changed.
  pub record IsShown (db db' : Db) (shown : GroupWithMembers) : Type 0 where
    pub member : 0 < count_p (is_member_row g u) db.group_members
    pub own : is_member_row g u shown.membership ≡ true
    pub own_row :
        0
        < count_p
            (λ r.
              is_member_row g u r
              && (r.role == shown.membership.role
                  && (r.wrapped_key == shown.membership.wrapped_key
                      && r.key_nonce == shown.membership.key_nonce)))
            db.group_members
    pub same : is_group g shown.group ≡ true
    pub group_row : 0 < count_p (λ r. is_group g r && r.name == shown.group.name) db.groups
    pub roster : AllMembers g db.group_members shown.members
    pub unchanged : db'.tables ≡ db.tables
