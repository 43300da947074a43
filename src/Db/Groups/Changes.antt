-- ===== src/Db/Groups/Changes.antt =====
-- internal/db/groups.go: the one-statement updates keep every group sound.
use vibe_net_backend.Base.{
  ℕ, String, some, List, ◌≡◌, refl, ◌≢◌, ◌==◌, ==_iff, ℕ_eq, String_eq, arith, count_p,
}
use vibe_net_backend.Models.{GroupMember, Group, group_role_owner}
use vibe_net_backend.Db.Sql.{Sql}
use vibe_net_backend.Db.Sql.Counts.{count_p-update_same}
use vibe_net_backend.Db.Store.{Db, record_not_found, group_member_table, group_table}
use vibe_net_backend.Db.Store.Runs.{update_keeps, bind_tables, affected_tables}
use vibe_net_backend.Db.Groups.{
  of_group, is_group, is_member_row, is_changeable, update_member_role, update_group_name,
  update_group_avatar,
}
use vibe_net_backend.Db.Groups.Governed.{IsGoverned, is_owner_row}
use vibe_net_backend.Db.Groups.Sound.{IsSound}

IsGoverned-of_counts :
    (g : ℕ) (rows rows' : List GroupMember)
    → count_p (is_owner_row g) rows' ≡ count_p (is_owner_row g) rows
    → count_p (of_group g) rows' ≡ count_p (of_group g) rows
    → ((u : ℕ) → count_p (is_member_row g u) rows' ≡ count_p (is_member_row g u) rows)
    → IsGoverned g rows
    → IsGoverned g rows'
IsGoverned-of_counts g rows rows' owners sized members v = record {
  one_owner = omega (arith, owners, v.one_owner);
  led = λ h. omega (arith, owners, v.led (omega (arith, h, sized)));
  distinct = λ u. omega (arith, members u, v.distinct u);
}

module _ (sql : Sql) (g : ℕ) (db : Db) (any : ℕ) (v : IsSound any db.tables) where
  renamed-IsSound :
      (f : Group → Group)
      → ((r : Group) → (f r).group_id ≡ r.group_id)
      → IsSound any (group_table.put (sql.update Group (is_group g) f db.groups) db.tables)
  renamed-IsSound f stays = record {
    governed = v.governed;
    invited = v.invited;
    founded = λ h. omega (
      arith,
      v.founded h,
      count_p-update_same sql (is_group g) (is_group any) db.groups f
          (λ r. ground (arith, stays r)),
    );
  }

  -- So are a new name and a new photo.
  pub update_group_name-IsSound :
      (name : String) → IsSound any (update_group_name sql g name db).1.tables
  unfolding update_group_name
  update_group_name-IsSound name =
      bind_tables (IsSound any) _ _ (λ n db'. refl)
        (update_keeps sql (IsSound any) group_table (is_group g) (λ r. record r { name = name }) db
          v (renamed-IsSound (λ r. record r { name = name }) (λ r. refl)))

  pub update_group_avatar-IsSound :
      (avatar_url : String) → IsSound any (update_group_avatar sql g avatar_url db).1.tables
  unfolding update_group_avatar
  update_group_avatar-IsSound avatar_url =
      bind_tables (IsSound any) _ _ (λ n db'. affected_tables (n == 0) record_not_found db')
        (update_keeps sql (IsSound any) group_table (is_group g)
          (λ r. record r { avatar_url = some avatar_url }) db v
          (renamed-IsSound (λ r. record r { avatar_url = some avatar_url }) (λ r. refl)))

  -- `UpdateMemberRole` with a role other than the owner's keeps every group sound, whether it
  -- succeeds or fails.
  pub update_member_role-IsSound :
      (u : ℕ) (role : String)
      → role ≢ group_role_owner
      → IsSound any (update_member_role sql g u role db).1.tables
  unfolding update_member_role
  update_member_role-IsSound u role plain =
      bind_tables (IsSound any) _ _ (λ n db'. affected_tables (n == 0) record_not_found db')
        (update_keeps sql (IsSound any) group_member_table (is_changeable g u) set db v changed)
    where
      set : GroupMember → GroupMember
      set r = record r { role = role }

      rows : List GroupMember
      rows = sql.update GroupMember (is_changeable g u) set db.group_members

      sized : count_p (of_group any) rows ≡ count_p (of_group any) db.group_members
      sized =
          count_p-update_same sql (is_changeable g u) (of_group any) db.group_members set
            (λ r. ground arith)

      changed : IsSound any (group_member_table.put rows db.tables)
      changed = record {
        governed =
            IsGoverned-of_counts any db.group_members rows
              (count_p-update_same sql (is_changeable g u) (is_owner_row any) db.group_members set
                (λ r. ground (arith, ==_iff role group_role_owner)))
              sized
              (λ w.
                count_p-update_same sql (is_changeable g u) (is_member_row any w) db.group_members
                  set (λ r. ground arith))
              v.governed;
        invited = λ h. omega (arith, sized, v.invited h);
        founded = λ h. v.founded (omega (arith, sized, h));
      }
