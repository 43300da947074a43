-- ===== src/Db/Reading.antt =====
-- internal/db: the methods that change nothing, and what `IsGroupMember` finds.
use vibe_net_backend.Base.{
  ℕ, ◌<◌, String, Bool, true, ◌&&◌, List, [], ◌∷◌, ◌≡◌, ap, sym, ◌∙◌, arith, ltb, length, count_p,
  count_p-true, count_p_mono,
}
use vibe_net_backend.Models.{Group, GroupMember}
use vibe_net_backend.Db.Sql.{Sql}
use vibe_net_backend.Db.Store.{Db, ok, count, group_member_table}
use vibe_net_backend.Db.Store.Runs.{bind_ok, pure_ok, find_ok}
use vibe_net_backend.Db.Store.Reads.{
  Reads, Reads-pure, Reads-fail, Reads-bind, Reads-if, Reads-on_error, Reads-statement, Reads-find,
  Reads-find_ordered, Reads-first, Reads-count,
}
use vibe_net_backend.Db.Groups.{
  is_member_row, is_group_member, get_group_member_role, get_group_member_ids,
}
use vibe_net_backend.Db.Users.{get_user_by_username, get_user_by_id, get_public_key}
use vibe_net_backend.Db.Search.{search_users_by_username}
use vibe_net_backend.Db.Rosters.{
  list_group_members, get_group_with_members, with_members, groups_of, list_groups_for_user,
  list_pending_invites, list_discoverable_dms,
}

module _ (sql : Sql) where
  pub is_group_member-Reads : (g u : ℕ) → Reads (is_group_member sql g u)
  unfolding is_group_member
  is_group_member-Reads g u = Reads-bind _ _ (Reads-count sql _ _) (λ n. Reads-pure _)

  pub get_group_member_role-Reads : (g u : ℕ) → Reads (get_group_member_role sql g u)
  unfolding get_group_member_role
  get_group_member_role-Reads g u = Reads-bind _ _ (Reads-first sql _ _) (λ r. Reads-pure _)

  pub get_group_member_ids-Reads : (g : ℕ) → Reads (get_group_member_ids sql g)
  unfolding get_group_member_ids
  get_group_member_ids-Reads g = Reads-bind _ _ (Reads-find sql _ _) (λ r. Reads-pure _)

  pub get_user_by_username-Reads : (name : String) → Reads (get_user_by_username sql name)
  unfolding get_user_by_username
  get_user_by_username-Reads name = Reads-first sql _ _

  pub get_user_by_id-Reads : (u : ℕ) → Reads (get_user_by_id sql u)
  unfolding get_user_by_id
  get_user_by_id-Reads u = Reads-first sql _ _

  pub get_public_key-Reads : (u : ℕ) → Reads (get_public_key sql u)
  unfolding get_public_key
  get_public_key-Reads u =
      Reads-bind _ _ (Reads-first sql _ _) (λ r. Reads-if _ _ _ (Reads-fail _) (Reads-pure _))

  list_group_members-Reads : (g : ℕ) → Reads (list_group_members sql g)
  unfolding list_group_members
  list_group_members-Reads g = Reads-statement sql _

  pub get_group_with_members-Reads : (g u : ℕ) → Reads (get_group_with_members sql g u)
  unfolding get_group_with_members
  get_group_with_members-Reads g u = Reads-bind _ _ (Reads-on_error _ _ (Reads-first sql _ _)) (λ m.
      Reads-bind _ _ (Reads-first sql _ _)
        (λ group. Reads-bind _ _ (list_group_members-Reads g) (λ members. Reads-pure _)))

  with_members-Reads :
      (ms : List GroupMember) (groups : List Group) → Reads (with_members sql ms groups)
  unfolding with_members
  with_members-Reads ms [] = Reads-pure _
  with_members-Reads ms (g ∷ groups) =
      Reads-bind _ _ (list_group_members-Reads g.group_id)
        (λ members. Reads-bind _ _ (with_members-Reads ms groups) (λ rest. Reads-pure _))

  groups_of-Reads : (ms : List GroupMember) → Reads (groups_of sql ms)
  unfolding groups_of
  groups_of-Reads [] = Reads-pure _
  groups_of-Reads (m ∷ ms) =
      Reads-bind _ _ (Reads-find_ordered sql _ _ _) (λ groups. with_members-Reads (m ∷ ms) _)

  pub list_groups_for_user-Reads : (u : ℕ) → Reads (list_groups_for_user sql u)
  unfolding list_groups_for_user
  list_groups_for_user-Reads u = Reads-bind _ _ (Reads-find sql _ _) (λ ms. groups_of-Reads ms)

  pub list_pending_invites-Reads : (u : ℕ) → Reads (list_pending_invites sql u)
  unfolding list_pending_invites
  list_pending_invites-Reads u = Reads-statement sql _

  pub list_discoverable_dms-Reads : (u : ℕ) → Reads (list_discoverable_dms sql u)
  unfolding list_discoverable_dms
  list_discoverable_dms-Reads u = Reads-statement sql _

module _ (sql : Sql) where
  pub search_users_by_username-Reads :
      (ilike : String → String → Bool) (collation : String → ℕ) (query : String) (limit : ℕ)
      → Reads (search_users_by_username sql ilike collation query limit)
  unfolding search_users_by_username
  search_users_by_username-Reads ilike collation query limit =
      Reads-bind _ _ (Reads-find_ordered sql _ _ _) (λ users. Reads-pure _)

pub ruleset reading = (
  is_group_member-Reads, get_group_member_role-Reads, get_group_member_ids-Reads,
  get_user_by_username-Reads, get_user_by_id-Reads, get_public_key-Reads,
  get_group_with_members-Reads, list_groups_for_user-Reads, list_pending_invites-Reads,
  list_discoverable_dms-Reads, search_users_by_username-Reads,
)

pub is_group_member_ok :
    (sql : Sql) (g u : ℕ) (db : Db) {db' : Db}
    → is_group_member sql g u db ≡ (ok true, db')
    → 0 < count_p (is_member_row g u) db.group_members
unfolding is_group_member count
is_group_member_ok sql g u db h =
    let (n, db1, e, k) = bind_ok _ _ h in
    let (rows, db2, e2, k2) = bind_ok _ _ e in
    let (same, still) = find_ok sql group_member_table db (is_member_row g u) e2 in
    let member : ltb 0 n ≡ true = (pure_ok k).0 in
    omega (
      arith,
      (pure_ok k2).0,
      ap length same,
      some_row n member,
      count_p-true (sql.select _ (is_member_row g u) db.group_members),
      sql.count_p-select _ (is_member_row g u) (λ _. true) db.group_members,
      count_p_mono (λ r. is_member_row g u r && true) (is_member_row g u) db.group_members
          (λ r y. ground arith),
    )
  where
    some_row : (n : ℕ) → ltb 0 n ≡ true → 0 < n
    some_row n e = ground arith

pub is_group_member_same :
    (sql : Sql) (g u : ℕ) (db : Db) {b : Bool} {db' : Db}
    → is_group_member sql g u db ≡ (ok b, db')
    → db'.tables ≡ db.tables
unfolding is_group_member count
is_group_member_same sql g u db h =
    let (n, db1, e, k) = bind_ok _ _ h in
    let (rows, db2, e2, k2) = bind_ok _ _ e in
    ap (λ (d : Db). d.tables) (sym (pure_ok k).1 ∙ sym (pure_ok k2).1)
    ∙ (find_ok sql group_member_table db (is_member_row g u) e2).1
