-- ===== src/Db/Groups/Leaving.antt =====
-- internal/db/groups.go: what `LeaveGroup` has done when it succeeds.
use vibe_net_backend.Base.{
  ℕ, Bool, true, false, some, List, [], ◌∷◌, ◌≡◌, ap, ◌∙◌, if◌then◌else◌, ◌==◌, ℕ_eq, String_eq,
  head?, inl, inr, arith, Bool-cases,
}
use vibe_net_backend.Models.{GroupMember, GroupInvite, Group, group_role_owner}
use vibe_net_backend.Db.Sql.{Sql}
use vibe_net_backend.Db.Store.{
  Tables, Db, ok, update, group_member_table, group_invite_table, group_table,
}
use vibe_net_backend.Db.Store.Runs.{
  bind_ok, relabel_ok, transaction_ok, find_ordered_ok, first_ok, delete_ok, update_ok, pure_ok,
}
use vibe_net_backend.Db.Groups.{
  leave_group, settle_group, is_member_row, is_invite_of, of_group, invites_to, is_group,
}

module _ (sql : Sql) (g u : ℕ) where
  -- The members and the invitations once the leaving member is out.
  abbrev pub staying : Tables → List GroupMember
  staying t = sql.delete GroupMember (is_member_row g u) t.group_members

  abbrev pub kept_invites : Tables → List GroupInvite
  kept_invites t = sql.delete GroupInvite (is_invite_of g u) t.group_invites

  -- The rows of the group that remain, the earliest first.
  abbrev pub remaining : Tables → List GroupMember
  remaining t =
      sql.order_by GroupMember (λ r. r.joined_at) (sql.select GroupMember (of_group g) (staying t))

  abbrev pub promoted : ℕ → List GroupMember → List GroupMember
  promoted s =
      sql.update GroupMember (is_member_row g s) (λ r. record r { role = group_role_owner })

  abbrev pub after_leave : Tables → GroupMember → List GroupMember → Tables
  after_leave t leaving [] = record t {
    group_members = staying t;
    group_invites = sql.delete GroupInvite (invites_to g) (kept_invites t);
    groups = sql.delete Group (is_group g) t.groups;
  }
  after_leave t leaving (s ∷ rest) = record t {
    group_members =
        if leaving.role == group_role_owner then promoted s.user_id (staying t) else staying t;
    group_invites = kept_invites t;
  }

  abbrev pub is_gone : List GroupMember → Bool
  is_gone [] = true
  is_gone (s ∷ rest) = false

  settle_group_ok :
      (leaving : GroupMember) (t : Tables) (rest : List GroupMember) (db : Db) {deleted : Bool}
      {db' : Db}
      → db.tables ≡ record t { group_members = staying t; group_invites = kept_invites t }
      → settle_group sql g leaving rest db ≡ (ok deleted, db')
      → (db'.tables ≡ after_leave t leaving rest) × (deleted ≡ is_gone rest)
  unfolding settle_group
  settle_group_ok leaving t [] db {deleted} {db'} e h =
      let (_, db1, d1, h1) = bind_ok _ _ h in
      let (_, db2, d2, h2) = bind_ok _ _ h1 in
      let e1 = delete_ok sql group_invite_table db _ d1 in
      let e2 = delete_ok sql group_table db1 _ d2 in
      let (same, last) = pure_ok h2 in (ground arith, ground arith)
  settle_group_ok leaving t (s ∷ rest) db e h =
      elim (Bool-cases (leaving.role == group_role_owner)) [
        | inl owner ↦
            let (_, db1, d1, h1) =
              bind_ok
                (update sql group_member_table (is_member_row g s.user_id)
                  (λ r. record r { role = group_role_owner }) db)
                _ (rw (owner, settle_group) at h) in
            let (_, e1) = update_ok sql group_member_table db _ _ d1 in
            let (same, last) = pure_ok h1 in (ground arith, ground arith)
        | inr plain ↦ ground arith
      ]

  -- The tables after the two deletions.
  removal :
      {t t1 t2 t3 : Tables}
      → t1 ≡ t
      → t2 ≡ record t1 { group_members = staying t1 }
      → t3 ≡ record t2 { group_invites = kept_invites t2 }
      → t3 ≡ record t { group_members = staying t; group_invites = kept_invites t }
  removal e1 e2 e3 =
      e3
      ∙ ap (λ (x : Tables). record x { group_invites = kept_invites x })
          (e2 ∙ ap (λ (x : Tables). record x { group_members = staying x }) e1)

  listing : Tables → List GroupMember
  listing t =
      sql.order_by GroupMember (λ r. r.joined_at)
        (sql.select GroupMember (of_group g) t.group_members)

  pub record Left (t t' : Tables) (deleted : Bool) : Type 0 where
    pub leaving : GroupMember
    pub found : head? (sql.select GroupMember (is_member_row g u) t.group_members) ≡ some leaving
    pub tables : t' ≡ after_leave t leaving (remaining t)
    pub gone : deleted ≡ is_gone (remaining t)

  pub leave_group_ok :
      (db : Db) {deleted : Bool} {db' : Db}
      → leave_group sql g u db ≡ (ok deleted, db')
      → Left db.tables db'.tables deleted
  unfolding leave_group listing
  leave_group_ok db {deleted} {db'} h =
      let (db0, h0, done, _) = transaction_ok sql _ db h in
      let (leaving, db1, d1, h1) = bind_ok _ _ h0 in
      let (_, db2, d2, h2) = bind_ok _ _ h1 in
      let (_, db3, d3, h3) = bind_ok _ _ h2 in
      let (rest, db4, d4, h4) = bind_ok _ _ h3 in
      let (found, e1) = first_ok sql group_member_table _ _ (relabel_ok _ _ d1) in
      let e2 = delete_ok sql group_member_table db1 _ d2 in
      let e3 = delete_ok sql group_invite_table db2 _ d3 in
      let (listed, e4) = find_ordered_ok sql group_member_table db3 _ _ d4 in
      let cut = removal {t = db.tables} e1 e2 e3 in
      let (e5, gone) = settle_group_ok leaving db.tables rest db4 (e4 ∙ cut) h4 in
      let same : rest ≡ remaining db.tables = listed ∙ ap listing cut in
      record {
        leaving = leaving;
        found = found;
        tables = done ∙ e5 ∙ ap (after_leave db.tables leaving) same;
        gone = gone ∙ ap is_gone same;
      }
