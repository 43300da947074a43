-- ===== src/Db/Groups/Succession.antt =====
-- internal/db/groups.go: who leaves, what is deleted and who succeeds in `LeaveGroup`.
use vibe_net_backend.Base.{
  IsOrdered, ℕ, ◌≤◌, Bool, true, false, not, ◌&&◌, List, [], ◌∷◌, ◌≡◌, refl, sym, ap, ◌∙◌, ◌≢◌, ◌↔◌,
  if◌then◌else◌, ◌==◌, ==_iff, ==_refl, ℕ_eq, String_eq, head?, inl, inr, arith, Bool-cases, subst,
  count_p, count_p_mono, ltb,
}
use vibe_net_backend.Models.{GroupMember, group_role_owner}
use vibe_net_backend.Db.Sql.{Sql}
use vibe_net_backend.Db.Sql.Counts.{count_p-delete_other, count_p-delete_self, count_p-update_same}
use vibe_net_backend.Db.Store.{Tables, Db, ok}
use vibe_net_backend.Db.Groups.{is_member_row, of_group, leave_group, invites_to, is_group}
use vibe_net_backend.Db.Groups.Leaving.{
  staying, remaining, promoted, after_leave, leave_group_ok, Left, kept_invites, is_gone,
}
use vibe_net_backend.Db.Groups.Governed.{
  count_p-no-sorted, head-sorted, count_p-head-sorted, count_p-head-select, count_p-sorted,
}

none_below :
    {R : Type 0} (key : R → ℕ) (k : ℕ) (t : List R) {r : R}
    → IsOrdered key (r ∷ t)
    → k ≤ key r
    → count_p (λ x. ltb (key x) k) (r ∷ t) ≡ 0
none_below key k [] h low = ground arith
none_below key k (s ∷ t) (first, h) low =
    ground (arith, none_below key k t h (omega (arith, first, low)))

module _ (sql : Sql) (g u : ℕ) where
  -- The member is out of the group, its other members are kept.
  pub record Departed (t t' : Tables) (deleted : Bool) : Type 0 where
    pub left : count_p (is_member_row g u) t'.group_members ≡ 0
    pub others :
        (w : ℕ)
        → w ≢ u
        → count_p (is_member_row g w) t'.group_members ≡ count_p (is_member_row g w) t.group_members
    pub emptied : (deleted ≡ true) ↔ (count_p (of_group g) t'.group_members ≡ 0)
    pub dissolved :
        deleted ≡ true
        → (count_p (is_group g) t'.groups ≡ 0) × (count_p (invites_to g) t'.group_invites ≡ 0)

  kept_members :
      (t : Tables) (leaving : GroupMember) (after : List GroupMember) (q : GroupMember → Bool)
      → ((r : GroupMember) → q (record r { role = group_role_owner }) ≡ q r)
      → count_p q (after_leave sql g u t leaving after).group_members
        ≡ count_p q (staying sql g u t)
  kept_members t leaving [] q blind = refl
  kept_members t leaving (s ∷ later) q blind =
      elim (Bool-cases (leaving.role == group_role_owner)) [
        | inl owner ↦ rw owner (
            count_p-update_same sql (is_member_row g s.user_id) q (staying sql g u t)
              (λ r. record r { role = group_role_owner }) (λ r. ground (arith, blind r)))
        | inr plain ↦ rw plain
      ]

  emptied_lem :
      (t : Tables) (after : List GroupMember)
      → remaining sql g u t ≡ after
      → (is_gone sql g u after ≡ true) ↔ (count_p (of_group g) (staying sql g u t) ≡ 0)
  emptied_lem t [] e = (
    (λ h. count_p-no-sorted sql (λ r. r.joined_at) (of_group g) (staying sql g u t) e),
    λ h. refl,
  )
  emptied_lem t (s ∷ later) e =
      let here : 1 ≤ count_p (of_group g) (staying sql g u t) =
        count_p-head-sorted sql (λ r. r.joined_at) (of_group g) (staying sql g u t) (of_group g)
          (ap head? e)
          (head-sorted sql (λ r. r.joined_at) (of_group g) (staying sql g u t) (ap head? e)) in
      ((λ h. cc), λ h. absurd (omega (arith, here, h)))

  dissolved_lem :
      (t : Tables) (leaving : GroupMember) (after : List GroupMember)
      → is_gone sql g u after ≡ true
      → (count_p (is_group g) (after_leave sql g u t leaving after).groups ≡ 0)
        × (count_p (invites_to g) (after_leave sql g u t leaving after).group_invites ≡ 0)
  dissolved_lem t leaving [] h = (
    count_p-delete_self sql (is_group g) t.groups,
    count_p-delete_self sql (invites_to g) (kept_invites sql g u t),
  )
  dissolved_lem t leaving (s ∷ later) h = cc

  -- `LeaveGroup` that succeeds takes the member out and nobody else; it reports the group deleted
  -- exactly if nobody is left in it, and then no row of the group and no invitation to it are
  -- left.
  pub leave_group-Departed :
      (db : Db) {deleted : Bool} {db' : Db}
      → leave_group sql g u db ≡ (ok deleted, db')
      → Departed db.tables db'.tables deleted
  leave_group-Departed db {deleted} {db'} h =
      rw (l.tables, l.gone)
        (record {
          left =
              kept_members db.tables l.leaving after (is_member_row g u) (λ r. refl)
              ∙ count_p-delete_self sql (is_member_row g u) db.group_members;
          others = λ w ne.
              kept_members db.tables l.leaving after (is_member_row g w) (λ r. refl)
              ∙ count_p-delete_other sql (is_member_row g u) (is_member_row g w) db.group_members
                  (λ r h. ground (arith, ne));
          emptied =
              let kept = kept_members db.tables l.leaving after (of_group g) (λ r. refl) in
              let (there, back) = emptied_lem db.tables after refl in
              ((λ h. kept ∙ there h), λ h. back (sym kept ∙ h));
          dissolved = dissolved_lem db.tables l.leaving after;
        })
    where
      l : Left sql g u db.tables db'.tables deleted
      l = leave_group_ok sql g u db h

      after : List GroupMember
      after = remaining sql g u db.tables

  -- The member that takes over, and that nobody who remains has joined earlier.
  pub record Succeeded (rows : List GroupMember) : Type 0 where
    pub heir : ℕ
    pub joined : ℕ
    pub owns :
        1
        ≤ count_p
            (λ r. is_member_row g heir r && (r.joined_at == joined && r.role == group_role_owner))
            rows
    pub earliest : count_p (λ r. of_group g r && ltb r.joined_at joined) rows ≡ 0

  heir_lem :
      (t : Tables) (leaving s : GroupMember) (later : List GroupMember)
      → remaining sql g u t ≡ s ∷ later
      → Succeeded (promoted sql g u s.user_id (staying sql g u t))
  heir_lem t leaving s later e = record {
    heir = s.user_id;
    joined = s.joined_at;
    owns = omega (
      arith,
      sql.count_p-update GroupMember (is_member_row g s.user_id)
          (λ r. record r { role = group_role_owner })
          (λ r.
            is_member_row g s.user_id r
            && (r.joined_at == s.joined_at && r.role == group_role_owner))
          rows,
      count_p_mono (λ r. is_member_row g s.user_id r && r.joined_at == s.joined_at)
          (λ r.
            if is_member_row g s.user_id r
            then is_member_row g s.user_id r
              && (r.joined_at == s.joined_at && group_role_owner == group_role_owner)
            else is_member_row g s.user_id r
              && (r.joined_at == s.joined_at && r.role == group_role_owner))
          rows (λ r h. ground (arith, ==_refl group_role_owner)),
      count_p-head-sorted sql (λ r. r.joined_at) (of_group g) rows
          (λ r. is_member_row g s.user_id r && r.joined_at == s.joined_at) (ap head? e)
          (ground (
            arith,
            head-sorted sql (λ r. r.joined_at) (of_group g) rows (ap head? e),
            ==_refl s.user_id,
            ==_refl s.joined_at,
          )),
    );
    earliest =
        count_p-update_same sql (is_member_row g s.user_id)
          (λ r. of_group g r && ltb r.joined_at s.joined_at) rows
          (λ r. record r { role = group_role_owner }) (λ r. ground arith)
        ∙ sym (
            count_p-sorted sql (λ r. r.joined_at) (of_group g) rows
              (λ r. ltb r.joined_at s.joined_at))
        ∙ ap (count_p (λ r. ltb r.joined_at s.joined_at)) e
        ∙ none_below {R = GroupMember} (λ r. r.joined_at) s.joined_at later {r = s}
            (subst (IsOrdered (λ r. r.joined_at)) e (
              sql.order_by-IsOrdered GroupMember (λ r. r.joined_at)
                (sql.select GroupMember (of_group g) rows)))
            (omega arith);
  }
    where
      rows : List GroupMember
      rows = staying sql g u t

  succeeded_lem :
      (t : Tables) (leaving : GroupMember) (after : List GroupMember)
      → remaining sql g u t ≡ after
      → leaving.role ≡ group_role_owner
      → is_gone sql g u after ≡ false
      → Succeeded (after_leave sql g u t leaving after).group_members
  succeeded_lem t leaving [] e owner kept = cc
  succeeded_lem t leaving (s ∷ later) e owner kept =
      rw ((==_iff leaving.role group_role_owner).1 owner) (heir_lem t leaving s later e)

  -- When somebody leaves whose row gives the role of the owner, and the group is not deleted by
  -- that, there is a member's row afterwards with the role of the owner and a time of joining
  -- that no member of the group is before.
  pub leave_group-Succeeded :
      (db : Db) {db' : Db}
      → count_p (λ r. is_member_row g u r && not (r.role == group_role_owner)) db.group_members ≡ 0
      → leave_group sql g u db ≡ (ok false, db')
      → Succeeded db'.group_members
  leave_group-Succeeded db {db'} owner h =
      rw l.tables
        (succeeded_lem db.tables l.leaving (remaining sql g u db.tables) refl owned (sym l.gone))
    where
      l : Left sql g u db.tables db'.tables false
      l = leave_group_ok sql g u db h

      owned : l.leaving.role ≡ group_role_owner
      owned = elim (Bool-cases (l.leaving.role == group_role_owner)) [
        | inl same ↦ (==_iff l.leaving.role group_role_owner).0 same
        | inr plain ↦ absurd (
            omega (
              arith,
              owner,
              count_p-head-select sql (is_member_row g u) db.group_members
                  (λ r. not (r.role == group_role_owner)) l.found (ap not plain),
            ))
      ]
