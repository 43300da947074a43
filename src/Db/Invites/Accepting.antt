-- ===== src/Db/Invites/Accepting.antt =====
-- internal/db/groups.go: what `AcceptInvite` has done when it succeeds.
use vibe_net_backend.Base.{
  ℕ, ◌<◌, Bool, true, false, some, List, ◌≡◌, refl, sym, ap, ◌∙◌, ◌==◌, ℕ_eq, String_eq, head?, ◌⊎◌,
  inl, inr, arith, count_p,
}
use vibe_net_backend.Models.{GroupMember, GroupInvite, group_role_member, invite_status_accepted}
use vibe_net_backend.Db.Sql.{Sql}
use vibe_net_backend.Db.Store.{
  Tables, Db, Error, unique_violation, Result, ok, err, when, fail, group_member_table,
  group_invite_table,
}
use vibe_net_backend.Db.Store.Runs.{bind_ok, transaction_ok, first_ok, update_ok, pure_ok}
use vibe_net_backend.Db.Store.Session.{create_ok, create_err, first_in, update_in}
use vibe_net_backend.Db.Invites.{forgiven, membership, accept_invite, is_pending_invite, is_invite}
use vibe_net_backend.Db.Groups.{is_member_row}

forgiven_ok :
    (r : Result GroupMember × Db) {x : Unit {0}} {db' : Db}
    → forgiven r ≡ (ok x, db')
    → ((m : GroupMember) × (r ≡ (ok m, db'))) ⊎ (r ≡ (err unique_violation, db'))
unfolding forgiven
forgiven_ok (ok m, db) h = inl (m, cc)
forgiven_ok (err unique_violation, db) h = inr (cc)
forgiven_ok (err e, db) h = absurd (ground arith)

when_ok :
    (b : Bool) (e : Error) (db : Db) {x : Unit {0}} {db' : Db}
    → when b (fail e) db ≡ (ok x, db')
    → (b ≡ false) × (db' ≡ db)
when_ok true e db h = cc
when_ok false e db h = (refl, cc)

-- A transaction in which a statement failed is not committed.
spoiled : (sql : Sql) (n : ℕ) (failed : Bool) → sql.commits n failed ≡ true → failed ≡ true → ⊥
spoiled sql n false h e = cc
spoiled sql n true h e = cc (sql.commits_failed n)

module _ (sql : Sql) (i u now : ℕ) where
  abbrev pub accepted : Tables → List GroupInvite
  accepted t =
      sql.update GroupInvite (is_pending_invite i u)
        (λ r. record r { status = invite_status_accepted }) t.group_invites

  pub record Accepted (t t' : Tables) (invite : GroupInvite) : Type 0 where
    pub pending : 0 < count_p (is_pending_invite i u) t.group_invites
    pub found : head? (sql.select GroupInvite (is_invite i) (accepted t)) ≡ some invite
    pub new_member : count_p (is_member_row invite.group_id u) t.group_members ≡ 0
    pub tables : t' ≡ record t {
      group_invites = accepted t;
      group_members =
          sql.insert GroupMember
            (record {
              group_id = invite.group_id;
              user_id = u;
              role = group_role_member;
              wrapped_key = invite.wrapped_key;
              key_nonce = invite.key_nonce;
              wrapped_by = invite.from_user;
              joined_at = now;
            })
            t.group_members;
    }

  marked : Tables → Tables
  marked t = record t { group_invites = accepted t }

  enrolled : GroupMember → Tables → Tables
  enrolled m t = record t { group_members = sql.insert GroupMember m t.group_members }

  -- The facts of the successful run, put together.
  accepted_lem :
      (t t2 t3 t4 t' : Tables) (n : ℕ) (found invite : GroupInvite) (m : GroupMember)
      → t2 ≡ marked t
      → n ≡ count_p (is_pending_invite i u) t.group_invites
      → (n == 0) ≡ false
      → head? (sql.select GroupInvite (is_invite i) t2.group_invites) ≡ some found
      → t3 ≡ t2
      → m ≡ membership found u now
      → count_p (group_member_table.clash m) t3.group_members ≡ 0
      → t4 ≡ enrolled m t3
      → t' ≡ t4
      → found ≡ invite
      → Accepted t t' invite
  unfolding marked enrolled
  accepted_lem t t2 t3 t4 t' n found invite m e2 counted some_row listed e3 made free e4 done same =
      record {
        pending = ground arith;
        found =
            sym
              (ap (λ (x : Tables). head? (sql.select GroupInvite (is_invite i) x.group_invites)) e2)
            ∙ listed
            ∙ ap some same;
        new_member =
            sym (ap (λ (x : GroupMember). count_p (group_member_table.clash x) t.group_members) who)
            ∙ sym (ap (λ (x : Tables). count_p (group_member_table.clash m) x.group_members) e23)
            ∙ free;
        tables =
            done ∙ e4 ∙ ap (enrolled m) e23 ∙ ap (λ (x : GroupMember). enrolled x (marked t)) who;
      }
    where
      e23 : t3 ≡ marked t
      e23 = e3 ∙ e2

      who : m ≡ membership invite u now
      who = made ∙ ap (λ (x : GroupInvite). membership x u now) same

  -- When `AcceptInvite` succeeds, a pending invitation of the user was there, the user was not a
  -- member, the invitation is marked accepted, and the only new row is the membership with the
  -- invitation's wrapped key.
  pub accept_invite_ok :
      (db : Db) {invite : GroupInvite} {db' : Db}
      → accept_invite sql i u now db ≡ (ok invite, db')
      → Accepted db.tables db'.tables invite
  unfolding accept_invite marked enrolled
  accept_invite_ok db {invite} {db'} h =
      let (db0, h0, done, sealed) = transaction_ok sql _ db h in
      let (n, db1, d1, h1) = bind_ok _ _ h0 in
      let (_, db2, d2, h2) = bind_ok _ _ h1 in
      let (found, db3, d3, h3) = bind_ok _ _ h2 in
      let (_, db4, d4, h4) = bind_ok _ _ h3 in
      let (same, last) = pure_ok h4 in
      let (counted, e1) = update_ok sql group_invite_table _ _ _ d1 in
      let (some_row, e2) = when_ok _ _ _ d2 in
      let (listed, e3) = first_ok sql group_invite_table _ _ d3 in
      elim (forgiven_ok _ d4) [
        | inl (m, stored) ↦
            let (made, free, e4) = create_ok sql group_member_table db3 _ stored in
            accepted_lem db.tables db2.tables db3.tables db4.tables db'.tables n found invite m
              (ap (λ (x : Db). x.tables) e2 ∙ e1) counted some_row listed e3 made free e4
              (done ∙ ap (λ (x : Db). x.tables) (sym last)) same
        | inr clash ↦ absurd (
            spoiled sql _ _ sealed (
              ap (λ (x : Db). x.failed) (sym last)
              ∙ create_err sql group_member_table db3 _ clash
              ∙ first_in sql group_invite_table db2 _ d3
              ∙ ap (λ (x : Db). x.in_transaction) e2
              ∙ ap (λ (x : Result ℕ × Db). x.1.in_transaction) (sym d1)
              ∙ update_in sql group_invite_table _ _ _))
      ]
