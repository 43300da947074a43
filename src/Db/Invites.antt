-- ===== src/Db/Invites.antt =====
-- internal/db/groups.go: the life of an invitation.
pub mod Accepting
pub mod Sound
pub mod Opening
use vibe_net_backend.Base.{
  ℕ, suc, ◌+◌, String, Bool, true, false, not, ◌&&◌, ◌||◌, Option, none, some, List, [], ◌∷◌, map,
  if◌then◌else◌, ◌==◌, ℕ_eq, String_eq,
}
use vibe_net_backend.Models.{
  GroupMember, GroupInvite, group_role_member, invite_status_pending, invite_status_accepted,
  invite_status_declined,
}
use vibe_net_backend.Db.Sql.{Sql}
use vibe_net_backend.Db.Store.{
  M, Error, record_not_found, already_group_member, invite_not_pending, unique_violation, Result,
  ok, err, ◌>>=◌, ◌>>◌, bind, pure, when, fail, first, update, create, transaction,
  group_member_table, group_invite_table, Db,
}
use vibe_net_backend.Db.Groups.{is_invite_of}

-- WHERE invite_id = i AND to_user = u AND status = 'pending'
abbrev pub is_pending_invite : ℕ → ℕ → GroupInvite → Bool
is_pending_invite i u r = r.invite_id == i && r.to_user == u && r.status == invite_status_pending

abbrev pub is_invite : ℕ → GroupInvite → Bool
is_invite i r = r.invite_id == i

unfoldable pub caught {ℓ} : {A : Type ℓ} → Result A × Db → Result (Option A) × Db
caught (ok a, db) = (ok (some a), db)
caught (err record_not_found, db) = (ok none, db)
caught (err e, db) = (err e, db)

unfoldable pub forgiven : Result GroupMember × Db → Result (Unit {0}) × Db
forgiven (ok r, db) = (ok tt, db)
forgiven (err unique_violation, db) = (ok tt, db)
forgiven (err e, db) = (err e, db)

-- What the method does with the result of its lookup.
abbrev pub or_missing {ℓ} : {A : Type ℓ} → M A → M (Option A)
or_missing m db = caught (m db)

-- The membership that an accepted invitation gives.
abbrev pub membership : GroupInvite → ℕ → ℕ → GroupMember
membership invite u now = record {
  group_id = invite.group_id;
  user_id = u;
  role = group_role_member;
  wrapped_key = invite.wrapped_key;
  key_nonce = invite.key_nonce;
  wrapped_by = invite.from_user;
  joined_at = now;
}

module _ (sql : Sql) where
  -- The new row, or the old one reopened with the new key material. The result is its identifier.
  unfoldable pub reopen_or_create : GroupInvite → ℕ → Option GroupInvite → M ℕ
  reopen_or_create invite now none = do
    created ←
        create sql group_invite_table (λ id. record invite { invite_id = id; created_at = now })
    pure created.invite_id
  reopen_or_create invite now (some existing) =
      if existing.status == invite_status_accepted then fail already_group_member else (do
        _ ← update sql group_invite_table (is_invite existing.invite_id) (λ r. record r {
          status = invite_status_pending;
          from_user = invite.from_user;
          wrapped_key = invite.wrapped_key;
          key_nonce = invite.key_nonce;
          created_at = now;
        })
        pure existing.invite_id)

  unfoldable pub create_invite : GroupInvite → ℕ → M ℕ
  unfolding reopen_or_create
  create_invite invite now = transaction sql (do
    existing ←
        or_missing (first sql group_invite_table (is_invite_of invite.group_id invite.to_user))
    reopen_or_create invite now existing)

  -- `if isUniqueViolation(err) { return nil }`
  abbrev pub forgive_unique : M GroupMember → M (Unit {0})
  forgive_unique m db = forgiven (m db)

  unfoldable pub accept_invite : ℕ → ℕ → ℕ → M GroupInvite
  accept_invite i u now = transaction sql (do
    affected ←
        update sql group_invite_table (is_pending_invite i u)
          (λ r. record r { status = invite_status_accepted })
    when (affected == 0) (fail invite_not_pending)
    invite ← first sql group_invite_table (is_invite i)
    forgive_unique (create sql group_member_table (λ _. membership invite u now))
    pure invite)

  unfoldable pub decline_invite : ℕ → ℕ → M (Unit {0})
  decline_invite i u = do
    affected ←
        update sql group_invite_table (is_pending_invite i u)
          (λ r. record r { status = invite_status_declined })
    if affected == 0 then fail invite_not_pending else pure tt
