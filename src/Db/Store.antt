-- ===== src/Db/Store.antt =====
-- internal/db: the tables, and a statement or a transaction of a repository method.
pub mod Runs
pub mod Reads
pub mod Session
pub mod Writes
use vibe_net_backend.Base.{
  ℕ, suc, ◌+◌, ◌≤◌, ◌<◌, Bool, true, false, not, ◌&&◌, ◌||◌, Option, none, some, List, [], ◌∷◌, ◌≡◌,
  refl, arith, if◌then◌else◌, count_p, head?, ltb, length, ◌==◌, ℕ_eq, String, String_eq,
}
use mathlib.Core.Option
use vibe_net_backend.Models.{User, Group, GroupMember, GroupInvite, DmParticipant, Message}
use vibe_net_backend.Db.Sql.{Sql}

pub record Tables : Type 0 where
  pub users : List User
  pub groups : List Group
  pub group_members : List GroupMember
  pub group_invites : List GroupInvite
  pub dm_participants : List DmParticipant
  pub messages : List Message

-- `sent` counts the statements, and `failed` says whether one failed in the open transaction.
pub record Db : Type 0 where
  pub tables : Tables
  pub open tables use *
  pub sent : ℕ
  pub in_transaction : Bool
  pub failed : Bool

-- The errors that callers tell apart by `errors.Is`; `other` is any other failure. An error that
-- `fmt.Errorf` wraps by `%w` stays the same to `errors.Is`. A `unique_violation` is a driver error
-- whose message holds "duplicate" or "unique".
pub data Error : Type 0 where
  record_not_found not_group_member already_group_member invite_not_pending : Error
  username_taken email_taken phone_taken invalid_pin_type unique_violation other : Error

pub data Result {ℓ} (A : Type ℓ) : Type ℓ where
  ok : A → Result A
  err : Error → Result A

abbrev pub M {ℓ} : Type ℓ → Type ℓ
M A = Db → Result A × Db

unfoldable pub bind {ℓ κ} : {A : Type ℓ} {B : Type κ} → Result A × Db → (A → M B) → Result B × Db
bind (ok a, db) f = f a db
bind (err e, db) f = (err e, db)

infixl 5 ◌>>=◌ ◌>>◌
abbrev pub ◌>>=◌ {ℓ κ} : {A : Type ℓ} {B : Type κ} → M A → (A → M B) → M B
◌>>=◌ m f db = bind (m db) f

abbrev pub ◌>>◌ {ℓ} : {B : Type ℓ} → M (Unit {0}) → M B → M B
m >> k = m >>= λ _. k

abbrev pub pure {ℓ} : {A : Type ℓ} → A → M A
pure a db = (ok a, db)

abbrev pub fail {ℓ} : {A : Type ℓ} → Error → M A
fail e db = (err e, db)

-- An error is replaced before it is returned.
unfoldable pub relabel {ℓ} : {A : Type ℓ} → (Error → Error) → Result A × Db → Result A × Db
relabel f (ok a, db) = (ok a, db)
relabel f (err e, db) = (err (f e), db)

abbrev pub on_error {ℓ} : {A : Type ℓ} → M A → (Error → Error) → M A
on_error m f db = relabel f (m db)

abbrev pub when : Bool → M (Unit {0}) → M (Unit {0})
when true m = m
when false m = pure tt

-- A table: its place in the store, and the pairs of rows that a unique index forbids.
pub record Table (R : Type 0) : Type 0 where
  pub rows : Tables → List R
  pub put : List R → Tables → Tables
  pub clash : R → R → Bool

-- What a statement does once it is accepted: `none` is a violated unique index.
unfoldable pub settle {ℓ} : {A : Type ℓ} → Db → Option (A × Tables) → Result A × Db
settle db none =
    (err unique_violation, record db { sent = suc db.sent; failed = db.in_transaction })
settle db (some (a, t)) = (ok a, record db { tables = t; sent = suc db.sent })

unfoldable pub refused {ℓ} : {A : Type ℓ} → M A
refused db = (err other, record db { sent = suc db.sent; failed = db.in_transaction })

-- The end of a transaction: COMMIT after success, which may fail, and else ROLLBACK.
unfoldable pub closed : Tables → Db → Db
closed t db = record db { tables = t; in_transaction = false; failed = false; sent = suc db.sent }

unfoldable pub commit {ℓ} : {A : Type ℓ} → (ℕ → Bool → Bool) → Db → Result A × Db → Result A × Db
commit commits start (ok a, db) =
    if commits db.sent db.failed
    then (ok a, closed db.tables db)
    else (err other, closed start.tables db)
commit commits start (err e, db) = (err e, closed start.tables db)

module _ (sql : Sql) where
  unfoldable pub statement {ℓ} : {A : Type ℓ} → (ℕ → Tables → Option (A × Tables)) → M A
  statement run db =
      if sql.answers db.sent db.failed then settle db (run db.sent db.tables) else refused db

  unfoldable pub transaction {ℓ} : {A : Type ℓ} → M A → M A
  transaction m db = commit sql.commits db (m (record db { in_transaction = true; failed = false }))

  module _ {R : Type 0} (table : Table R) where
    -- `Find`, in no order and by a key.
    unfoldable pub find : (R → Bool) → M (List R)
    find p = statement (λ _ t. some (sql.select R p (table.rows t), t))

    unfoldable pub find_ordered : (R → Bool) → (R → ℕ) → M (List R)
    find_ordered p key =
        statement (λ _ t. some (sql.order_by R key (sql.select R p (table.rows t)), t))

    unfoldable pub first_of_rows : List R → M R
    first_of_rows [] = fail record_not_found
    first_of_rows (r ∷ rs) = pure r

    -- `First`.
    unfoldable pub first : (R → Bool) → M R
    first p = find p >>= first_of_rows

    -- `Count`.
    unfoldable pub count : (R → Bool) → M ℕ
    count p = do rows ← find p; pure (length rows)

    -- `Delete`.
    unfoldable pub delete : (R → Bool) → M (Unit {0})
    delete p = statement (λ _ t. some (tt, table.put (sql.delete R p (table.rows t)) t))

    -- `Update` and `Updates`, with the number of rows that it changed.
    unfoldable pub update : (R → Bool) → (R → R) → M ℕ
    update p f =
        statement
          (λ _ t. some (count_p p (table.rows t), table.put (sql.update R p f (table.rows t)) t))

    -- `Update` of columns of a unique index: the rows that come of it are checked against each other.
    unfoldable pub update_unique : (R → Bool) → (R → R) → M ℕ
    update_unique p f = statement (λ _ t.
        let rows = sql.update R p f (table.rows t) in
        if ltb 0 (count_p (λ r. ltb 1 (count_p (table.clash r) rows)) rows)
        then none
        else some (count_p p (table.rows t), table.put rows t))

    -- `Create` of a slice with `OnConflict{DoNothing}`: a row that clashes is left out.
    unfoldable pub insert_new : List R → List R → List R
    insert_new [] t = t
    insert_new (r ∷ rs) t =
        if ltb 0 (count_p (table.clash r) t)
        then insert_new rs t
        else insert_new rs (sql.insert R r t)

    unfoldable pub create_missing : List R → M (Unit {0})
    unfolding insert_new
    create_missing rs = statement (λ _ t. some (tt, table.put (insert_new rs (table.rows t)) t))

    -- `Create` with `OnConflict{DoUpdates}`: a row that clashes is changed in place.
    unfoldable pub create_or_update : R → (R → R) → M (Unit {0})
    create_or_update r f = statement (λ _ t.
        let rows = table.rows t in
        some (
          tt,
          table.put
              (if ltb 0 (count_p (table.clash r) rows)
                then sql.update R (table.clash r) f rows
                else sql.insert R r rows)
              t,
        ))

    -- `Create`: the row may take the identifier that the database makes up.
    unfoldable pub create : (ℕ → R) → M R
    create row = statement (λ n t.
        let r = row (sql.new_uuid n) in
        if ltb 0 (count_p (table.clash r) (table.rows t))
        then none
        else some (r, table.put (sql.insert R r (table.rows t)) t))

    -- The rows of one INSERT, each against the table and the rows before it.
    unfoldable pub insert_all : List R → List R → Option (List R)
    insert_all [] t = some t
    insert_all (r ∷ rs) t =
        if ltb 0 (count_p (table.clash r) t) then none else insert_all rs (sql.insert R r t)

    -- `Create` of a slice.
    unfoldable pub create_all : List R → M (Unit {0})
    create_all rs =
        statement
          (λ _ t. Option.map (λ rows. (tt, table.put rows t)) (insert_all rs (table.rows t)))

-- The tables that have a unique index, from the tags of the models.
abbrev pub group_table : Table Group
group_table = record {
  rows = λ t. t.groups;
  put = λ rs t. record t { groups = rs };
  clash = λ r s. s.group_id == r.group_id;
}

abbrev pub group_member_table : Table GroupMember
group_member_table = record {
  rows = λ t. t.group_members;
  put = λ rs t. record t { group_members = rs };
  clash = λ r s. s.group_id == r.group_id && s.user_id == r.user_id;
}

abbrev pub group_invite_table : Table GroupInvite
group_invite_table = record {
  rows = λ t. t.group_invites;
  put = λ rs t. record t { group_invites = rs };
  clash = λ r s. s.invite_id == r.invite_id || (s.group_id == r.group_id && s.to_user == r.to_user);
}

abbrev pub same_text : Option String → Option String → Bool
same_text none _ = false
same_text (some a) none = false
same_text (some a) (some b) = a == b

abbrev pub user_table : Table User
user_table = record {
  rows = λ t. t.users;
  put = λ rs t. record t { users = rs };
  clash = λ r s.
      s.user_id == r.user_id
      || s.username == r.username
      || same_text s.email r.email
      || same_text s.phone_number r.phone_number
      || same_text s.google_id r.google_id;
}

abbrev pub dm_participant_table : Table DmParticipant
dm_participant_table = record {
  rows = λ t. t.dm_participants;
  put = λ rs t. record t { dm_participants = rs };
  clash = λ r s. s.chat_room_id == r.chat_room_id && s.user_id == r.user_id;
}

abbrev pub message_table : Table Message
message_table = record {
  rows = λ t. t.messages;
  put = λ rs t. record t { messages = rs };
  clash = λ r s. s.chat_room_id == r.chat_room_id && s.timestamp == r.timestamp;
}
