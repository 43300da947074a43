-- ===== src/Access/Reading.antt =====
-- internal/api/handler.go: who may read the history of a room.
pub mod Participants
mod Tests
use Prim.Native.Char.{Char, code}
use Prim.Native.String
use vibe_net_backend.Base.{
  ℕ, ◌+◌, ◌-◌, ◌*◌, String, Bool, true, false, not, ◌&&◌, ◌||◌, Option, none, some, List, [], ◌∷◌,
  if◌then◌else◌, ltb, leb, ◌==◌, ℕ_eq, String_eq, prepend, trim_space,
}
use vibe_net_backend.Models.{Message}
use vibe_net_backend.Db.Sql.{Sql}
use vibe_net_backend.Db.Store.{Db, Result, ok, err}
use vibe_net_backend.Db.Groups.{is_group_member}
use vibe_net_backend.Db.Messages.{get_messages}
use vibe_net_backend.Access.{strip_prefix}

pub data HistoryAnswer : Type 0 where
  no_history : ℕ → String → HistoryAnswer
  history : List Message → HistoryAnswer

-- `strings.Split(room, ":")`.
unfoldable pub split_colon : String → List String
split_colon String.[] = "" ∷ []
split_colon (String.◌∷◌ c s) =
    let rest = split_colon s in if code c == 58 then "" ∷ rest else prepend c rest

-- The value of decimal digits after those that give `n`.
decimal : ℕ → String → Option ℕ
decimal n String.[] = some n
decimal n (String.◌∷◌ c s) =
    let rest = decimal (n * 10 + (code c - 48)) s in
    if leb 48 (code c) && leb (code c) 57 then rest else none

-- `strconv.Atoi`, with `none` for an error and for a number below 0. A number that is too large
-- for it is an error there and out of range here.
unfoldable pub atoi : String → Option ℕ
unfolding decimal
atoi String.[] = none
atoi (String.◌∷◌ c s) =
    if code c == 43 then (if s == "" then none else decimal 0 s) else decimal 0 (String.◌∷◌ c s)

-- A limit out of range, or none, is the default.
unfoldable pub in_range : Option ℕ → ℕ
in_range none = 50
in_range (some parsed) = if ltb 0 parsed && leb parsed 200 then parsed else 50

unfoldable pub page_limit : String → ℕ
unfolding atoi in_range
page_limit raw = in_range (atoi (trim_space raw))

unfoldable pub is_party : String → List String → Bool
is_party me (a ∷ b ∷ []) = a == me || b == me
is_party me _ = false

unfoldable pub fetched : Result (List Message) × Db → HistoryAnswer × Db
fetched (err _, db) = (no_history 500 "failed to fetch message history", db)
fetched (ok messages, db) = (history messages, db)

-- `uuid_string` is `UUID.String`, and `parse_uuid` is `uuid.Parse`.
module _ (parse_uuid : String → Option ℕ) (uuid_string : ℕ → String) (sql : Sql) where
  unfoldable pub member_reads : String → String → Result Bool × Db → HistoryAnswer × Db
  unfolding fetched page_limit
  member_reads room raw (err _, db) = (no_history 500 "failed to verify group membership", db)
  member_reads room raw (ok is_member, db) =
      if not is_member
      then (no_history 403 "not a participant of this chat room", db)
      else fetched (get_messages sql room (page_limit raw) db)

  -- `GetChatHistory` of an authenticated user, for a room whose name is unescaped.
  unfoldable pub get_chat_history : String → ℕ → String → Db → HistoryAnswer × Db
  unfolding member_reads is_party split_colon fetched page_limit
  get_chat_history room me raw db = elim (strip_prefix "group:" room) [
    | some group_id ↦ elim (parse_uuid group_id) [
      | none ↦ (no_history 400 "invalid chat room id", db)
      | some g ↦ member_reads room raw (is_group_member sql g me db)
    ]
    | none ↦
        if not (is_party (uuid_string me) (split_colon room))
        then (no_history 403 "not a participant of this chat room", db)
        else fetched (get_messages sql room (page_limit raw) db)
  ]
