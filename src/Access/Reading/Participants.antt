-- ===== src/Access/Reading/Participants.antt =====
-- internal/api/handler.go: a history is read by participants only, and in pages.
use vibe_net_backend.Base.{
  ℕ, ◌≤◌, ◌<◌, String, Bool, true, false, Option, none, some, List, [], ◌∷◌, ◌≡◌, ◌⊎◌, refl, ap,
  ◌==◌, ==_iff, ℕ_eq, String_eq, count_p, Bool-cases, Option-cases, inl, inr, arith, trim_space,
  IsOrdered, length, ◌&&◌, subst,
}
use vibe_net_backend.Models.{Message}
use vibe_net_backend.Db.Sql.{Sql}
use vibe_net_backend.Db.Store.{Tables, Db, Result, ok, err}
use vibe_net_backend.Db.Groups.{is_group_member, is_member_row}
use vibe_net_backend.Db.Reading.{is_group_member_ok, is_group_member_same}
use vibe_net_backend.Db.Messages.{get_messages, limit_of}
use vibe_net_backend.Db.Messages.History.{get_messages-IsOrdered, get_messages-of_room}
use vibe_net_backend.Access.{strip_prefix}
use vibe_net_backend.Access.Reading.{
  history, split_colon, atoi, page_limit, in_range, is_party, fetched, member_reads,
  get_chat_history,
}

in_range_bounds : (o : Option ℕ) → (1 ≤ in_range o) × (in_range o ≤ 200)
unfolding in_range
in_range_bounds none = (omega arith, omega arith)
in_range_bounds (some n) = (ground arith, ground arith)

page_limit_bounds : (raw : String) → limit_of (page_limit raw) ≤ 200
unfolding page_limit limit_of
page_limit_bounds raw = let (low, high) = in_range_bounds (atoi (trim_space raw)) in ground arith

-- The room is that of two users, one of whom is `me`.
abbrev pub IsPair : String → List String → Type 0
IsPair me parts = (peer : String) × ((parts ≡ me ∷ peer ∷ []) ⊎ (parts ≡ peer ∷ me ∷ []))

is_party_lem : (me : String) (parts : List String) → is_party me parts ≡ true → IsPair me parts
unfolding is_party
is_party_lem me [] h = absurd (ground arith)
is_party_lem me (a ∷ []) h = absurd (ground arith)
is_party_lem me (a ∷ b ∷ c ∷ rest) h = absurd (ground arith)
is_party_lem me (a ∷ b ∷ []) h = elim (Bool-cases (a == me)) [
  | inl y ↦ (b, inl (ap (λ x. x ∷ b ∷ []) ((==_iff a me).0 y)))
  | inr n ↦ (a, inr (ap (λ x. a ∷ x ∷ []) ((==_iff b me).0 (ground arith))))
]

fetched_lem :
    (x : Result (List Message) × Db) {messages : List Message} {db' : Db}
    → fetched x ≡ (history messages, db')
    → x ≡ (ok messages, db')
unfolding fetched
fetched_lem (err e, db) h = absurd (ground arith)
fetched_lem (ok ms, db) h = ground arith

module _ (parse_uuid : String → Option ℕ) (uuid_string : ℕ → String) (sql : Sql) where
  -- Who may read: a member of the group that the room names, or one of the two users.
  pub data MayRead (room : String) (me : ℕ) (db : Db) : Type 0 where
    as_member :
        (group_id : String) (g : ℕ)
        → strip_prefix "group:" room ≡ some group_id
        → parse_uuid group_id ≡ some g
        → 0 < count_p (is_member_row g me) db.group_members
        → MayRead room me db
    as_party :
        strip_prefix "group:" room ≡ none
        → IsPair (uuid_string me) (split_colon room)
        → MayRead room me db

  -- In the order of their times, 200 at most, and rows of the room.
  pub record IsPage (room : String) (db : Db) (messages : List Message) : Type 0 where
    pub ordered : IsOrdered (λ (r : Message). r.timestamp) messages
    pub few : length messages ≤ 200
    pub of_room :
        (q : Message → Bool)
        → count_p q messages ≤ count_p (λ r. r.chat_room_id == room && q r) db.messages

  fetched-IsPage :
      (room raw : String) (db : Db) {messages : List Message} {db' : Db}
      → fetched (get_messages sql room (page_limit raw) db) ≡ (history messages, db')
      → IsPage room db messages
  fetched-IsPage room raw db h =
      let run = fetched_lem _ h in
      let (ordered, few) = get_messages-IsOrdered sql room (page_limit raw) db run in
      record {
        ordered = ordered;
        few = omega (arith, page_limit_bounds raw);
        of_room = get_messages-of_room sql room (page_limit raw) db run;
      }

  member_reads_lem :
      (room raw : String) (x : Result Bool × Db) {messages : List Message} {db' : Db}
      → member_reads parse_uuid uuid_string sql room raw x ≡ (history messages, db')
      → (db1 : Db) × (x ≡ (ok true, db1)) × IsPage room db1 messages
  unfolding member_reads
  member_reads_lem room raw (err e, db) h = absurd (ground arith)
  member_reads_lem room raw (ok false, db) h = absurd (ground arith)
  member_reads_lem room raw (ok true, db) h = (db, refl, fetched-IsPage room raw db h)

  IsPage-same :
      {room : String} {db : Db} {messages : List Message} (db1 : Db)
      → db1.tables ≡ db.tables
      → IsPage room db1 messages
      → IsPage room db messages
  IsPage-same {room} {db} {messages} db1 same page = record {
    ordered = page.ordered;
    few = page.few;
    of_room =
        subst
          (λ (t : Tables).
            (q : Message → Bool)
            → count_p q messages ≤ count_p (λ r. r.chat_room_id == room && q r) t.messages)
          same page.of_room;
  }

  -- `GetChatHistory` gives the history of a room only to a member of the group that the room
  -- names, or, for a room that names no group, to one of the two users whose identifiers it
  -- joins; the history is in the order of its timestamps, has at most 200 messages, and holds
  -- only messages of that room, none more often than the database does.
  pub get_chat_history-MayRead :
      (room : String) (me : ℕ) (raw : String) (db : Db) {messages : List Message} {db' : Db}
      → get_chat_history parse_uuid uuid_string sql room me raw db ≡ (history messages, db')
      → MayRead room me db × IsPage room db messages
  unfolding get_chat_history
  get_chat_history-MayRead room me raw db {messages} {db'} h =
      elim (Option-cases (strip_prefix "group:" room)) [
        | inr (group_id, e) ↦ elim (Option-cases (parse_uuid group_id)) [
          | inl bad ↦ absurd (ground arith)
          | inr (g, named) ↦
              let step : member_reads parse_uuid uuid_string sql room raw
                    (is_group_member sql g me db)
                  ≡ (history messages, db') =
                ground arith in
              let (db1, read, page) = member_reads_lem room raw _ step in
              (
                as_member group_id g e named (is_group_member_ok sql g me db read),
                IsPage-same db1 (is_group_member_same sql g me db read) page,
              )
        ]
        | inl e ↦ elim (Bool-cases (is_party (uuid_string me) (split_colon room))) [
          | inr n ↦ absurd (ground arith)
          | inl y ↦
              let step : fetched (get_messages sql room (page_limit raw) db)
                  ≡ (history messages, db') =
                ground arith in
              (
                as_party e (is_party_lem (uuid_string me) (split_colon room) y),
                fetched-IsPage room raw db step,
              )
        ]
      ]
