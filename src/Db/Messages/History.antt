-- ===== src/Db/Messages/History.antt =====
-- internal/db/messages.go: what is read back from a room.
use vibe_net_backend.Base.{
  ℕ, ◌≤◌, String, Bool, true, false, ◌&&◌, List, ◌≡◌, refl, ◌∙◌, ap, subst, if◌then◌else◌, ◌==◌,
  ==_refl, ℕ_eq, String_eq, take, backwards, length, length-take, length-sort_by, sort_by-IsOrdered,
  IsOrdered, arith, Bool-cases, inl, inr, count_p, count_p_mono, count_p-congr, sym,
  count_p-sort_by, count_p-take, count_p-backwards, ltb, ◌<◌,
}
use vibe_net_backend.Models.{Message}
use vibe_net_backend.Db.Sql.{Sql}
use vibe_net_backend.Db.Store.{Db, ok, create_or_update, message_table}
use vibe_net_backend.Db.Store.Runs.{bind_ok, pure_ok, statement_ok, find_ordered_ok}
use vibe_net_backend.Db.Groups.Governed.{count_p-sorted}
use vibe_net_backend.Db.Messages.{get_messages, save_message, limit_of}

module _ (sql : Sql) where
  -- A history comes in the order of its timestamps, and holds at most as many messages as asked
  -- for, or 50 where the limit is not positive.
  pub get_messages-IsOrdered :
      (chat_room_id : String) (limit : ℕ) (db : Db) {messages : List Message} {db' : Db}
      → get_messages sql chat_room_id limit db ≡ (ok messages, db')
      → IsOrdered (λ (r : Message). r.timestamp) messages × (length messages ≤ limit_of limit)
  unfolding get_messages
  get_messages-IsOrdered chat_room_id limit db {messages} h =
      let (rows, db1, e, k) = bind_ok _ _ h in
      let same = (pure_ok k).0 in
      (
        subst (IsOrdered (λ (r : Message). r.timestamp)) same (
            sort_by-IsOrdered (λ (r : Message). r.timestamp)
              (take (limit_of limit) (backwards rows))),
        omega (
          arith,
          ap length same,
          length-sort_by (λ (r : Message). r.timestamp) (take (limit_of limit) (backwards rows)),
          length-take (limit_of limit) (backwards rows),
        ),
      )

  -- What is read back are rows of the room, each as often as the table has it at most.
  pub get_messages-of_room :
      (chat_room_id : String) (limit : ℕ) (db : Db) {messages : List Message} {db' : Db}
      → get_messages sql chat_room_id limit db ≡ (ok messages, db')
      → (q : Message → Bool)
      → count_p q messages ≤ count_p (λ r. r.chat_room_id == chat_room_id && q r) db.messages
  unfolding get_messages
  get_messages-of_room chat_room_id limit db {messages} h q =
      let (rows, db1, e, k) = bind_ok _ _ h in
      let in_room : Message → Bool = λ r. r.chat_room_id == chat_room_id in
      omega (
        arith,
        ap (count_p q) (sym (pure_ok k).0),
        count_p-sort_by (λ (r : Message). r.timestamp) q (take (limit_of limit) (backwards rows)),
        count_p-take q (limit_of limit) (backwards rows),
        count_p-backwards q rows,
        ap (count_p q) (find_ordered_ok sql message_table db in_room (λ r. r.timestamp) e).0,
        count_p-sorted sql (λ r. r.timestamp) in_room db.messages q,
      )

  -- What of a room and a time is saved: the rows of that key, and those that are as given.
  abbrev pub is_at : String → ℕ → Message → Bool
  is_at room t r = r.chat_room_id == room && r.timestamp == t

  abbrev pub is_saved : String → String → String → String → String → ℕ → Message → Bool
  is_saved id room sender ciphertext nonce t r =
      is_at room t r
      && (r.message_id == id
          && r.sender_id == sender
          && r.ciphertext == ciphertext
          && r.nonce == nonce)

  is_saved_refl :
      (id room sender ciphertext nonce : String) (t : ℕ) (r : Message)
      → is_at room t r ≡ true
      → is_saved id room sender ciphertext nonce t
          (record r { message_id = id; sender_id = sender; ciphertext = ciphertext; nonce = nonce })
        ≡ true
  is_saved_refl id room sender ciphertext nonce t r h =
      rw (h, ==_refl id, ==_refl sender, ==_refl ciphertext, ==_refl nonce) refl

  saved_lem :
      (room : String) (t : ℕ) (q : Message → Bool) (f : Message → Message) (new : Message)
      (rows : List Message)
      → ((r : Message) → is_at room t r ≡ true → q (f r) ≡ true)
      → ((r : Message) → is_at room t r ≡ false → q r ≡ false)
      → q new ≡ true
      → count_p (is_at room t) rows ≤ 1
      → count_p q (
          if ltb 0 (count_p (is_at room t) rows)
          then sql.update Message (is_at room t) f rows
          else sql.insert Message new rows)
        ≡ 1
  saved_lem room t q f new rows same other is_new one =
      elim (Bool-cases (ltb 0 (count_p (is_at room t) rows))) [
        | inl there ↦ rw there (
            omega (
              arith,
              sql.count_p-update Message (is_at room t) f q rows,
              count_p-congr (λ r. if is_at room t r then q (f r) else q r) (is_at room t) rows
                  (λ r. elim (Bool-cases (is_at room t r)) [
                    | inl y ↦ rw y (same r y)
                    | inr n ↦ rw n (other r n)
                  ]),
              present there,
              one,
            ))
        | inr free ↦ rw free (
            omega (
              arith,
              sql.count_p-insert Message new q rows,
              ap (λ b. if◌then◌else◌ {A = ℕ} b 1 0) is_new,
              count_p_mono q (is_at room t) rows (λ r y. elim (Bool-cases (is_at room t r)) [
                | inl k ↦ k
                | inr k ↦ absurd (ground (arith, other r k))
              ]),
              absent free,
            ))
      ]
    where
      present : ltb 0 (count_p (is_at room t) rows) ≡ true → 0 < count_p (is_at room t) rows
      present e = ground arith

      absent : ltb 0 (count_p (is_at room t) rows) ≡ false → count_p (is_at room t) rows ≡ 0
      absent e = ground arith

  -- After `SaveMessage` succeeds, exactly one row has the room and time of the message, and it is
  -- as given, if at most one row had them before.
  pub save_message-saved :
      (id room sender ciphertext nonce : String) (t : ℕ) (db : Db) {db' : Db}
      → count_p (is_at room t) db.messages ≤ 1
      → save_message sql id room sender ciphertext nonce t db ≡ (ok tt, db')
      → (count_p (is_at room t) db'.messages ≡ 1)
        × (count_p (is_saved id room sender ciphertext nonce t) db'.messages ≡ 1)
  unfolding save_message create_or_update
  save_message-saved id room sender ciphertext nonce t db {db'} one h =
      let new : Message = record {
        chat_room_id = room;
        timestamp = t;
        message_id = id;
        sender_id = sender;
        ciphertext = ciphertext;
        nonce = nonce;
      } in
      let f : Message → Message = λ r. record r {
        message_id = id;
        sender_id = sender;
        ciphertext = ciphertext;
        nonce = nonce;
      } in
      let e = statement_ok sql _ db h in
      let rows : db'.messages ≡ (
          if ltb 0 (count_p (is_at room t) db.messages)
          then sql.update Message (is_at room t) f db.messages
          else sql.insert Message new db.messages) =
        cc e in
      let new_at : is_at room t new ≡ true = rw (==_refl room, ==_refl t) refl in
      (
        ap (count_p (is_at room t)) rows
            ∙ saved_lem room t (is_at room t) f new db.messages (λ r y. y) (λ r n. n) new_at one,
        ap (count_p (is_saved id room sender ciphertext nonce t)) rows
            ∙ saved_lem room t (is_saved id room sender ciphertext nonce t) f new db.messages
                (λ r y. is_saved_refl id room sender ciphertext nonce t r y) (λ r n. rw n refl)
                (is_saved_refl id room sender ciphertext nonce t new new_at) one,
      )
