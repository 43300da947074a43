-- ===== src/Db/Messages.antt =====
-- internal/db/messages.go: the history of a room.
pub mod History
use vibe_net_backend.Base.{
  ℕ, ◌^◌, ◌≤◌, String, Bool, true, false, ◌||◌, ◌&&◌, not, List, [], ◌∷◌, ◌≡◌, refl, sym, ◌∙◌, ap,
  subst, if◌then◌else◌, ◌==◌, ==_iff, ==_refl, ℕ_eq, String_eq, leb, take, backwards, sort_by,
  length, length-take, length-sort_by, sort_by-IsOrdered, IsOrdered, arith, Bool-cases, inl, inr,
  count_p, count_p_mono, ltb,
}
use vibe_net_backend.Models.{Message}
use vibe_net_backend.Db.Sql.{Sql}
use vibe_net_backend.Db.Store.{
  M, Db, ok, Result, ◌>>=◌, bind, pure, find_ordered, create_or_update, message_table,
}
use vibe_net_backend.Db.Store.Runs.{bind_ok, pure_ok, statement_ok}

-- `if limit <= 0 { limit = 50 }`, for the bits of an `int32`.
unfoldable pub limit_of : ℕ → ℕ
limit_of limit = if limit == 0 || leb (2 ^ 31) limit then 50 else limit

module _ (sql : Sql) where
  unfoldable pub save_message : String → String → String → String → String → ℕ → M (Unit {0})
  save_message message_id chat_room_id sender_id ciphertext nonce timestamp =
      create_or_update sql message_table
        (record {
          chat_room_id = chat_room_id;
          timestamp = timestamp;
          message_id = message_id;
          sender_id = sender_id;
          ciphertext = ciphertext;
          nonce = nonce;
        })
        (λ r. record r {
          message_id = message_id;
          sender_id = sender_id;
          ciphertext = ciphertext;
          nonce = nonce;
        })

  -- ORDER BY timestamp DESC LIMIT n, and then in ascending order.
  unfoldable pub get_messages : String → ℕ → M (List Message)
  unfolding limit_of
  get_messages chat_room_id limit = do
    rows ← find_ordered sql message_table (λ r. r.chat_room_id == chat_room_id) (λ r. r.timestamp)
    pure (sort_by (λ (r : Message). r.timestamp) (take (limit_of limit) (backwards rows)))
