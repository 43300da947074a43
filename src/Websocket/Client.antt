-- ===== src/Websocket/Client.antt =====
-- internal/websocket/client.go: what a connection does with an inbound frame. `a` is the number of
-- the connection that the frame came in on.
use vibe_net_backend.Base.{
  ℕ, String, Bool, not, ◌||◌, Option, none, some, List, [], ◌∷◌, if◌then◌else◌, ◌==◌, ℕ_eq,
  String_eq, ltb,
}
use Prim.Native.String.{◌++◌}
use vibe_net_backend.Models.{Message}
use vibe_net_backend.Websocket.Frames.{
  InboundMessage, Frame, outbound, ack, read, presence, typing, pin, frame_message, frame_ack,
  frame_read, frame_presence, frame_typing, frame_pin, frame_unpin,
}
use vibe_net_backend.Websocket.Hub.{
  World, Hub, Task, save_message, record_dm_participants, tick, start, offer, deliver_to_user,
  deliver_to_group, is_online, is_group_member_cached,
}

-- A handler works on the hub.
abbrev pub H {ℓ} : Type ℓ → Type ℓ
H A = Hub → A × Hub

infixl 5 ◌>>=◌ ◌>>◌
abbrev pub ◌>>=◌ {ℓ κ} : {A : Type ℓ} {B : Type κ} → H A → (A → H B) → H B
◌>>=◌ m f h = let (a, h1) = m h in f a h1

abbrev pub ◌>>◌ {ℓ} : {B : Type ℓ} → H (Unit {0}) → H B → H B
m >> k = m >>= λ _. k

abbrev pub pure {ℓ} : {A : Type ℓ} → A → H A
pure a h = (a, h)

-- An early `return`.
abbrev pub done : H (Unit {0})
done = pure tt

abbrev pub user_of : ℕ → H ℕ
user_of a h = ((h.heap a).user_id, h)

-- What the hub is asked without changing it.
abbrev pub query {ℓ} : {A : Type ℓ} → (Hub → A) → H A
query q h = (q h, h)

-- `go …`
abbrev pub go : Task → H (Unit {0})
go t h = (tt, start t h)

-- `trySend`
unfoldable pub try_send : ℕ → Frame → H (Unit {0})
try_send a payload h = (tt, (offer a payload h).1)

module _ (world : World) where
  -- `if t == 0 { t = time.Now().UnixMilli() }`
  unfoldable pub or_now : ℕ → H ℕ
  or_now t h = if t == 0 then (world.clock h.events, tick h) else (t, h)

  -- `if id == "" { id = uuid.NewString() }`
  unfoldable pub or_new_string : String → H String
  or_new_string id h = if id == "" then (world.new_string h.events, tick h) else (id, h)

  unfoldable pub group_chat_room_id : ℕ → String
  group_chat_room_id g = "group:" ++ world.uuid_string g

  abbrev pub typing_frame : ℕ → String → String → InboundMessage → Frame
  typing_frame me group_id room inbound = typing (record {
    frame_type = frame_typing;
    sender_id = world.uuid_string me;
    group_id = group_id;
    chat_room_id = room;
    is_typing = inbound.is_typing;
  })

  unfoldable pub handle_group_typing : ℕ → InboundMessage → H (Unit {0})
  handle_group_typing a inbound = elim (world.parse_uuid inbound.group_id) [
    | none ↦ done
    | some g ↦ do
      me ← user_of a
      member ← is_group_member_cached world g me
      if not member then done else (do
        _ ←
            deliver_to_group world g me
              (typing_frame me inbound.group_id (group_chat_room_id g) inbound)
        done)
  ]

  unfoldable pub handle_typing : ℕ → InboundMessage → H (Unit {0})
  handle_typing a inbound =
      if not (inbound.group_id == "")
      then handle_group_typing a inbound
      else if inbound.receiver_id == "" || inbound.chat_room_id == ""
      then done
      else elim (world.parse_uuid inbound.receiver_id) [
        | none ↦ done
        | some receiver ↦ do
          me ← user_of a
          _ ← deliver_to_user receiver (typing_frame me "" inbound.chat_room_id inbound)
          done
      ]

  abbrev pub pin_frame : String → String → String → InboundMessage → Frame
  pin_frame frame_type group_id room inbound = pin (record {
    frame_type = frame_type;
    message_id = inbound.message_id;
    group_id = group_id;
    chat_room_id = room;
  })

  unfoldable pub handle_group_pin_toggle : ℕ → InboundMessage → String → H (Unit {0})
  handle_group_pin_toggle a inbound frame_type = elim (world.parse_uuid inbound.group_id) [
    | none ↦ done
    | some g ↦ do
      me ← user_of a
      member ← is_group_member_cached world g me
      if not member then done else (do
        _ ←
            deliver_to_group world g me
              (pin_frame frame_type inbound.group_id (group_chat_room_id g) inbound)
        done)
  ]

  unfoldable pub handle_pin_toggle : ℕ → InboundMessage → String → H (Unit {0})
  handle_pin_toggle a inbound frame_type =
      if inbound.message_id == ""
      then done
      else if not (inbound.group_id == "")
      then handle_group_pin_toggle a inbound frame_type
      else if inbound.receiver_id == "" || inbound.chat_room_id == ""
      then done
      else elim (world.parse_uuid inbound.receiver_id) [
        | none ↦ done
        | some receiver ↦ do
          _ ← deliver_to_user receiver (pin_frame frame_type "" inbound.chat_room_id inbound)
          done
      ]

  -- Of the identifiers that were asked for, those that name a connected user.
  unfoldable pub online_of : List String → Hub → List String
  online_of [] h = []
  online_of (id ∷ ids) h =
      let rest = online_of ids h in
      elim (world.parse_uuid id) [
        | none ↦ rest
        | some uid ↦ if is_online uid h then id ∷ rest else rest
      ]

  unfoldable pub handle_presence : ℕ → InboundMessage → H (Unit {0})
  handle_presence a inbound = do
    online ← query (online_of inbound.user_ids)
    try_send a (presence (record { frame_type = frame_presence; online = online }))

  abbrev pub read_receipt : ℕ → InboundMessage → Frame
  read_receipt me inbound = read (record {
    frame_type = frame_read;
    chat_room_id = inbound.chat_room_id;
    reader_id = world.uuid_string me;
  })

  unfoldable pub handle_read_receipt : ℕ → InboundMessage → H (Unit {0})
  handle_read_receipt a inbound =
      if inbound.receiver_id == "" || inbound.chat_room_id == ""
      then done
      else elim (world.parse_uuid inbound.receiver_id) [
        | none ↦ done
        | some sender ↦ do
          me ← user_of a
          _ ← deliver_to_user sender (
              read (record {
                frame_type = frame_read;
                chat_room_id = inbound.chat_room_id;
                reader_id = world.uuid_string me;
              }))
          done
      ]

  abbrev pub outbound_message : ℕ → String → String → String → ℕ → InboundMessage → Frame
  outbound_message me group_id room message_id timestamp inbound = outbound (record {
    frame_type = frame_message;
    message_id = message_id;
    sender_id = world.uuid_string me;
    group_id = group_id;
    chat_room_id = room;
    ciphertext = inbound.ciphertext;
    nonce = inbound.nonce;
    timestamp = timestamp;
  })

  abbrev pub ack_frame : String → String → Bool → Frame
  ack_frame message_id room delivered = ack (record {
    frame_type = frame_ack;
    message_id = message_id;
    chat_room_id = room;
    delivered = delivered;
  })

  -- The row that `SaveMessage` is given.
  abbrev pub saved_message : ℕ → String → String → ℕ → InboundMessage → Message
  saved_message me room message_id timestamp inbound = record {
    chat_room_id = room;
    timestamp = timestamp;
    message_id = message_id;
    sender_id = world.uuid_string me;
    ciphertext = inbound.ciphertext;
    nonce = inbound.nonce;
  }

  unfoldable pub handle_group_chat_message : ℕ → InboundMessage → H (Unit {0})
  handle_group_chat_message a inbound =
      if inbound.ciphertext == "" || inbound.nonce == ""
      then done
      else elim (world.parse_uuid inbound.group_id) [
        | none ↦ done
        | some g ↦ do
          me ← user_of a
          member ← is_group_member_cached world g me
          if not member then done else (do
            timestamp ← or_now inbound.timestamp
            message_id ← or_new_string inbound.message_id
            delivered ← deliver_to_group world g me (
                outbound_message me inbound.group_id (group_chat_room_id g) message_id timestamp
                  inbound)
            try_send a (ack_frame message_id (group_chat_room_id g) (ltb 0 delivered))
            go (
                save_message
                  (saved_message me (group_chat_room_id g) message_id timestamp inbound)))
      ]

  unfoldable pub handle_chat_message : ℕ → InboundMessage → H (Unit {0})
  handle_chat_message a inbound =
      if not (inbound.group_id == "")
      then handle_group_chat_message a inbound
      else if inbound.receiver_id == ""
          || inbound.chat_room_id == ""
          || inbound.ciphertext == ""
          || inbound.nonce == ""
      then done
      else elim (world.parse_uuid inbound.receiver_id) [
        | none ↦ done
        | some receiver ↦ do
          timestamp ← or_now inbound.timestamp
          message_id ← or_new_string inbound.message_id
          me ← user_of a
          delivered ←
              deliver_to_user receiver
                (outbound_message me "" inbound.chat_room_id message_id timestamp inbound)
          try_send a (ack_frame message_id inbound.chat_room_id delivered)
          go (save_message (saved_message me inbound.chat_room_id message_id timestamp inbound))
          go (record_dm_participants inbound.chat_room_id me receiver)
      ]

  -- `none` is a frame that is not the JSON of an inbound message.
  unfoldable pub handle_message : ℕ → Option InboundMessage → H (Unit {0})
  handle_message a none = done
  handle_message a (some inbound) =
      if inbound.frame_type == frame_read
      then handle_read_receipt a inbound
      else if inbound.frame_type == frame_presence
      then handle_presence a inbound
      else if inbound.frame_type == frame_typing
      then handle_typing a inbound
      else if inbound.frame_type == frame_pin || inbound.frame_type == frame_unpin
      then handle_pin_toggle a inbound inbound.frame_type
      else handle_chat_message a inbound
