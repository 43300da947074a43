-- ===== src/Websocket/Frames.antt =====
-- internal/websocket/client.go: the frames. JSON is left out: a payload is the frame that it
-- encodes, and an integer of 64 bits is the number that its bits are.
use vibe_net_backend.Base.{ℕ, String, Bool, Option, List}

abbrev pub send_buffer_size : ℕ
send_buffer_size = 256

abbrev pub frame_message : String
frame_message = "message"

abbrev pub frame_ack : String
frame_ack = "ack"

abbrev pub frame_read : String
frame_read = "read"

abbrev pub frame_presence : String
frame_presence = "presence"

abbrev pub frame_typing : String
frame_typing = "typing"

abbrev pub frame_presence_update : String
frame_presence_update = "presence_update"

abbrev pub frame_pin : String
frame_pin = "pin_message"

abbrev pub frame_unpin : String
frame_unpin = "unpin_message"

pub record InboundMessage : Type 0 where
  pub frame_type : String
  pub message_id : String
  pub receiver_id : String
  pub group_id : String
  pub chat_room_id : String
  pub ciphertext : String
  pub nonce : String
  pub timestamp : ℕ
  pub user_ids : List String
  pub is_typing : Bool

pub record OutboundMessage : Type 0 where
  pub frame_type : String
  pub message_id : String
  pub sender_id : String
  pub group_id : String
  pub chat_room_id : String
  pub ciphertext : String
  pub nonce : String
  pub timestamp : ℕ

pub record AckFrame : Type 0 where
  pub frame_type : String
  pub message_id : String
  pub chat_room_id : String
  pub delivered : Bool

pub record ReadFrame : Type 0 where
  pub frame_type : String
  pub chat_room_id : String
  pub reader_id : String

pub record PresenceFrame : Type 0 where
  pub frame_type : String
  pub online : List String

pub record TypingFrame : Type 0 where
  pub frame_type : String
  pub sender_id : String
  pub group_id : String
  pub chat_room_id : String
  pub is_typing : Bool

pub record PinFrame : Type 0 where
  pub frame_type : String
  pub message_id : String
  pub group_id : String
  pub chat_room_id : String

pub record PresenceUpdateFrame : Type 0 where
  pub frame_type : String
  pub user_id : String
  pub is_online : Bool
  pub last_seen : Option ℕ

-- What a payload encodes.
pub data Frame : Type 0 where
  outbound : OutboundMessage → Frame
  ack : AckFrame → Frame
  read : ReadFrame → Frame
  presence : PresenceFrame → Frame
  typing : TypingFrame → Frame
  pin : PinFrame → Frame
  presence_update : PresenceUpdateFrame → Frame
