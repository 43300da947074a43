-- ===== src/Websocket/Tests.antt =====
-- The statements about the hub and its connections at a small world.
use Prim.Native.String.{◌++◌}
use vibe_net_backend.Base.{
  ℕ, zero, suc, ◌+◌, ◌<◌, String, true, false, Option, none, some, List, [], ◌∷◌, ◌≡◌, ◌≢◌, ==_iff,
  ℕ_eq, String_eq, lookup, refl, ap, arith,
}
use vibe_net_backend.Websocket.Frames.{
  Frame, InboundMessage, frame_typing, frame_message, frame_read, frame_presence,
}
use vibe_net_backend.Websocket.Hub.{
  Hub, World, save_message, record_dm_participants, new_hub, new_client, end_read_pump, contains,
  is_group_member_cached, group_member_ids, cached_member_ids, fetch_member_ids, register,
}
use vibe_net_backend.Websocket.Client.{handle_message, handle_chat_message, typing_frame}
use vibe_net_backend.Websocket.Steps.{Reach, starts, later, connects}
use vibe_net_backend.Websocket.Sound.{IsSound}
use vibe_net_backend.Websocket.Running.{Reach-IsSound}
use vibe_net_backend.Websocket.Honesty.{Speaks, handle_message-Speaks}
use vibe_net_backend.Websocket.Cache.{IsRecent, IsIdle}
use vibe_net_backend.Websocket.Freshness.{is_group_member_cached-IsRecent}
use vibe_net_backend.Base.{◌⊎◌}
use vibe_net_backend.Websocket.Hub.{deliver_to_user}
use vibe_net_backend.Websocket.Client.{handle_group_chat_message}
use vibe_net_backend.Websocket.Delivery.{IsQueued, deliver_to_user-IsQueued}
use vibe_net_backend.Websocket.Routing.{new_client-end_read_pump}
use vibe_net_backend.Websocket.Saving.{handle_group_chat_message-saved}
use vibe_net_backend.Websocket.Posting.{IsNamed, handle_message-IsIdle, handle_chat_message-saved}

abbrev unary : ℕ → String
unary zero = ""
unary (suc n) = String.◌∷◌ "1" (unary n)

abbrev succ_of : Option ℕ → Option ℕ
succ_of none = none
succ_of (some n) = some (suc n)

abbrev read_unary : String → Option ℕ
read_unary String.[] = some 0
read_unary (String.◌∷◌ c s) = succ_of (read_unary s)

read_unary-unary : (u : ℕ) → read_unary (unary u) ≡ some u
read_unary-unary zero = refl
read_unary-unary (suc n) = ap succ_of (read_unary-unary n)

-- Users 1 and 2 are the members of every group.
abbrev small_world : World
small_world = record {
  clock = λ n. 1000 + n;
  answer = λ n g. some (1 ∷ 2 ∷ []);
  new_string = λ n. "id";
  has_postgres = true;
  parse_uuid = read_unary;
  uuid_string = unary;
  parse_uuid-uuid_string = read_unary-unary;
}

abbrev one_client : Hub
one_client = new_client 1 new_hub

one_client_reached : Reach small_world one_client
one_client_reached = later starts (connects new_hub 1)

Reach-IsSound_example : IsSound one_client
Reach-IsSound_example = Reach-IsSound small_world one_client_reached

abbrev composing : InboundMessage
composing = record {
  frame_type = frame_typing;
  message_id = "m";
  receiver_id = "11";
  group_id = "1111111";
  chat_room_id = "room";
  ciphertext = "text";
  nonce = "nonce";
  timestamp = 5;
  user_ids = [];
  is_typing = true;
}

handle_message-Speaks_example :
    Speaks small_world
      (one_client.heap 0).user_id
      one_client
      (handle_message small_world 0 (some composing) one_client).1
handle_message-Speaks_example = handle_message-Speaks small_world 0 (some composing) one_client

passes : (is_group_member_cached small_world 7 1 new_hub).0 ≡ true
unfolding is_group_member_cached group_member_ids cached_member_ids fetch_member_ids
passes = refl

is_group_member_cached-IsRecent_example :
    (ids : List ℕ) × IsRecent small_world 7 new_hub.events
      (is_group_member_cached small_world 7 1 new_hub).1.events
      ids
    × (contains 1 ids ≡ true)
is_group_member_cached-IsRecent_example =
    is_group_member_cached-IsRecent small_world 7 1 refl (λ i j le. omega (arith, le)) starts passes

abbrev hint : Frame
hint = typing_frame small_world 1 "" "room" composing

user_one : (one_client.heap 0).user_id ≡ 1
unfolding new_client register
user_one = refl

one_made : 0 < one_client.made
unfolding new_client register
one_made = omega arith

new_client-end_read_pump_example :
    lookup 1 (end_read_pump 0 (new_client 1 one_client)).clients ≡ some one_client.made
new_client-end_read_pump_example = new_client-end_read_pump 1 0 one_client one_made

-- User 3 is in no group.
abbrev outsider : Hub
outsider = new_client 3 new_hub

kept_out : (is_group_member_cached small_world 7 (outsider.heap 0).user_id outsider).0 ≡ false
unfolding is_group_member_cached group_member_ids cached_member_ids fetch_member_ids new_client
    register
kept_out = refl

typing-ne-read : frame_typing ≢ frame_read
typing-ne-read e = ground (arith, ==_iff frame_typing frame_read)

typing-ne-presence : frame_typing ≢ frame_presence
typing-ne-presence e = ground (arith, ==_iff frame_typing frame_presence)

handle_message-IsIdle_example :
    IsIdle outsider (handle_message small_world 0 (some composing) outsider).1
handle_message-IsIdle_example =
    handle_message-IsIdle small_world 0 7 composing outsider refl refl kept_out typing-ne-read
      typing-ne-presence

-- A direct message to user 2 whose frame names the room of group 7.
abbrev stray : InboundMessage
stray = record composing {
  frame_type = frame_message;
  group_id = "";
  chat_room_id = "group:1111111";
}

named :
    (stray.receiver_id ≢ "")
    × (stray.chat_room_id ≢ "")
    × (stray.ciphertext ≢ "")
    × (stray.nonce ≢ "")
named = (
  (λ e. ground (arith, ==_iff stray.receiver_id "")),
  (λ e. ground (arith, ==_iff stray.chat_room_id "")),
  (λ e. ground (arith, ==_iff stray.ciphertext "")),
  λ e. ground (arith, ==_iff stray.nonce ""),
)

handle_chat_message-saved_example :
    (id : String) × (timestamp : ℕ) × IsNamed stray id timestamp
    × ((handle_chat_message small_world 0 stray outsider).1.tasks
        ≡ record_dm_participants "group:1111111" (outsider.heap 0).user_id 2
          ∷ save_message (record {
            chat_room_id = "group:1111111";
            timestamp = timestamp;
            message_id = id;
            sender_id = small_world.uuid_string (outsider.heap 0).user_id;
            ciphertext = stray.ciphertext;
            nonce = stray.nonce;
          })
          ∷ outsider.tasks)
handle_chat_message-saved_example =
    handle_chat_message-saved small_world 0 2 stray outsider refl named refl

deliver_to_user-IsQueued_example :
    (((deliver_to_user 1 hint one_client).0 ≡ true)
      × ((a : ℕ) × (lookup 1 one_client.clients ≡ some a)
          × IsQueued a hint one_client (deliver_to_user 1 hint one_client).1))
    ⊎ (((deliver_to_user 1 hint one_client).0 ≡ false)
        × ((deliver_to_user 1 hint one_client).1 ≡ one_client))
deliver_to_user-IsQueued_example =
    deliver_to_user-IsQueued 1 hint one_client (Reach-IsSound small_world one_client_reached)

member_one : (is_group_member_cached small_world 7 (one_client.heap 0).user_id one_client).0 ≡ true
unfolding is_group_member_cached group_member_ids cached_member_ids fetch_member_ids new_client
    register
member_one = refl

text-ne-empty : (composing.ciphertext ≢ "") × (composing.nonce ≢ "")
text-ne-empty = (
  (λ e. ground (arith, ==_iff composing.ciphertext "")),
  λ e. ground (arith, ==_iff composing.nonce ""),
)

handle_group_chat_message-saved_example :
    (id : String) × (timestamp : ℕ) × IsNamed composing id timestamp
    × ((handle_group_chat_message small_world 0 composing one_client).1.tasks
        ≡ save_message (record {
          chat_room_id = "group:" ++ small_world.uuid_string 7;
          timestamp = timestamp;
          message_id = id;
          sender_id = small_world.uuid_string (one_client.heap 0).user_id;
          ciphertext = composing.ciphertext;
          nonce = composing.nonce;
        })
          ∷ one_client.tasks)
handle_group_chat_message-saved_example =
    handle_group_chat_message-saved small_world 0 7 composing one_client text-ne-empty refl
      member_one
