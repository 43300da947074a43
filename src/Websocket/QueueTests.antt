-- ===== src/Websocket/QueueTests.antt =====
-- The statements about the queue of a connection, at a hub with one.
use vibe_net_backend.Base.{◌≤◌, false, true, none, List, [], ◌∷◌, ◌++◌, ◌≡◌, refl, arith}
use vibe_net_backend.Websocket.Frames.{Frame, presence_update, frame_presence_update}
use vibe_net_backend.Websocket.Hub.{Hub, new_hub, new_client, offer, register}
use vibe_net_backend.Websocket.Fifo.{
  Event, offered, taken, acts, gets_all, admits_all, turns, acts-conserved, acts-written,
}

abbrev hint : Frame
hint = presence_update (record {
  frame_type = frame_presence_update;
  user_id = "2";
  is_online = true;
  last_seen = none;
})

abbrev one_client : Hub
one_client = new_client 1 new_hub

abbrev events : List Event
events = offered 0 hint ∷ taken 0 ∷ offered 0 hint ∷ taken 1 ∷ []

abbrev waiting : Hub
waiting = (offer 0 hint one_client).1

is_open : (one_client.heap 0).send_closed ≡ false
unfolding new_client register
is_open = refl

acts-conserved_example :
    gets_all 0 events one_client ++ ((acts events one_client).heap 0).send
    ≡ (one_client.heap 0).send ++ admits_all 0 events (one_client.heap 0).send
acts-conserved_example = acts-conserved 0 events one_client is_open

waits : (waiting.heap 0).send ≡ (hint ∷ []) ++ []
unfolding new_client register offer
waits = refl

still_open : (waiting.heap 0).send_closed ≡ false
unfolding new_client register offer
still_open = refl

enough : 1 ≤ turns 0 events
unfolding turns
enough = omega arith

acts-written_example : (more : List Frame) × (gets_all 0 events waiting ≡ (hint ∷ []) ++ more)
acts-written_example = acts-written 0 events waiting (hint ∷ []) [] still_open waits enough
