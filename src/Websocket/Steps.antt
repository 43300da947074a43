-- ===== src/Websocket/Steps.antt =====
-- internal/websocket: the runs of the hub. A step is what one goroutine does without a pause. A
-- goroutine that is not interrupted does a case of `run` with what leads to it, or handles a frame,
-- in one step. One that is interrupted does it in several: it asks for members or reads the clock,
-- sends on a connection that it looked up at any time before, and starts goroutines. So do HTTP
-- handlers, whose sends are the same calls. A query for members and the storing of its answer are
-- one step.
use vibe_net_backend.Base.{ℕ, ◌<◌, true, Option, List, ◌∷◌, ◌++◌, ◌≡◌, ℕ_eq}
use vibe_net_backend.Websocket.Frames.{Frame, InboundMessage}
use vibe_net_backend.Websocket.Hub.{
  Hub, World, Task, run_task, new_client, new_hub, end_read_pump, take_payload, invalidate_group,
  offer, broadcast, group_member_ids, tick, start,
}
use vibe_net_backend.Websocket.Client.{handle_message}

pub data Step (world : World) : Hub → Hub → Type 0 where
  connects : (h : Hub) (u : ℕ) → Step world h (new_client u h)
  receives :
      (h : Hub) (a : ℕ) (inbound : Option InboundMessage)
      → a < h.made
      → (h.heap a).reading ≡ true
      → Step world h (handle_message world a inbound h).1
  ends :
      (h : Hub) (a : ℕ) → a < h.made → (h.heap a).reading ≡ true → Step world h (end_read_pump a h)
  writes : (h : Hub) (a : ℕ) → Step world h (take_payload a h)
  runs :
      (h : Hub) (before after : List Task) (t : Task)
      → h.tasks ≡ before ++ t ∷ after
      → Step world h (run_task world t (record h { tasks = before ++ after }))
  -- `client.send <- payload` of `DeliverToUser`, `DeliverToGroup` or `trySend`, whoever calls it.
  sends : (h : Hub) (a : ℕ) (payload : Frame) → a < h.made → Step world h (offer a payload h).1
  broadcasts : (h : Hub) (payload : Frame) → Step world h (broadcast payload h)
  asks : (h : Hub) (g : ℕ) → Step world h (group_member_ids world g h).1
  ticks : (h : Hub) → Step world h (tick h)
  spawns : (h : Hub) (t : Task) → Step world h (start t h)
  invalidates : (h : Hub) (g : ℕ) → Step world h (invalidate_group g h)

pub data Reach (world : World) : Hub → Type 0 where
  starts : Reach world new_hub
  later : {h h' : Hub} → Reach world h → Step world h h' → Reach world h'
