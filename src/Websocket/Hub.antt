-- ===== src/Websocket/Hub.antt =====
-- internal/websocket/hub.go: the registered clients, the delivery of payloads and the cached
-- member lists. A connection is known by its number, which stands for the pointer to its `Client`.
use vibe_net_backend.Base.{
  ℕ, suc, ◌+◌, String, Bool, true, false, not, Option, none, some, List, [], ◌∷◌, ◌≡◌,
  if◌then◌else◌, ◌==◌, ℕ_eq, ltb, length, lookup, erase, store,
}
use vibe_net_backend.Models.{Message}
use vibe_net_backend.Websocket.Frames.{
  Frame, presence_update, frame_presence_update, send_buffer_size,
}

-- What the package uses of other code. The n-th of the events that come from outside is a reading
-- of the clock, in milliseconds, or the answer to a query for the members of a group, where `none`
-- is an error, or a new identifier.
pub record World : Type 0 where
  pub clock : ℕ → ℕ
  pub answer : ℕ → ℕ → Option (List ℕ)
  pub new_string : ℕ → String
  -- The hub has a database: `h.postgres != nil`.
  pub has_postgres : Bool
  -- `uuid.Parse`, `none` for an error, and `String` of an identifier.
  pub parse_uuid : String → Option ℕ
  pub uuid_string : ℕ → String
  pub parse_uuid-uuid_string : (u : ℕ) → parse_uuid (uuid_string u) ≡ some u

-- `send` holds the queued payloads, the next one first. `reading` says that `readPump` has not
-- ended.
pub record Client : Type 0 where
  pub user_id : ℕ
  pub send : List Frame
  pub send_closed : Bool
  pub conn_closed : Bool
  pub reading : Bool

pub record GroupMembersEntry : Type 0 where
  pub member_ids : List ℕ
  pub expires_at : ℕ

-- A goroutine that was started and has not run.
pub data Task : Type 0 where
  announce_online handle_disconnect : ℕ → Task
  save_message : Message → Task
  record_dm_participants : String → ℕ → ℕ → Task

-- `heap` has the client of each number below `made`. A send on a closed channel is a panic:
-- `crashed`. It ends the program, unless an HTTP handler sends.
pub record Hub : Type 0 where
  pub clients : List (ℕ × ℕ)
  pub heap : ℕ → Client
  pub made : ℕ
  pub group_members : List (ℕ × GroupMembersEntry)
  pub events : ℕ
  pub tasks : List Task
  pub crashed : Bool

abbrev pub group_members_ttl : ℕ
group_members_ttl = 30000

abbrev pub tick : Hub → Hub
tick h = record h { events = suc h.events }

abbrev pub start : Task → Hub → Hub
start t h = record h { tasks = t ∷ h.tasks }

abbrev pub update_client : ℕ → (Client → Client) → Hub → Hub
update_client a f h = record h { heap = λ b. if b == a then f (h.heap b) else h.heap b }

abbrev pub enqueue : List Frame → Frame → List Frame
enqueue [] payload = payload ∷ []
enqueue (f ∷ queue) payload = f ∷ enqueue queue payload

-- `select { case client.send <- payload: … default: … }`, and whether the first case was taken.
unfoldable pub offer : ℕ → Frame → Hub → Bool × Hub
offer a payload h =
    if (h.heap a).send_closed
    then (false, record h { crashed = true })
    else if ltb (length (h.heap a).send) send_buffer_size
    then (true, update_client a (λ c. record c { send = enqueue c.send payload }) h)
    else (false, h)

abbrev pub close_existing : Option ℕ → Hub → Hub
close_existing none h = h
close_existing (some existing) h = update_client existing (λ c. record c { conn_closed = true }) h

-- The two cases of `run`.
unfoldable pub register : ℕ → Hub → Hub
register a h =
    let u = (h.heap a).user_id in
    let closed = close_existing (lookup u h.clients) h in
    start (announce_online u) (record closed { clients = store u a closed.clients })

unfoldable pub unregister : ℕ → Hub → Hub
unregister a h =
    let u = (h.heap a).user_id in
    elim (lookup u h.clients) [
      | none ↦ h
      | some current ↦
          if current == a
          then start (handle_disconnect u) (
              update_client a (λ c. record c { send_closed = true })
                (record h { clients = erase u h.clients }))
          else h
    ]

unfoldable pub deliver_to_user : ℕ → Frame → Hub → Bool × Hub
deliver_to_user receiver payload h = elim (lookup receiver h.clients) [
  | none ↦ (false, h)
  | some a ↦ offer a payload h
]

-- The loop of `Broadcast`, over the entries that are left.
unfoldable pub offer_each : Frame → List (ℕ × ℕ) → Hub → Hub
offer_each payload [] h = h
offer_each payload ((u, a) ∷ rest) h = offer_each payload rest (offer a payload h).1

unfoldable pub broadcast : Frame → Hub → Hub
unfolding offer_each
broadcast payload h = offer_each payload h.clients h

unfoldable pub is_online : ℕ → Hub → Bool
is_online u h = elim (lookup u h.clients) [ none ↦ false | some a ↦ true ]

unfoldable pub invalidate_group : ℕ → Hub → Hub
invalidate_group g h = record h { group_members = erase g h.group_members }

abbrev pub contains : ℕ → List ℕ → Bool
contains u [] = false
contains u (id ∷ ids) = if id == u then true else contains u ids

-- The loop of `DeliverToGroup`, over the members that are left.
unfoldable pub fan_out : ℕ → Frame → List ℕ → Hub → ℕ × Hub
fan_out sender payload [] h = (0, h)
fan_out sender payload (m ∷ members) h =
    if m == sender then fan_out sender payload members h else elim (lookup m h.clients) [
      | none ↦ fan_out sender payload members h
      | some a ↦
          let (queued, h1) = offer a payload h in
          let (delivered, h2) = fan_out sender payload members h1 in
          ((if queued then suc delivered else delivered), h2)
    ]

module _ (world : World) where
  -- `GroupMemberIDs` when the cache does not serve.
  unfoldable pub fetch_member_ids : ℕ → Hub → Option (List ℕ) × Hub
  fetch_member_ids g h = elim (world.answer h.events g) [
    | none ↦ (none, tick h)
    | some ids ↦ (
      some ids,
      record h {
        events = suc (suc h.events);
        group_members =
            store g
              (record {
                member_ids = ids;
                expires_at = world.clock (suc h.events) + group_members_ttl;
              })
              h.group_members;
      },
    )
  ]

  -- `GroupMemberIDs` with a database.
  unfoldable pub cached_member_ids : ℕ → Hub → Option (List ℕ) × Hub
  unfolding fetch_member_ids
  cached_member_ids g h = elim (lookup g h.group_members) [
    | none ↦ fetch_member_ids g h
    | some entry ↦
        if ltb (world.clock h.events) entry.expires_at
        then (some entry.member_ids, tick h)
        else fetch_member_ids g (tick h)
  ]

  unfoldable pub group_member_ids : ℕ → Hub → Option (List ℕ) × Hub
  unfolding cached_member_ids
  group_member_ids g h = if not world.has_postgres then (some [], h) else cached_member_ids g h

  unfoldable pub is_group_member_cached : ℕ → ℕ → Hub → Bool × Hub
  is_group_member_cached g u h =
      let (ids, h1) = group_member_ids g h in
      (elim ids [ none ↦ false | some member_ids ↦ contains u member_ids ], h1)

  unfoldable pub deliver_to_group : ℕ → ℕ → Frame → Hub → ℕ × Hub
  deliver_to_group g sender payload h =
      let (ids, h1) = group_member_ids g h in
      elim ids [ none ↦ (0, h1) | some member_ids ↦ fan_out sender payload member_ids h1 ]

  unfoldable pub broadcast_presence : ℕ → Bool → Option ℕ → Hub → Hub
  broadcast_presence u online last_seen h =
      broadcast
        (presence_update (record {
          frame_type = frame_presence_update;
          user_id = world.uuid_string u;
          is_online = online;
          last_seen = last_seen;
        }))
        h

  -- What a started goroutine does to the hub. The writes to the database are left out.
  unfoldable pub run_task : Task → Hub → Hub
  run_task (announce_online u) h = broadcast_presence u true none h
  run_task (handle_disconnect u) h =
      broadcast_presence u false (some (world.clock h.events)) (tick h)
  run_task (save_message m) h = h
  run_task (record_dm_participants room a b) h = h

-- The `Client` that `NewClient` makes, before it is registered.
abbrev pub allocate : ℕ → Hub → Hub
allocate u h =
    update_client h.made
      (λ c. record {
        user_id = u;
        send = [];
        send_closed = false;
        conn_closed = false;
        reading = true;
      })
      (record h { made = suc h.made })

-- `NewClient`, and `NewHub`.
unfoldable pub new_client : ℕ → Hub → Hub
unfolding register
new_client u h = register h.made (allocate u h)

abbrev pub no_client : Client
no_client = record {
  user_id = 0;
  send = [];
  send_closed = true;
  conn_closed = true;
  reading = false;
}

abbrev pub new_hub : Hub
new_hub = record {
  clients = [];
  heap = λ a. no_client;
  made = 0;
  group_members = [];
  events = 0;
  tasks = [];
  crashed = false;
}

-- The end of `readPump`.
unfoldable pub end_read_pump : ℕ → Hub → Hub
unfolding unregister
end_read_pump a h =
    update_client a (λ c. record c { conn_closed = true; reading = false }) (unregister a h)

abbrev pub dequeue : List Frame → List Frame
dequeue [] = []
dequeue (f ∷ queue) = queue

-- `writePump` takes the next payload.
unfoldable pub take_payload : ℕ → Hub → Hub
take_payload a h = update_client a (λ c. record c { send = dequeue c.send }) h
