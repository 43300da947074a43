-- ===== src/Websocket/Running.antt =====
-- internal/websocket: in every run the registered connections can be sent to.
use vibe_net_backend.Base.{
  ℕ, suc, ◌≤◌, ◌<◌, true, false, Option, none, some, List, [], ◌∷◌, ◌++◌, ◌≡◌, ◌==◌, ==_iff,
  ==_refl, ℕ_eq, length, lookup, erase, refl, sym, ap, ◌∙◌, subst, arith, Bool-cases, Option-cases,
  inl, inr, ◌⊎◌,
}
use vibe_net_backend.Websocket.Frames.{Frame}
use vibe_net_backend.Websocket.Hub.{
  Hub, Client, World, Task, announce_online, handle_disconnect, save_message,
  record_dm_participants, tick, start, update_client, register, unregister, close_existing,
  broadcast_presence, run_task, new_client, allocate, end_read_pump, take_payload, dequeue,
  invalidate_group,
}
use vibe_net_backend.Websocket.Sound.{
  IsSound, AllOpen, Queued, Queued-refl, Queued-trans, Queued-IsSound, offer-Queued,
}
use vibe_net_backend.Websocket.Cache.{group_member_ids-IsIdle}
use vibe_net_backend.Websocket.Serving.{idle, broadcast-Queued, handle_message-Queued}
use vibe_net_backend.Websocket.Steps.{
  Step, connects, receives, ends, writes, runs, sends, broadcasts, asks, ticks, spawns, invalidates,
  Reach, starts, later,
}

-- The entries stay open where the connections below `made` keep their channels.
pub AllOpen-below :
    (heap heap' : ℕ → Client) (made made' : ℕ) (m : List (ℕ × ℕ))
    → ((a : ℕ)
        → a < made
        → ((heap' a).user_id ≡ (heap a).user_id)
          × ((heap' a).send_closed ≡ (heap a).send_closed)
          × (a < made'))
    → AllOpen heap made m
    → AllOpen heap' made' m
AllOpen-below heap heap' made made' [] same v = tt
AllOpen-below heap heap' made made' ((u, a) ∷ m) same (v, o, l, rest) = (
  (same a l).0 ∙ v,
  (same a l).1 ∙ o,
  (same a l).2,
  AllOpen-below heap heap' made made' m same rest,
)

pub AllOpen-erase :
    (heap : ℕ → Client) (made u : ℕ) (m : List (ℕ × ℕ))
    → AllOpen heap made m
    → AllOpen heap made (erase u m)
AllOpen-erase heap made u [] v = tt
AllOpen-erase heap made u ((w, b) ∷ m) (v, o, l, rest) = elim (Bool-cases (w == u)) [
  | inl e ↦ rw e (AllOpen-erase heap made u m rest)
  | inr e ↦ rw e (v, o, l, AllOpen-erase heap made u m rest)
]

-- Without the entries of its user, the channel of `a` may be closed.
pub AllOpen-erase_closed :
    (heap heap' : ℕ → Client) (made u a : ℕ) (m : List (ℕ × ℕ))
    → ((heap a).user_id ≡ u)
    → ((b : ℕ)
        → (b == a) ≡ false
        → ((heap' b).user_id ≡ (heap b).user_id) × ((heap' b).send_closed ≡ (heap b).send_closed))
    → AllOpen heap made m
    → AllOpen heap' made (erase u m)
AllOpen-erase_closed heap heap' made u a [] mine same v = tt
AllOpen-erase_closed heap heap' made u a ((w, b) ∷ m) mine same (v, o, l, rest) =
    elim (Bool-cases (w == u)) [
      | inl e ↦ rw e (AllOpen-erase_closed heap heap' made u a m mine same rest)
      | inr e ↦
          let apart : (b == a) ≡ false = elim (Bool-cases (b == a)) [
            | inl s ↦
                absurd (
                  ground
                    (arith, ap (λ x. (heap x).user_id) ((==_iff b a).0 s), ==_iff w u, v, mine))
            | inr n ↦ n
          ] in
          rw e (
            (same b apart).0 ∙ v,
            (same b apart).1 ∙ o,
            l,
            AllOpen-erase_closed heap heap' made u a m mine same rest,
          )
    ]

close_existing-Queued : (o : Option ℕ) (h : Hub) → Queued h (close_existing o h)
close_existing-Queued none h = Queued-refl h
close_existing-Queued (some b) h = record {
  clients = refl;
  made = refl;
  channels = λ a. ground arith;
  bounded = λ v a. ground (arith, v a);
}

register-IsSound :
    (a : ℕ) (h : Hub)
    → IsSound h
    → a < h.made
    → (h.heap a).send_closed ≡ false
    → IsSound (register a h)
unfolding register
register-IsSound a h v l o =
    let q = close_existing-Queued (lookup (h.heap a).user_id h.clients) h in
    let w = Queued-IsSound h _ q v in
    record {
      all_open = (
        (q.channels a).0,
        (q.channels a).1 ∙ o,
        subst (λ n. a < n) (sym q.made) l,
        AllOpen-erase (close_existing (lookup (h.heap a).user_id h.clients) h).heap _
            (h.heap a).user_id _ w.all_open,
      );
      readers = w.readers;
      bounded = w.bounded;
    }

allocate-IsSound : (u : ℕ) (h : Hub) → IsSound h → IsSound (allocate u h)
allocate-IsSound u h v = record {
  all_open =
      AllOpen-below h.heap (allocate u h).heap h.made (suc h.made) h.clients
        (λ a l. ground (arith, ==_iff a h.made)) v.all_open;
  readers = λ a l r. ground (arith, v.readers a, ==_iff a h.made);
  bounded = λ a. ground (arith, v.bounded a);
}

pub new_client-IsSound : (u : ℕ) (h : Hub) → IsSound h → IsSound (new_client u h)
unfolding new_client
new_client-IsSound u h v =
    register-IsSound h.made (allocate u h) (allocate-IsSound u h v) (omega arith)
      (ground (arith, ==_refl h.made))

-- The end of the reader alone, and with the channel.
stopped : ℕ → Hub → Hub
stopped a h = update_client a (λ c. record c { conn_closed = true; reading = false }) h

stopped-IsSound : (a : ℕ) (h : Hub) → IsSound h → IsSound (stopped a h)
unfolding stopped
stopped-IsSound a h v = record {
  all_open =
      AllOpen-below h.heap (stopped a h).heap h.made h.made h.clients (λ c l. ground arith)
        v.all_open;
  readers = λ c l r. ground (arith, v.readers c l);
  bounded = λ c. ground (arith, v.bounded c);
}

unregistered : ℕ → Hub → Hub
unregistered a h = start (handle_disconnect (h.heap a).user_id) (
    update_client a (λ c. record c { send_closed = true })
      (record h { clients = erase (h.heap a).user_id h.clients }))

unregister-cases : (a : ℕ) (h : Hub) → (unregister a h ≡ h) ⊎ (unregister a h ≡ unregistered a h)
unfolding unregister unregistered
unregister-cases a h = elim (Option-cases (lookup (h.heap a).user_id h.clients)) [
  | inl e ↦ inl (rw (e, unregister) refl)
  | inr (b, e) ↦ elim (Bool-cases (b == a)) [
    | inr n ↦ inl (rw (e, unregister) (rw n refl))
    | inl s ↦ inr (rw (e, unregister) (rw s refl))
  ]
]

removed-IsSound : (a : ℕ) (h : Hub) → IsSound h → IsSound (stopped a (unregistered a h))
unfolding unregistered stopped
removed-IsSound a h v = record {
  all_open =
      AllOpen-erase_closed h.heap (stopped a (unregistered a h)).heap h.made (h.heap a).user_id a
        h.clients refl (λ c n. ground arith) v.all_open;
  readers = λ c l r. ground (arith, v.readers c l);
  bounded = λ c. ground (arith, v.bounded c);
}

pub end_read_pump-IsSound : (a : ℕ) (h : Hub) → IsSound h → IsSound (end_read_pump a h)
unfolding end_read_pump stopped
end_read_pump-IsSound a h v = elim (unregister-cases a h) [
  | inl e ↦ subst (λ x. IsSound (stopped a x)) (sym e) (stopped-IsSound a h v)
  | inr e ↦ subst (λ x. IsSound (stopped a x)) (sym e) (removed-IsSound a h v)
]

length-dequeue : (q : List Frame) → length (dequeue q) ≤ length q
length-dequeue [] = omega arith
length-dequeue (f ∷ q) = omega arith

take_payload-Queued : (a : ℕ) (h : Hub) → Queued h (take_payload a h)
unfolding take_payload
take_payload-Queued a h = record {
  clients = refl;
  made = refl;
  channels = λ b. ground arith;
  bounded = λ v b. ground (arith, v b, length-dequeue (h.heap b).send);
}

run_task-Queued : (world : World) (t : Task) (h : Hub) → IsSound h → Queued h (run_task world t h)
unfolding run_task broadcast_presence
run_task-Queued world (announce_online u) h v = broadcast-Queued _ h v
run_task-Queued world (handle_disconnect u) h v =
    let ticked : Queued h (tick h) = idle h _ refl refl refl in
    Queued-trans h (tick h) _ ticked (broadcast-Queued _ (tick h) (Queued-IsSound h _ ticked v))
run_task-Queued world (save_message m) h v = Queued-refl h
run_task-Queued world (record_dm_participants room a b) h v = Queued-refl h

-- Every step keeps the hub sound.
pub Step-IsSound : (world : World) {h h' : Hub} → Step world h h' → IsSound h → IsSound h'
unfolding invalidate_group
Step-IsSound world (connects h u) v = new_client-IsSound u h v
Step-IsSound world (receives h a inbound l r) v =
    Queued-IsSound h _
      (handle_message-Queued world a inbound h (h.heap a).user_id
        (record { sound = v; made = l; reading = r; user = refl }))
      v
Step-IsSound world (ends h a l r) v = end_read_pump-IsSound a h v
Step-IsSound world (writes h a) v = Queued-IsSound h _ (take_payload-Queued a h) v
Step-IsSound world (runs h before after t e) v =
    let rest = record h { tasks = before ++ after } in
    let w : IsSound rest = Queued-IsSound h rest (idle h rest refl refl refl) v in
    Queued-IsSound rest _ (run_task-Queued world t rest w) w
Step-IsSound world (sends h a payload l) v = Queued-IsSound h _ (offer-Queued a payload h) v
Step-IsSound world (broadcasts h payload) v = Queued-IsSound h _ (broadcast-Queued payload h v) v
Step-IsSound world (asks h g) v =
    let i = group_member_ids-IsIdle world g h in
    Queued-IsSound h _ (idle h _ i.clients i.made i.heap) v
Step-IsSound world (ticks h) v = Queued-IsSound h _ (idle h _ refl refl refl) v
Step-IsSound world (spawns h t) v = Queued-IsSound h _ (idle h _ refl refl refl) v
Step-IsSound world (invalidates h g) v = Queued-IsSound h _ (idle h _ refl refl refl) v

-- In every state that the hub can reach by the steps of `Websocket.Steps`, in any order, where a
-- send may come at any time after the lookup of its connection and from any goroutine, each
-- registered connection belongs to the user that it is registered for and has an open channel, a
-- connection that is still reading has an open channel, and no channel holds more than 256
-- payloads.
pub Reach-IsSound : (world : World) {h : Hub} → Reach world h → IsSound h
Reach-IsSound world starts = record {
  all_open = tt;
  readers = λ a l r. absurd (omega arith);
  bounded = λ a. omega arith;
}
Reach-IsSound world (later r s) = Step-IsSound world s (Reach-IsSound world r)
