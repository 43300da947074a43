-- ===== src/Websocket/Serving.antt =====
-- internal/websocket: delivery and the handlers of frames only queue payloads.
use vibe_net_backend.Base.{
  ℕ, ◌≤◌, ◌<◌, String, not, Option, some, List, [], ◌∷◌, ◌≡◌, ◌==◌, ℕ_eq, String_eq, ltb, length,
  lookup, refl, sym, ap, ◌∙◌, subst, Bool-cases, Option-cases, if-both, inl, inr,
}
use vibe_net_backend.Websocket.Frames.{Frame, InboundMessage, send_buffer_size}
use vibe_net_backend.Websocket.Hub.{
  Hub, World, Task, tick, offer, offer_each, broadcast, fan_out, deliver_to_user, deliver_to_group,
  fetch_member_ids, cached_member_ids, group_member_ids, is_group_member_cached,
}
use vibe_net_backend.Websocket.Client.{
  H, ◌>>=◌, user_of, go, try_send, or_now, or_new_string, handle_message,
}
use vibe_net_backend.Websocket.Handling.{Discipline, handle_message-steps}
use vibe_net_backend.Websocket.Sound.{
  IsSound, AllOpen, AllOpen-same, Serving, Queued, Queued-refl, Queued-trans, Queued-IsSound,
  offer-Queued,
}

pub Queued-Serving : (a me : ℕ) (h h' : Hub) → Queued h h' → Serving a me h → Serving a me h'
Queued-Serving a me h h' q v = record {
  sound = Queued-IsSound h h' q v.sound;
  made = subst (λ n. a < n) (sym q.made) v.made;
  reading = (q.channels a).2 ∙ v.reading;
  user = (q.channels a).0 ∙ v.user;
}

-- A step that changes neither the connections nor what is registered.
pub idle : (h h' : Hub) → h'.clients ≡ h.clients → h'.made ≡ h.made → h'.heap ≡ h.heap → Queued h h'
idle h h' c m e = record {
  clients = c;
  made = m;
  channels =
      λ b. (ap (λ g. (g b).user_id) e, ap (λ g. (g b).send_closed) e, ap (λ g. (g b).reading) e);
  bounded = λ v b. subst (λ g. length (g b).send ≤ send_buffer_size) (sym e) (v b);
}

-- The loops over the entries of the map, and over the members of a group.
pub offer_each-Queued :
    (payload : Frame) (m : List (ℕ × ℕ)) (h : Hub)
    → AllOpen h.heap h.made m
    → Queued h (offer_each payload m h)
unfolding offer_each
offer_each-Queued payload [] h v = Queued-refl h
offer_each-Queued payload ((u, a) ∷ rest) h (_, o, _, v) =
    let first = offer-Queued a payload h in
    let h1 = (offer a payload h).1 in
    let still : AllOpen h1.heap h1.made rest =
      subst (λ n. AllOpen h1.heap n rest) (sym first.made)
        (AllOpen-same h.heap h1.heap h.made rest first.channels v) in
    Queued-trans h h1 _ first (offer_each-Queued payload rest h1 still)

pub broadcast-Queued : (payload : Frame) (h : Hub) → IsSound h → Queued h (broadcast payload h)
unfolding broadcast
broadcast-Queued payload h v = offer_each-Queued payload h.clients h v.all_open

pub deliver_to_user-Queued :
    (receiver : ℕ) (payload : Frame) (h : Hub)
    → IsSound h
    → Queued h (deliver_to_user receiver payload h).1
unfolding deliver_to_user
deliver_to_user-Queued receiver payload h v = elim (Option-cases (lookup receiver h.clients)) [
  | inl e ↦ rw (e, deliver_to_user) (Queued-refl h)
  | inr (a, e) ↦ rw (e, deliver_to_user) (offer-Queued a payload h)
]

pub fan_out-Queued :
    (sender : ℕ) (payload : Frame) (members : List ℕ) (h : Hub)
    → IsSound h
    → Queued h (fan_out sender payload members h).1
unfolding fan_out
fan_out-Queued sender payload [] h v = Queued-refl h
fan_out-Queued sender payload (m ∷ members) h v = elim (Bool-cases (m == sender)) [
  | inl e ↦ rw e (fan_out-Queued sender payload members h v)
  | inr e ↦ rw e (elim (Option-cases (lookup m h.clients)) [
    | inl off ↦ rw off (fan_out-Queued sender payload members h v)
    | inr (a, on) ↦ rw on (
        let first = offer-Queued a payload h in
        Queued-trans h (offer a payload h).1 _ first (
          fan_out-Queued sender payload members (offer a payload h).1 (Queued-IsSound h _ first v)))
  ])
]

-- A step of a handler of connection `a`.
unfoldable pub Queues {ℓ} : {A : Type ℓ} → ℕ → ℕ → H A → Type 0
Queues a me m = (h : Hub) → Serving a me h → Queued h (m h).1

module _ (a me : ℕ) where
  pub bind-Queues {ℓ κ} :
      {A : Type ℓ} {B : Type κ} (m : H A) (f : A → H B)
      → Queues a me m
      → ((x : A) → Queues a me (f x))
      → Queues a me (m >>= f)
  unfolding Queues
  bind-Queues m f p q h v =
      Queued-trans h (m h).1 _ (p h v) (q (m h).0 (m h).1 (Queued-Serving a me h _ (p h v) v))

  pub as_user-Queues {κ} :
      {B : Type κ} (k : ℕ → H B)
      → ((u : ℕ) → u ≡ me → Queues a me (k u))
      → Queues a me (user_of a >>= k)
  unfolding Queues
  as_user-Queues k p h v = p (h.heap a).user_id v.user h v

  pub go-Queues : (t : Task) → Queues a me (go t)
  unfolding Queues
  go-Queues t h v = idle h _ refl refl refl

  pub try_send-Queues : (payload : Frame) → Queues a me (try_send a payload)
  unfolding try_send Queues
  try_send-Queues payload h v = offer-Queued a payload h

  pub deliver_to_user-Queues : (r : ℕ) (payload : Frame) → Queues a me (deliver_to_user r payload)
  unfolding Queues
  deliver_to_user-Queues r payload h v = deliver_to_user-Queued r payload h v.sound

  module _ (world : World) where
    fetch_member_ids-Queued : (g : ℕ) (h : Hub) → Queued h (fetch_member_ids world g h).1
    unfolding fetch_member_ids
    fetch_member_ids-Queued g h = elim (Option-cases (world.answer h.events g)) [
      | inl e ↦ rw (e, fetch_member_ids) (idle h _ refl refl refl)
      | inr (ids, e) ↦ rw (e, fetch_member_ids) (idle h _ refl refl refl)
    ]

    cached_member_ids-Queued : (g : ℕ) (h : Hub) → Queued h (cached_member_ids world g h).1
    unfolding cached_member_ids
    cached_member_ids-Queued g h = elim (Option-cases (lookup g h.group_members)) [
      | inl k ↦ rw (k, cached_member_ids) (fetch_member_ids-Queued g h)
      | inr (entry, k) ↦
          rw (k, cached_member_ids)
            (elim (Bool-cases (ltb (world.clock h.events) entry.expires_at)) [
              | inl f ↦ rw f (idle h _ refl refl refl)
              | inr f ↦ rw f (
                  Queued-trans h (tick h) _ (idle h _ refl refl refl)
                    (fetch_member_ids-Queued g (tick h)))
            ])
    ]

    pub group_member_ids-Queued : (g : ℕ) (h : Hub) → Queued h (group_member_ids world g h).1
    unfolding group_member_ids
    group_member_ids-Queued g h =
        if-both (λ (r : Option (List ℕ) × Hub). Queued h r.1) (not world.has_postgres) (some [], h)
          (cached_member_ids world g h) (Queued-refl h) (cached_member_ids-Queued g h)

    pub is_group_member_cached-Queues : (g u : ℕ) → Queues a me (is_group_member_cached world g u)
    unfolding is_group_member_cached Queues
    is_group_member_cached-Queues g u h v = group_member_ids-Queued g h

    pub deliver_to_group-Queues :
        (g u : ℕ) (payload : Frame) → Queues a me (deliver_to_group world g u payload)
    unfolding deliver_to_group Queues
    deliver_to_group-Queues g u payload h v = elim (Option-cases (group_member_ids world g h).0) [
      | inl e ↦ rw (e, deliver_to_group) (group_member_ids-Queued g h)
      | inr (ids, e) ↦
          rw (e, deliver_to_group)
            (Queued-trans h (group_member_ids world g h).1 _ (group_member_ids-Queued g h) (
              fan_out-Queued u payload ids _
                (Queued-IsSound h _ (group_member_ids-Queued g h) v.sound)))
    ]

    pub or_now-Queues : (t : ℕ) → Queues a me (or_now world t)
    unfolding or_now Queues
    or_now-Queues t h v = elim (Bool-cases (t == 0)) [
      | inl e ↦ rw e (idle h _ refl refl refl)
      | inr e ↦ rw e (Queued-refl h)
    ]

    pub or_new_string-Queues : (id : String) → Queues a me (or_new_string world id)
    unfolding or_new_string Queues
    or_new_string-Queues id h v = elim (Bool-cases (id == "")) [
      | inl e ↦ rw e (idle h _ refl refl refl)
      | inr e ↦ rw e (Queued-refl h)
    ]

-- Every handler of the connection only queues payloads.
pub queueing : (world : World) (a me : ℕ) → Discipline world a me
unfolding Queues
queueing world a me = record {
  steps = λ m. Queues a me m;
  bind = λ m f p q. bind-Queues a me m f p q;
  return = λ h v. Queued-refl h;
  ask = λ q h v. Queued-refl h;
  as_user = λ k p. as_user-Queues a me k p;
  check_member = λ g u e. is_group_member_cached-Queues a me world g u;
  to_group = λ g u f e from. deliver_to_group-Queues a me world g u f;
  to_user = λ r f from. deliver_to_user-Queues a me r f;
  reply = λ f from. try_send-Queues a me f;
  go_on = λ t of_user. go-Queues a me t;
  read_clock = λ t. or_now-Queues a me world t;
  name_message = λ id. or_new_string-Queues a me world id;
}

pub handle_message-Queued :
    (world : World) (a : ℕ) (inbound : Option InboundMessage) (h : Hub) (me : ℕ)
    → Serving a me h
    → Queued h (handle_message world a inbound h).1
unfolding queueing Queues
handle_message-Queued world a inbound h me v =
    handle_message-steps world a me (queueing world a me) inbound h v
