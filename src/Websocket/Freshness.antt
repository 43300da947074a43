-- ===== src/Websocket/Freshness.antt =====
-- internal/websocket: in every run the cache of member lists holds recent answers of the database.
use vibe_net_backend.Base.{
  ℕ, ◌≤◌, String, true, Option, none, some, List, [], ◌∷◌, ◌++◌, ◌≡◌, ◌==◌, ℕ_eq, String_eq, ltb,
  length, lookup, refl, ◌∙◌, arith, Bool-cases, Option-cases, inl, inr, if-both,
}
use vibe_net_backend.Websocket.Frames.{Frame, InboundMessage, send_buffer_size}
use vibe_net_backend.Websocket.Hub.{
  Hub, World, Task, announce_online, handle_disconnect, save_message, record_dm_participants, tick,
  start, offer, offer_each, broadcast, broadcast_presence, fan_out, deliver_to_user,
  deliver_to_group, group_member_ids, is_group_member_cached, contains, register, unregister,
  close_existing, new_client, allocate, end_read_pump, take_payload, run_task,
}
use vibe_net_backend.Websocket.Client.{H, try_send, or_now, or_new_string, handle_message}
use vibe_net_backend.Websocket.Cache.{
  HasAnswers, HasAnswers-later, group_member_ids-HasAnswers, invalidate_group-HasAnswers, IsRecent,
  group_member_ids-IsRecent,
}
use vibe_net_backend.Websocket.Honesty.{honest, Speaking}
use vibe_net_backend.Websocket.Handling.{Discipline, handle_message-steps}
use vibe_net_backend.Websocket.Steps.{
  Step, connects, receives, ends, writes, runs, sends, broadcasts, asks, ticks, spawns, invalidates,
  Reach, starts, later,
}

-- The cache and the count of events are the same.
record IsCacheSame (h h' : Hub) : Type 0 where
  cache : h'.group_members ≡ h.group_members
  events : h'.events ≡ h.events

same_refl : (h : Hub) → IsCacheSame h h
same_refl h = record { cache = refl; events = refl }

same_trans : (h h1 h2 : Hub) → IsCacheSame h h1 → IsCacheSame h1 h2 → IsCacheSame h h2
same_trans h h1 h2 p q = record { cache = q.cache ∙ p.cache; events = q.events ∙ p.events }

offer-same : (a : ℕ) (f : Frame) (h : Hub) → IsCacheSame h (offer a f h).1
unfolding offer
offer-same a f h = elim (Bool-cases (h.heap a).send_closed) [
  | inl e ↦ rw e (record { cache = refl; events = refl })
  | inr e ↦ rw e (elim (Bool-cases (ltb (length (h.heap a).send) send_buffer_size)) [
    | inl k ↦ rw k (record { cache = refl; events = refl })
    | inr k ↦ rw k (same_refl h)
  ])
]

deliver_to_user-same : (r : ℕ) (f : Frame) (h : Hub) → IsCacheSame h (deliver_to_user r f h).1
unfolding deliver_to_user
deliver_to_user-same r f h = elim (Option-cases (lookup r h.clients)) [
  | inl e ↦ rw (e, deliver_to_user) (same_refl h)
  | inr (a, e) ↦ rw (e, deliver_to_user) (offer-same a f h)
]

offer_each-same : (f : Frame) (m : List (ℕ × ℕ)) (h : Hub) → IsCacheSame h (offer_each f m h)
unfolding offer_each
offer_each-same f [] h = same_refl h
offer_each-same f ((u, a) ∷ m) h =
    same_trans h (offer a f h).1 _ (offer-same a f h) (offer_each-same f m (offer a f h).1)

fan_out-same :
    (sender : ℕ) (f : Frame) (members : List ℕ) (h : Hub)
    → IsCacheSame h (fan_out sender f members h).1
unfolding fan_out
fan_out-same sender f [] h = same_refl h
fan_out-same sender f (m ∷ members) h = elim (Bool-cases (m == sender)) [
  | inl e ↦ rw e (fan_out-same sender f members h)
  | inr e ↦ rw e (elim (Option-cases (lookup m h.clients)) [
    | inl off ↦ rw off (fan_out-same sender f members h)
    | inr (a, on) ↦ rw on (
        same_trans h (offer a f h).1 _ (offer-same a f h)
          (fan_out-same sender f members (offer a f h).1))
  ])
]

module _ (world : World) where
  kept : (h h' : Hub) → IsCacheSame h h' → HasAnswers world h → HasAnswers world h'
  kept h h' s v = HasAnswers-later world h h' s.cache (omega (arith, s.events)) v

  deliver_to_group-HasAnswers :
      (g u : ℕ) (f : Frame) (h : Hub)
      → HasAnswers world h
      → HasAnswers world (deliver_to_group world g u f h).1
  unfolding deliver_to_group
  deliver_to_group-HasAnswers g u f h v = elim (Option-cases (group_member_ids world g h).0) [
    | inl e ↦ rw (e, deliver_to_group) (group_member_ids-HasAnswers world g h v)
    | inr (ids, e) ↦
        rw (e, deliver_to_group)
          (kept (group_member_ids world g h).1 _ (fan_out-same u f ids _)
            (group_member_ids-HasAnswers world g h v))
  ]

  unfoldable Caching : {A : Type 0} → ℕ → ℕ → H A → Type 0
  Caching a me m =
      (h : Hub) → (h.heap a).user_id ≡ me → HasAnswers world h → HasAnswers world (m h).1

  -- Besides, the user of the connection stays the same.
  cached_answers : (a me : ℕ) → Discipline world a me
  unfolding Caching is_group_member_cached try_send or_now or_new_string honest Speaking
  cached_answers a me = record {
    steps = λ m. d.steps m × Caching a me m;
    bind = λ m f p q. (
      d.bind m f p.0 (λ x. (q x).0),
      λ h u v. (q (m h).0).1 (m h).1 ((p.0 h u).users a ∙ u) (p.1 h u v),
    );
    return = (d.return, λ h u v. v);
    ask = λ q. (d.ask q, λ h u v. v);
    as_user = λ k p. (d.as_user k (λ u e. (p u e).0), λ h u v. (p (h.heap a).user_id u).1 h u v);
    check_member =
        λ g u e. (d.check_member g u e, λ h w v. group_member_ids-HasAnswers world g h v);
    to_group =
        λ g u f e from. (d.to_group g u f e from, λ h w v. deliver_to_group-HasAnswers g u f h v);
    to_user = λ r f from. (d.to_user r f from, λ h u v. kept h _ (deliver_to_user-same r f h) v);
    reply = λ f from. (d.reply f from, λ h u v. kept h _ (offer-same a f h) v);
    go_on = λ t of_user.
        (d.go_on t of_user, λ h u v. kept h (start t h) (record { cache = refl; events = refl }) v);
    read_clock = λ t. (
      d.read_clock t,
      λ h u v.
          if-both (λ (r : ℕ × Hub). HasAnswers world r.1) (t == 0) (world.clock h.events, tick h)
            (t, h) (ticked h v) v,
    );
    name_message = λ id. (
      d.name_message id,
      λ h u v.
          if-both (λ (r : String × Hub). HasAnswers world r.1) (id == "")
            (world.new_string h.events, tick h) (id, h) (ticked h v) v,
    );
  }
    where
      d : Discipline world a me
      d = honest world me a

      ticked : (h : Hub) → HasAnswers world h → HasAnswers world (tick h)
      ticked h v = HasAnswers-later world h (tick h) refl (omega arith) v

  handle_message-HasAnswers :
      (a : ℕ) (inbound : Option InboundMessage) (h : Hub)
      → HasAnswers world h
      → HasAnswers world (handle_message world a inbound h).1
  unfolding cached_answers Caching
  handle_message-HasAnswers a inbound h v =
      (handle_message-steps world a (h.heap a).user_id (cached_answers a (h.heap a).user_id)
          inbound).1
        h refl v

  broadcast-same : (f : Frame) (h : Hub) → IsCacheSame h (broadcast f h)
  unfolding broadcast
  broadcast-same f h = offer_each-same f h.clients h

  run_task-HasAnswers :
      (t : Task) (h : Hub) → HasAnswers world h → HasAnswers world (run_task world t h)
  unfolding run_task broadcast_presence
  run_task-HasAnswers (announce_online u) h v = kept h _ (broadcast-same _ h) v
  run_task-HasAnswers (handle_disconnect u) h v =
      kept (tick h) _ (broadcast-same _ (tick h))
        (HasAnswers-later world h (tick h) refl (omega arith) v)
  run_task-HasAnswers (save_message m) h v = v
  run_task-HasAnswers (record_dm_participants room a b) h v = v

  close_existing-same : (o : Option ℕ) (h : Hub) → IsCacheSame h (close_existing o h)
  close_existing-same none h = same_refl h
  close_existing-same (some a) h = record { cache = refl; events = refl }

  register-same : (a : ℕ) (h : Hub) → IsCacheSame h (register a h)
  unfolding register
  register-same a h =
      let s = close_existing-same (lookup (h.heap a).user_id h.clients) h in
      record { cache = s.cache; events = s.events }

  unregister-same : (a : ℕ) (h : Hub) → IsCacheSame h (unregister a h)
  unfolding unregister
  unregister-same a h = elim (Option-cases (lookup (h.heap a).user_id h.clients)) [
    | inl e ↦ rw (e, unregister) (same_refl h)
    | inr (b, e) ↦
        rw (e, unregister)
          (if-both (λ (k : Hub). IsCacheSame h k) (b == a) _ h
            (record { cache = refl; events = refl }) (same_refl h))
  ]

  Step-HasAnswers : {h h' : Hub} → Step world h h' → HasAnswers world h → HasAnswers world h'
  unfolding new_client end_read_pump take_payload
  Step-HasAnswers (connects h u) v =
      let s = register-same h.made (allocate u h) in
      kept h _ (record { cache = s.cache; events = s.events }) v
  Step-HasAnswers (receives h a inbound l r) v = handle_message-HasAnswers a inbound h v
  Step-HasAnswers (ends h a l r) v =
      let s = unregister-same a h in kept h _ (record { cache = s.cache; events = s.events }) v
  Step-HasAnswers (writes h a) v = kept h _ (record { cache = refl; events = refl }) v
  Step-HasAnswers (runs h before after t e) v =
      run_task-HasAnswers t (record h { tasks = before ++ after })
        (kept h _ (record { cache = refl; events = refl }) v)
  Step-HasAnswers (sends h a payload l) v = kept h _ (offer-same a payload h) v
  Step-HasAnswers (broadcasts h payload) v = kept h _ (broadcast-same payload h) v
  Step-HasAnswers (asks h g) v = group_member_ids-HasAnswers world g h v
  Step-HasAnswers (ticks h) v = HasAnswers-later world h (tick h) refl (omega arith) v
  Step-HasAnswers (spawns h t) v = kept h _ (record { cache = refl; events = refl }) v
  Step-HasAnswers (invalidates h g) v = invalidate_group-HasAnswers world g h v

  Reach-HasAnswers : {h : Hub} → Reach world h → HasAnswers world h
  unfolding HasAnswers
  Reach-HasAnswers starts = λ g entry e. cc
  Reach-HasAnswers (later r s) = Step-HasAnswers s (Reach-HasAnswers r)

  -- In every state that the hub can reach, with a database and a clock that does not go back,
  -- whoever passes for a member of a group is in an answer that the database gave to a query for
  -- that group at an event before the check or during it, and at the next event, when it was
  -- stored, the clock was less than 30 seconds behind the check. A query and the storing of its
  -- answer are taken as one step.
  pub is_group_member_cached-IsRecent :
      (g u : ℕ) {h : Hub}
      → world.has_postgres ≡ true
      → ((i j : ℕ) → i ≤ j → world.clock i ≤ world.clock j)
      → Reach world h
      → (is_group_member_cached world g u h).0 ≡ true
      → (ids : List ℕ) × IsRecent world g h.events (is_group_member_cached world g u h).1.events ids
        × (contains u ids ≡ true)
  unfolding is_group_member_cached
  is_group_member_cached-IsRecent g u {h} on steady r e =
      elim (Option-cases (group_member_ids world g h).0) [
        | inl missing ↦ absurd (ground arith)
        | inr (ids, k) ↦ (
          ids,
          group_member_ids-IsRecent world g steady h on (Reach-HasAnswers r) k,
          ground arith,
        )
      ]
