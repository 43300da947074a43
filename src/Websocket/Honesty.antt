-- ===== src/Websocket/Honesty.antt =====
-- internal/websocket/client.go: a connection speaks for its own user only.
use vibe_net_backend.Base.{
  ℕ, Option, List, [], ◌∷◌, ◌++◌, ◌≡◌, ◌==◌, ℕ_eq, String_eq, ltb, length, lookup, refl, sym, ap,
  ◌∙◌, subst, arith, Bool-cases, Option-cases, inl, inr,
}
use mathlib.Core.List.{append_assoc, append-nil}
use vibe_net_backend.Websocket.Frames.{Frame, InboundMessage, send_buffer_size}
use vibe_net_backend.Websocket.Hub.{
  Hub, World, Task, offer, enqueue, fan_out, deliver_to_user, deliver_to_group, group_member_ids,
  is_group_member_cached,
}
use vibe_net_backend.Websocket.Client.{H, try_send, or_now, or_new_string, handle_message}
use vibe_net_backend.Websocket.Cache.{group_member_ids-IsIdle}
use vibe_net_backend.Websocket.Handling.{Discipline, IsFrom, IsWorkOf, handle_message-steps}

abbrev pub All {ℓ κ} : {A : Type ℓ} → (A → Type κ) → List A → Type κ
All P [] = Unit
All P (x ∷ xs) = P x × All P xs

All-append {ℓ κ} :
    {A : Type ℓ} (P : A → Type κ) (xs ys : List A) → All P xs → All P ys → All P (xs ++ ys)
All-append P [] ys p q = q
All-append P (x ∷ xs) ys (p, ps) q = (p, All-append P xs ys ps q)

pub enqueue-append : (q : List Frame) (f : Frame) → enqueue q f ≡ q ++ f ∷ []
enqueue-append [] f = refl
enqueue-append (g ∷ q) f = ap (λ r. g ∷ r) (enqueue-append q f)

-- The queue has got new payloads at its end that satisfy `P`.
abbrev pub Queue : (Frame → Type 0) → List Frame → List Frame → Type 0
Queue P q q' = (new : List Frame) × (q' ≡ q ++ new) × All P new

pub Queue-refl : (P : Frame → Type 0) (q : List Frame) → Queue P q q
Queue-refl P q = ([], sym (append-nil q), tt)

Queue-trans :
    (P : Frame → Type 0) (q q1 q2 : List Frame) → Queue P q q1 → Queue P q1 q2 → Queue P q q2
Queue-trans P q q1 q2 (n, e, v) (m, d, w) =
    (n ++ m, d ∙ ap (λ r. r ++ m) e ∙ append_assoc q n m, All-append P n m v w)

-- What the step has queued and started is in the name of `me`.
pub record Speaks (world : World) (me : ℕ) (h h' : Hub) : Type 0 where
  pub users : (a : ℕ) → (h'.heap a).user_id ≡ (h.heap a).user_id
  pub queued : (a : ℕ) → Queue (IsFrom world me) (h.heap a).send (h'.heap a).send
  pub started : (new : List Task) × (h'.tasks ≡ new ++ h.tasks) × All (IsWorkOf world me) new

module _ (world : World) (me : ℕ) where
  pub silent : (h h' : Hub) → h'.heap ≡ h.heap → h'.tasks ≡ h.tasks → Speaks world me h h'
  silent h h' e d = record {
    users = λ a. ap (λ g. (g a).user_id) e;
    queued = λ a.
        subst (λ g. Queue (IsFrom world me) (h.heap a).send (g a).send) (sym e) (Queue-refl _ _);
    started = ([], d, tt);
  }

  pub Speaks-trans :
      (h h1 h2 : Hub) → Speaks world me h h1 → Speaks world me h1 h2 → Speaks world me h h2
  Speaks-trans h h1 h2 p q =
      let (n, e, v) = p.started in
      let (m, d, w) = q.started in
      record {
        users = λ a. q.users a ∙ p.users a;
        queued = λ a. Queue-trans _ _ _ _ (p.queued a) (q.queued a);
        started =
            (m ++ n, d ∙ ap (λ r. m ++ r) e ∙ sym (append_assoc m n h.tasks), All-append _ m n w v);
      }

  pub offer-Speaks :
      (a : ℕ) (f : Frame) (h : Hub) → IsFrom world me f → Speaks world me h (offer a f h).1
  unfolding offer
  offer-Speaks a f h from = elim (Bool-cases (h.heap a).send_closed) [
    | inl closed ↦ rw closed (silent h _ refl refl)
    | inr o ↦ rw o (elim (Bool-cases (ltb (length (h.heap a).send) send_buffer_size)) [
      | inr full ↦ rw full (silent h _ refl refl)
      | inl room ↦ rw room (record {
        users = λ b. ground arith;
        queued = λ b. elim (Bool-cases (b == a)) [
          | inl here ↦ rw here (f ∷ [], enqueue-append (h.heap b).send f, (from, tt))
          | inr away ↦ rw away (Queue-refl _ _)
        ];
        started = ([], refl, tt);
      })
    ])
  ]

  pub deliver_to_user-Speaks :
      (r : ℕ) (f : Frame) (h : Hub)
      → IsFrom world me f
      → Speaks world me h (deliver_to_user r f h).1
  unfolding deliver_to_user
  deliver_to_user-Speaks r f h from = elim (Option-cases (lookup r h.clients)) [
    | inl e ↦ rw (e, deliver_to_user) (silent h h refl refl)
    | inr (a, e) ↦ rw (e, deliver_to_user) (offer-Speaks a f h from)
  ]

  fan_out-Speaks :
      (sender : ℕ) (f : Frame) (members : List ℕ) (h : Hub)
      → IsFrom world me f
      → Speaks world me h (fan_out sender f members h).1
  unfolding fan_out
  fan_out-Speaks sender f [] h from = silent h h refl refl
  fan_out-Speaks sender f (m ∷ members) h from = elim (Bool-cases (m == sender)) [
    | inl e ↦ rw e (fan_out-Speaks sender f members h from)
    | inr e ↦ rw e (elim (Option-cases (lookup m h.clients)) [
      | inl off ↦ rw off (fan_out-Speaks sender f members h from)
      | inr (a, on) ↦ rw on (
          Speaks-trans h (offer a f h).1 _ (offer-Speaks a f h from)
            (fan_out-Speaks sender f members (offer a f h).1 from))
    ])
  ]

  pub group_member_ids-Speaks : (g : ℕ) (h : Hub) → Speaks world me h (group_member_ids world g h).1
  group_member_ids-Speaks g h =
      let idle = group_member_ids-IsIdle world g h in silent h _ idle.heap idle.tasks

  pub deliver_to_group-Speaks :
      (g u : ℕ) (f : Frame) (h : Hub)
      → IsFrom world me f
      → Speaks world me h (deliver_to_group world g u f h).1
  unfolding deliver_to_group
  deliver_to_group-Speaks g u f h from = elim (Option-cases (group_member_ids world g h).0) [
    | inl e ↦ rw (e, deliver_to_group) (group_member_ids-Speaks g h)
    | inr (ids, e) ↦
        rw (e, deliver_to_group)
          (Speaks-trans h (group_member_ids world g h).1 _ (group_member_ids-Speaks g h)
            (fan_out-Speaks u f ids _ from))
  ]

  unfoldable pub Speaking : {A : Type 0} → ℕ → H A → Type 0
  Speaking a m = (h : Hub) → (h.heap a).user_id ≡ me → Speaks world me h (m h).1

  unfoldable pub honest : (a : ℕ) → Discipline world a me
  unfolding Speaking is_group_member_cached try_send or_now or_new_string
  honest a = record {
    steps = λ m. Speaking a m;
    bind =
        λ m f p q h v. Speaks-trans h (m h).1 _ (p h v) (q (m h).0 (m h).1 ((p h v).users a ∙ v));
    return = λ h v. silent h h refl refl;
    ask = λ q h v. silent h h refl refl;
    as_user = λ k p h v. p (h.heap a).user_id v h v;
    check_member = λ g u e h v. group_member_ids-Speaks g h;
    to_group = λ g u f e from h v. deliver_to_group-Speaks g u f h from;
    to_user = λ r f from h v. deliver_to_user-Speaks r f h from;
    reply = λ f from h v. offer-Speaks a f h from;
    go_on = λ t of_user h v. record {
      users = λ b. refl;
      queued = λ b. Queue-refl _ _;
      started = (t ∷ [], refl, (of_user, tt));
    };
    read_clock = λ t h v. elim (Bool-cases (t == 0)) [
      | inl e ↦ rw e (silent h _ refl refl)
      | inr e ↦ rw e (silent h _ refl refl)
    ];
    name_message = λ id h v. elim (Bool-cases (id == "")) [
      | inl e ↦ rw e (silent h _ refl refl)
      | inr e ↦ rw e (silent h _ refl refl)
    ];
  }

-- Whatever frame comes in on a connection, the payloads that it makes the hub queue, for anybody,
-- name nobody or the user of the connection as their sender, and the rows that it makes the
-- server save have that user as their sender.
pub handle_message-Speaks :
    (world : World) (a : ℕ) (inbound : Option InboundMessage) (h : Hub)
    → Speaks world (h.heap a).user_id h (handle_message world a inbound h).1
unfolding honest Speaking
handle_message-Speaks world a inbound h =
    handle_message-steps world a (h.heap a).user_id (honest world (h.heap a).user_id a) inbound h
      refl
