-- ===== src/Websocket/Fifo.antt =====
-- internal/websocket: the channel of a connection is a bounded queue, first in, first out.
use mathlib.Core.List.{append_assoc}
use vibe_net_backend.Base.{
  ℕ, ◌≤◌, ◌+◌, true, false, List, [], ◌∷◌, ◌++◌, ◌≡◌, ◌==◌, ==_iff, ==_refl, ℕ_eq, ltb, length,
  refl, sym, subst, ap, ◌∙◌, arith, Bool-cases, inl, inr, if◌then◌else◌,
}
use vibe_net_backend.Websocket.Frames.{Frame, send_buffer_size}
use vibe_net_backend.Websocket.Hub.{Hub, offer, take_payload, dequeue}
use vibe_net_backend.Websocket.Honesty.{enqueue-append}

-- A payload is offered to a connection, or the write pump of a connection takes one.
pub data Event : Type 0 where
  offered : ℕ → Frame → Event
  taken : ℕ → Event

unfoldable pub act : Event → Hub → Hub
act (offered b f) h = (offer b f h).1
act (taken b) h = take_payload b h

unfoldable pub acts : List Event → Hub → Hub
unfolding act
acts [] h = h
acts (e ∷ es) h = acts es (act e h)

unfoldable pub next_of : List Frame → List Frame
next_of [] = []
next_of (f ∷ q) = f ∷ []

-- What the write pump of `a` gets.
unfoldable pub gets : ℕ → Event → Hub → List Frame
unfolding next_of
gets a (offered b f) h = []
gets a (taken b) h = if a == b then next_of (h.heap a).send else []

unfoldable pub gets_all : ℕ → List Event → Hub → List Frame
unfolding gets act
gets_all a [] h = []
gets_all a (e ∷ es) h = gets a e h ++ gets_all a es (act e h)

-- The queue that is promised: `q` is what it holds. A payload that finds it full is lost.
unfoldable pub admits : ℕ → Event → List Frame → List Frame
admits a (offered b f) q =
    if a == b then (if ltb (length q) send_buffer_size then f ∷ [] else []) else []
admits a (taken b) q = []

unfoldable pub holds : ℕ → Event → List Frame → List Frame
unfolding admits
holds a (offered b f) q = q ++ admits a (offered b f) q
holds a (taken b) q = if a == b then dequeue q else q

unfoldable pub admits_all : ℕ → List Event → List Frame → List Frame
unfolding admits holds
admits_all a [] q = []
admits_all a (e ∷ es) q = admits a e q ++ admits_all a es (holds a e q)

-- One event on an open channel.
record Obeys (a : ℕ) (e : Event) (h : Hub) : Type 0 where
  open_still : ((act e h).heap a).send_closed ≡ false
  queue : ((act e h).heap a).send ≡ holds a e (h.heap a).send
  conserved : gets a e h ++ ((act e h).heap a).send ≡ (h.heap a).send ++ admits a e (h.heap a).send

nil_right : (q : List Frame) → q ++ [] ≡ q
nil_right [] = refl
nil_right (f ∷ q) = ap (λ r. f ∷ r) (nil_right q)

next-dequeue : (q : List Frame) → next_of q ++ dequeue q ≡ q
unfolding next_of
next-dequeue [] = refl
next-dequeue (f ∷ q) = refl

-- What an offer does to the channel of `a`.
offer-elsewhere :
    (a b : ℕ) (f : Frame) (h : Hub) → (a == b) ≡ false → (offer b f h).1.heap a ≡ h.heap a
unfolding offer
offer-elsewhere a b f h other = elim (Bool-cases (h.heap b).send_closed) [
  | inl closed ↦ rw closed refl
  | inr o ↦ rw o (elim (Bool-cases (ltb (length (h.heap b).send) send_buffer_size)) [
    | inl room ↦ rw (room, other) refl
    | inr full ↦ rw full refl
  ])
]

offer-open :
    (a : ℕ) (f : Frame) (h : Hub)
    → (h.heap a).send_closed ≡ false
    → (((offer a f h).1.heap a).send_closed ≡ false)
      × (((offer a f h).1.heap a).send ≡ (h.heap a).send ++ admits a (offered a f) (h.heap a).send)
unfolding offer admits
offer-open a f h o = elim (Bool-cases (ltb (length (h.heap a).send) send_buffer_size)) [
  | inl room ↦ rw (o, room, ==_refl a) (o, enqueue-append (h.heap a).send f)
  | inr full ↦ rw (o, full, ==_refl a) (o, sym (nil_right (h.heap a).send))
]

offer-Obeys :
    (a b : ℕ) (f : Frame) (h : Hub) → (h.heap a).send_closed ≡ false → Obeys a (offered b f) h
unfolding act gets admits holds
offer-Obeys a b f h o = elim (Bool-cases (a == b)) [
  | inr other ↦
      let same = offer-elsewhere a b f h other in
      record {
        open_still = rw same o;
        queue = rw (other, same) (sym (nil_right (h.heap a).send));
        conserved = rw (other, same) (sym (nil_right (h.heap a).send));
      }
  | inl self ↦
      let e = (==_iff a b).0 self in
      let (o', q) = offer-open a f h o in
      subst (λ x. Obeys a (offered x f) h) e (record { open_still = o'; queue = q; conserved = q })
]

take-Obeys : (a b : ℕ) (h : Hub) → (h.heap a).send_closed ≡ false → Obeys a (taken b) h
unfolding act gets admits holds take_payload
take-Obeys a b h o = elim (Bool-cases (a == b)) [
  | inr other ↦ record {
    open_still = rw other o;
    queue = rw other refl;
    conserved = rw other (sym (nil_right (h.heap a).send));
  }
  | inl self ↦ record {
    open_still = rw self o;
    queue = rw self refl;
    conserved = rw self (next-dequeue (h.heap a).send ∙ sym (nil_right (h.heap a).send));
  }
]

event-Obeys : (a : ℕ) (e : Event) (h : Hub) → (h.heap a).send_closed ≡ false → Obeys a e h
event-Obeys a (offered b f) h o = offer-Obeys a b f h o
event-Obeys a (taken b) h o = take-Obeys a b h o

-- The channel of a connection is a queue of at most 256 payloads: over any sequence of offers to
-- connections and of turns of their write pumps, while it is open, what its write pump got,
-- followed by what it still holds, is what it held, followed by the payloads that a bounded queue
-- admits, in their order; none is lost once admitted, and none comes twice.
pub acts-conserved :
    (a : ℕ) (es : List Event) (h : Hub)
    → (h.heap a).send_closed ≡ false
    → gets_all a es h ++ ((acts es h).heap a).send
      ≡ (h.heap a).send ++ admits_all a es (h.heap a).send
unfolding acts gets_all admits_all
acts-conserved a [] h o = sym (nil_right (h.heap a).send)
acts-conserved a (e ∷ es) h o =
    let q = (h.heap a).send in
    let obeys = event-Obeys a e h o in
    let later = acts-conserved a es (act e h) obeys.open_still in
    append_assoc (gets a e h) _ _
    ∙ ap (λ r. gets a e h ++ r) later
    ∙ sym (append_assoc (gets a e h) _ _)
    ∙ ap (λ r. r ++ admits_all a es ((act e h).heap a).send) obeys.conserved
    ∙ ap (λ r. (q ++ admits a e q) ++ admits_all a es r) obeys.queue
    ∙ append_assoc q (admits a e q) _

-- How often the write pump of `a` comes to its channel.
unfoldable pub turns : ℕ → List Event → ℕ
turns a [] = 0
turns a (offered b f ∷ es) = turns a es
turns a (taken b ∷ es) = (if a == b then 1 else 0) + turns a es

not_here : (a b : ℕ) (q : List Frame) → (a == b) ≡ false → holds a (taken b) q ≡ q
unfolding holds
not_here a b q e = rw e refl

here : (a b : ℕ) (q : List Frame) → (a == b) ≡ true → holds a (taken b) q ≡ dequeue q
unfolding holds
here a b q e = rw e refl

-- Once the write pump of an open connection has had as many turns as there were payloads in the
-- first part of its queue, it has got that part, in order and before anything else, whatever was
-- offered meanwhile.
pub acts-written :
    (a : ℕ) (es : List Event) (h : Hub) (p r : List Frame)
    → (h.heap a).send_closed ≡ false
    → (h.heap a).send ≡ p ++ r
    → length p ≤ turns a es
    → (more : List Frame) × (gets_all a es h ≡ p ++ more)
unfolding acts gets_all gets turns next_of holds
acts-written a es h [] r o e enough = (gets_all a es h, refl)
acts-written a [] h (f ∷ p) r o e enough = absurd (omega (arith, enough))
acts-written a (offered b g ∷ es) h (f ∷ p) r o e enough =
    let obeys = event-Obeys a (offered b g) h o in
    let x = admits a (offered b g) (h.heap a).send in
    acts-written a es (act (offered b g) h) (f ∷ p) (r ++ x) obeys.open_still
      (obeys.queue ∙ ap (λ q. q ++ x) e ∙ append_assoc (f ∷ p) r x) enough
acts-written a (taken b ∷ es) h (f ∷ p) r o e enough = elim (Bool-cases (a == b)) [
  | inr other ↦
      let obeys = event-Obeys a (taken b) h o in
      let (more, w) =
        acts-written a es (act (taken b) h) (f ∷ p) r obeys.open_still
          (obeys.queue ∙ not_here a b (h.heap a).send other ∙ e) (ground (arith, other, enough)) in
      (more, rw other w)
  | inl self ↦
      let obeys = event-Obeys a (taken b) h o in
      let (more, w) =
        acts-written a es (act (taken b) h) p r obeys.open_still
          (obeys.queue ∙ here a b (h.heap a).send self ∙ ap dequeue e)
          (ground (arith, self, enough)) in
      (more, rw (self, e, w) refl)
]
