-- ===== src/Websocket/Delivery.antt =====
-- internal/websocket: what a delivery reports.
use vibe_net_backend.Base.{
  ℕ, ◌<◌, true, false, some, [], ◌∷◌, ◌++◌, ◌≡◌, ==_refl, ℕ_eq, String_eq, ltb, length, lookup,
  refl, arith, Bool-cases, Option-cases, inl, inr, ◌⊎◌,
}
use vibe_net_backend.Websocket.Frames.{Frame, send_buffer_size}
use vibe_net_backend.Websocket.Hub.{Hub, offer, deliver_to_user}
use vibe_net_backend.Websocket.Sound.{IsSound, AllOpen-lookup}
use vibe_net_backend.Websocket.Honesty.{enqueue-append}

-- The payload is the last one in the queue of `a`.
pub record IsQueued (a : ℕ) (payload : Frame) (h h' : Hub) : Type 0 where
  pub last : (h'.heap a).send ≡ (h.heap a).send ++ payload ∷ []
  pub room : length (h.heap a).send < send_buffer_size
  pub is_open : (h.heap a).send_closed ≡ false

offer-cases :
    (a : ℕ) (payload : Frame) (h : Hub)
    → (h.heap a).send_closed ≡ false
    → (((offer a payload h).0 ≡ true) × IsQueued a payload h (offer a payload h).1)
      ⊎ (((offer a payload h).0 ≡ false) × ((offer a payload h).1 ≡ h))
unfolding offer
offer-cases a payload h o = elim (Bool-cases (ltb (length (h.heap a).send) send_buffer_size)) [
  | inr full ↦ inr (rw (o, full) (refl, refl))
  | inl room ↦ inl (
      rw (o, room)
        (
          refl,
          record {
            last = rw (==_refl a) (enqueue-append (h.heap a).send payload);
            room = ground arith;
            is_open = o;
          },
        ))
]

-- In a sound hub, `DeliverToUser` that runs without a pause reports success with the payload as
-- the last one in the queue of the receiver's connection, which is open and had room, or it
-- reports failure and changes nothing.
pub deliver_to_user-IsQueued :
    (receiver : ℕ) (payload : Frame) (h : Hub)
    → IsSound h
    → (((deliver_to_user receiver payload h).0 ≡ true)
        × ((a : ℕ) × (lookup receiver h.clients ≡ some a)
            × IsQueued a payload h (deliver_to_user receiver payload h).1))
      ⊎ (((deliver_to_user receiver payload h).0 ≡ false)
          × ((deliver_to_user receiver payload h).1 ≡ h))
unfolding deliver_to_user
deliver_to_user-IsQueued receiver payload h v = elim (Option-cases (lookup receiver h.clients)) [
  | inl off ↦ inr (rw (off, deliver_to_user) (refl, refl))
  | inr (a, on) ↦
      elim (offer-cases a payload h
        (AllOpen-lookup h.heap h.made h.clients receiver v.all_open on)) [
          | inl (sent, queued) ↦ inl (rw (on, deliver_to_user) (sent, (a, refl, queued)))
          | inr (kept, same) ↦ inr (rw (on, deliver_to_user) (kept, same))
        ]
]
