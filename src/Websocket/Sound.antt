-- ===== src/Websocket/Sound.antt =====
-- internal/websocket/hub.go: a registered connection can be sent to.
use vibe_net_backend.Base.{
  ℕ, suc, ◌≤◌, ◌<◌, true, false, some, List, [], ◌∷◌, ◌≡◌, ◌==◌, ==_iff, ℕ_eq, ltb, length, lookup,
  refl, sym, ◌∙◌, subst, arith, Bool-cases, inl, inr,
}
use vibe_net_backend.Websocket.Frames.{Frame, send_buffer_size}
use vibe_net_backend.Websocket.Hub.{Hub, Client, offer, enqueue}

-- The connections that entries name belong to their users and are open.
abbrev pub AllOpen : (ℕ → Client) → ℕ → List (ℕ × ℕ) → Type 0
AllOpen heap made [] = Unit
AllOpen heap made ((u, a) ∷ rest) =
    ((heap a).user_id ≡ u) × ((heap a).send_closed ≡ false) × (a < made) × AllOpen heap made rest

pub record IsSound (h : Hub) : Type 0 where
  pub all_open : AllOpen h.heap h.made h.clients
  pub readers : (a : ℕ) → a < h.made → (h.heap a).reading ≡ true → (h.heap a).send_closed ≡ false
  pub bounded : (a : ℕ) → length (h.heap a).send ≤ send_buffer_size

-- The heaps differ in queues only.
abbrev pub SameChannels : (ℕ → Client) → (ℕ → Client) → Type 0
SameChannels heap heap' =
    (a : ℕ)
    → ((heap' a).user_id ≡ (heap a).user_id)
      × ((heap' a).send_closed ≡ (heap a).send_closed)
      × ((heap' a).reading ≡ (heap a).reading)

pub AllOpen-same :
    (heap heap' : ℕ → Client) (made : ℕ) (m : List (ℕ × ℕ))
    → SameChannels heap heap'
    → AllOpen heap made m
    → AllOpen heap' made m
AllOpen-same heap heap' made [] same v = tt
AllOpen-same heap heap' made ((u, a) ∷ m) same (v, o, l, rest) =
    ((same a).0 ∙ v, (same a).1 ∙ o, l, AllOpen-same heap heap' made m same rest)

pub AllOpen-lookup :
    (heap : ℕ → Client) (made : ℕ) (m : List (ℕ × ℕ)) (u : ℕ) {a : ℕ}
    → AllOpen heap made m
    → lookup u m ≡ some a
    → (heap a).send_closed ≡ false
AllOpen-lookup heap made [] u v e = cc
AllOpen-lookup heap made ((w, b) ∷ m) u (v, o, l, rest) e = elim (Bool-cases (w == u)) [
  | inl s ↦ ground arith
  | inr s ↦ AllOpen-lookup heap made m u rest (ground arith)
]

-- The connection `a` of the user `me` is reading, in a sound hub.
pub record Serving (a me : ℕ) (h : Hub) : Type 0 where
  pub sound : IsSound h
  pub made : a < h.made
  pub reading : (h.heap a).reading ≡ true
  pub user : (h.heap a).user_id ≡ me

length-enqueue : (q : List Frame) (f : Frame) → length (enqueue q f) ≡ suc (length q)
length-enqueue [] f = refl
length-enqueue (g ∷ q) f = omega (arith, length-enqueue q f)

-- What a queueing step keeps.
pub record Queued (h h' : Hub) : Type 0 where
  pub clients : h'.clients ≡ h.clients
  pub made : h'.made ≡ h.made
  pub channels : SameChannels h.heap h'.heap
  pub bounded :
      ((a : ℕ) → length (h.heap a).send ≤ send_buffer_size)
      → (a : ℕ) → length (h'.heap a).send ≤ send_buffer_size

pub Queued-refl : (h : Hub) → Queued h h
Queued-refl h = record {
  clients = refl;
  made = refl;
  channels = λ a. (refl, refl, refl);
  bounded = λ b. b;
}

pub Queued-trans : (h h1 h2 : Hub) → Queued h h1 → Queued h1 h2 → Queued h h2
Queued-trans h h1 h2 p q = record {
  clients = q.clients ∙ p.clients;
  made = q.made ∙ p.made;
  channels = λ a. let s = p.channels a in let t = q.channels a in (t.0 ∙ s.0, t.1 ∙ s.1, t.2 ∙ s.2);
  bounded = λ b. q.bounded (p.bounded b);
}

pub Queued-IsSound : (h h' : Hub) → Queued h h' → IsSound h → IsSound h'
Queued-IsSound h h' q v = record {
  all_open =
      rw (q.clients, q.made) (AllOpen-same h.heap h'.heap h.made h.clients q.channels v.all_open);
  readers = λ a l r.
      (q.channels a).1 ∙ v.readers a (subst (λ n. a < n) q.made l) (sym (q.channels a).2 ∙ r);
  bounded = q.bounded v.bounded;
}

offer-Queued_open :
    (a : ℕ) (payload : Frame) (h : Hub)
    → (h.heap a).send_closed ≡ false
    → Queued h (offer a payload h).1
unfolding offer
offer-Queued_open a payload h open_ =
    elim (Bool-cases (ltb (length (h.heap a).send) send_buffer_size)) [
      | inl room ↦
          rw (open_, room)
            (record {
              clients = refl;
              made = refl;
              channels = λ b. ground arith;
              bounded =
                  λ v b. ground (arith, v b, length-enqueue (h.heap a).send payload, ==_iff b a);
            })
      | inr full ↦ rw (open_, full) (Queued-refl h)
    ]

-- A send on a closed channel queues nothing.
pub offer-Queued : (a : ℕ) (payload : Frame) (h : Hub) → Queued h (offer a payload h).1
unfolding offer
offer-Queued a payload h = elim (Bool-cases (h.heap a).send_closed) [
  | inl closed ↦
      rw closed (record {
        clients = refl;
        made = refl;
        channels = λ b. (refl, refl, refl);
        bounded = λ v. v;
      })
  | inr open_ ↦ offer-Queued_open a payload h open_
]
