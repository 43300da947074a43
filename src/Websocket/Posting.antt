-- ===== src/Websocket/Posting.antt =====
-- internal/websocket/client.go: who may post to a group, and what a direct message saves.
use vibe_net_backend.Base.{
  ℕ, String, true, false, ◌||◌, some, List, ◌∷◌, ◌≡◌, ◌≢◌, ◌==◌, ==_iff, ℕ_eq, String_eq, ltb,
  length, lookup, refl, ap, ◌∙◌, arith, Bool-cases, Option-cases, inl, inr, ◌⊎◌,
}
use vibe_net_backend.Websocket.Frames.{
  Frame, InboundMessage, send_buffer_size, frame_read, frame_presence, frame_typing, frame_pin,
  frame_unpin,
}
use vibe_net_backend.Websocket.Hub.{
  Hub, World, Task, save_message, record_dm_participants, offer, deliver_to_user,
  is_group_member_cached,
}
use vibe_net_backend.Websocket.Client.{
  try_send, or_now, or_new_string, handle_message, handle_chat_message, handle_group_chat_message,
  handle_typing, handle_group_typing, handle_pin_toggle, handle_group_pin_toggle, saved_message,
}
use vibe_net_backend.Websocket.Cache.{IsIdle, group_member_ids-IsIdle}

pub IsIdle-refl : (h : Hub) → IsIdle h h
IsIdle-refl h = record { clients = refl; made = refl; crashed = refl; heap = refl; tasks = refl }

pub checked-IsIdle :
    (world : World) (g u : ℕ) (h : Hub) → IsIdle h (is_group_member_cached world g u h).1
unfolding is_group_member_cached
checked-IsIdle world g u h = group_member_ids-IsIdle world g h

-- The frame of connection `a` is to the group `g`, whose member the user of `a` does not pass for.
module _ (world : World) (a g : ℕ) (inbound : InboundMessage) (h : Hub)
    (grouped : (inbound.group_id == "") ≡ false)
    (parsed : world.parse_uuid inbound.group_id ≡ some g)
    (out : (is_group_member_cached world g (h.heap a).user_id h).0 ≡ false) where
  handle_typing-IsIdle : IsIdle h (handle_typing world a inbound h).1
  unfolding handle_typing handle_group_typing
  handle_typing-IsIdle =
      rw grouped (rw (parsed, handle_group_typing) (rw out (checked-IsIdle world g _ h)))

  handle_pin_toggle-IsIdle : (t : String) → IsIdle h (handle_pin_toggle world a inbound t h).1
  unfolding handle_pin_toggle handle_group_pin_toggle
  handle_pin_toggle-IsIdle t = elim (Bool-cases (inbound.message_id == "")) [
    | inl e ↦ rw e (IsIdle-refl h)
    | inr e ↦
        rw (e, grouped) (rw (parsed, handle_group_pin_toggle) (rw out (checked-IsIdle world g _ h)))
  ]

  handle_chat_message-IsIdle : IsIdle h (handle_chat_message world a inbound h).1
  unfolding handle_chat_message handle_group_chat_message
  handle_chat_message-IsIdle =
      rw grouped (elim (Bool-cases (inbound.ciphertext == "" || inbound.nonce == "")) [
        | inl e ↦ rw (e, handle_group_chat_message) (IsIdle-refl h)
        | inr e ↦
            rw (e, handle_group_chat_message)
              (rw (parsed, handle_group_chat_message) (rw out (checked-IsIdle world g _ h)))
      ])

  -- A chat, typing or pin frame to a group whose sender does not pass for a member of it changes
  -- nothing but the cache: nothing is queued for anybody, and nothing is saved.
  pub handle_message-IsIdle :
      inbound.frame_type ≢ frame_read
      → inbound.frame_type ≢ frame_presence
      → IsIdle h (handle_message world a (some inbound) h).1
  unfolding handle_message
  handle_message-IsIdle not_read not_presence =
      rw (reads, asks)
        (elim (Bool-cases (inbound.frame_type == frame_typing)) [
          | inl e ↦ rw e handle_typing-IsIdle
          | inr e ↦
              rw e
                (elim (Bool-cases
                  (inbound.frame_type == frame_pin || inbound.frame_type == frame_unpin)) [
                    | inl k ↦ rw k (handle_pin_toggle-IsIdle inbound.frame_type)
                    | inr k ↦ rw k handle_chat_message-IsIdle
                  ])
        ])
    where
      reads : (inbound.frame_type == frame_read) ≡ false
      reads = ground (arith, ==_iff inbound.frame_type frame_read, not_read)

      asks : (inbound.frame_type == frame_presence) ≡ false
      asks = ground (arith, ==_iff inbound.frame_type frame_presence, not_presence)

pub offer-tasks : (a : ℕ) (f : Frame) (h : Hub) → (offer a f h).1.tasks ≡ h.tasks
unfolding offer
offer-tasks a f h = elim (Bool-cases (h.heap a).send_closed) [
  | inl e ↦ rw e refl
  | inr e ↦ rw e (elim (Bool-cases (ltb (length (h.heap a).send) send_buffer_size)) [
    | inl k ↦ rw k refl
    | inr k ↦ rw k refl
  ])
]

deliver_to_user-tasks : (r : ℕ) (f : Frame) (h : Hub) → (deliver_to_user r f h).1.tasks ≡ h.tasks
unfolding deliver_to_user
deliver_to_user-tasks r f h = elim (Option-cases (lookup r h.clients)) [
  | inl e ↦ rw (e, deliver_to_user) refl
  | inr (a, e) ↦ rw (e, deliver_to_user) (offer-tasks a f h)
]

-- The identifier and the time of the frame, where it has them.
pub record IsNamed (inbound : InboundMessage) (id : String) (timestamp : ℕ) : Type 0 where
  pub named : (id ≡ inbound.message_id) ⊎ (inbound.message_id ≡ "")
  pub timed : (timestamp ≡ inbound.timestamp) ⊎ (inbound.timestamp ≡ 0)

module _ (world : World) where
  pub or_now-IsIdle : (t : ℕ) (h : Hub) → IsIdle h (or_now world t h).1
  unfolding or_now
  or_now-IsIdle t h = elim (Bool-cases (t == 0)) [
    | inl e ↦
        rw e (record { clients = refl; made = refl; crashed = refl; heap = refl; tasks = refl })
    | inr e ↦ rw e (IsIdle-refl h)
  ]

  pub or_new_string-IsIdle : (id : String) (h : Hub) → IsIdle h (or_new_string world id h).1
  unfolding or_new_string
  or_new_string-IsIdle id h = elim (Bool-cases (id == "")) [
    | inl e ↦
        rw e (record { clients = refl; made = refl; crashed = refl; heap = refl; tasks = refl })
    | inr e ↦ rw e (IsIdle-refl h)
  ]

  pub IsNamed_lem :
      (inbound : InboundMessage) (h h' : Hub)
      → IsNamed inbound
          (or_new_string world inbound.message_id h').0
          (or_now world inbound.timestamp h).0
  unfolding or_now or_new_string
  IsNamed_lem inbound h h' = record {
    named = elim (Bool-cases (inbound.message_id == "")) [
      | inl e ↦ inr ((==_iff inbound.message_id "").0 e)
      | inr e ↦ inl (rw e refl)
    ];
    timed = elim (Bool-cases (inbound.timestamp == 0)) [
      | inl e ↦ inr ((==_iff inbound.timestamp 0).0 e)
      | inr e ↦ inl (rw e refl)
    ];
  }

  -- A direct message with all its fields is saved under the very room that its frame names, with
  -- the user of the connection as its sender, the ciphertext and the nonce of the frame, and the
  -- identifier and the time of the frame where it has them, and the room is indexed for that user
  -- and the receiver; nothing is asked of the room.
  pub handle_chat_message-saved :
      (a receiver : ℕ) (inbound : InboundMessage) (h : Hub)
      → inbound.group_id ≡ ""
      → (inbound.receiver_id ≢ "")
        × (inbound.chat_room_id ≢ "")
        × (inbound.ciphertext ≢ "")
        × (inbound.nonce ≢ "")
      → world.parse_uuid inbound.receiver_id ≡ some receiver
      → (id : String) × (timestamp : ℕ) × IsNamed inbound id timestamp
        × ((handle_chat_message world a inbound h).1.tasks
            ≡ record_dm_participants inbound.chat_room_id (h.heap a).user_id receiver
              ∷ save_message (record {
                chat_room_id = inbound.chat_room_id;
                timestamp = timestamp;
                message_id = id;
                sender_id = world.uuid_string (h.heap a).user_id;
                ciphertext = inbound.ciphertext;
                nonce = inbound.nonce;
              })
              ∷ h.tasks)
  unfolding handle_chat_message try_send
  handle_chat_message-saved a receiver inbound h direct (r, c, t, n) parsed =
      let h1 = (or_now world inbound.timestamp h).1 in
      let h2 = (or_new_string world inbound.message_id h1).1 in
      let i1 = or_now-IsIdle inbound.timestamp h in
      let i2 = or_new_string-IsIdle inbound.message_id h1 in
      (
        (or_new_string world inbound.message_id h1).0,
        (or_now world inbound.timestamp h).0,
        IsNamed_lem inbound h h1,
        rw (whole, complete)
            (rw (parsed, handle_chat_message)
              (ap (λ ts. started (h2.heap a).user_id ts)
                  (offer-tasks a _ _ ∙ deliver_to_user-tasks receiver _ h2 ∙ i2.tasks ∙ i1.tasks)
                ∙ ap (λ u. started u h.tasks) (ap (λ g. (g a).user_id) (i2.heap ∙ i1.heap)))),
      )
    where
      started : ℕ → List Task → List Task
      started u ts =
          record_dm_participants inbound.chat_room_id u receiver
          ∷ save_message (
              saved_message world u inbound.chat_room_id
                (or_new_string world inbound.message_id (or_now world inbound.timestamp h).1).0
                (or_now world inbound.timestamp h).0 inbound)
          ∷ ts

      whole : (inbound.group_id == "") ≡ true
      whole = (==_iff inbound.group_id "").1 direct

      complete :
          (inbound.receiver_id == ""
            || inbound.chat_room_id == ""
            || inbound.ciphertext == ""
            || inbound.nonce == "")
          ≡ false
      complete = ground (
        arith,
        ==_iff inbound.receiver_id "",
        ==_iff inbound.chat_room_id "",
        ==_iff inbound.ciphertext "",
        ==_iff inbound.nonce "",
        r,
        c,
        t,
        n,
      )
