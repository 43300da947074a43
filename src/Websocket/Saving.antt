-- ===== src/Websocket/Saving.antt =====
-- internal/websocket/client.go: where a group message is saved.
use Prim.Native.String.{◌++◌}
use vibe_net_backend.Base.{
  ℕ, String, true, false, ◌||◌, some, List, [], ◌∷◌, ◌≡◌, ◌==◌, ==_iff, ℕ_eq, String_eq, lookup,
  refl, ap, ◌∙◌, arith, Bool-cases, Option-cases, ◌≢◌, inl, inr,
}
use vibe_net_backend.Websocket.Frames.{Frame, InboundMessage}
use vibe_net_backend.Websocket.Hub.{
  Hub, World, save_message, offer, fan_out, deliver_to_group, group_member_ids,
  is_group_member_cached,
}
use vibe_net_backend.Websocket.Client.{
  try_send, or_now, or_new_string, handle_group_chat_message, saved_message, group_chat_room_id,
}
use vibe_net_backend.Websocket.Cache.{group_member_ids-IsIdle}
use vibe_net_backend.Websocket.Posting.{
  checked-IsIdle, or_now-IsIdle, or_new_string-IsIdle, offer-tasks, IsNamed, IsNamed_lem,
}

fan_out-tasks :
    (sender : ℕ) (f : Frame) (members : List ℕ) (h : Hub)
    → (fan_out sender f members h).1.tasks ≡ h.tasks
unfolding fan_out
fan_out-tasks sender f [] h = refl
fan_out-tasks sender f (m ∷ members) h = elim (Bool-cases (m == sender)) [
  | inl e ↦ rw e (fan_out-tasks sender f members h)
  | inr e ↦ rw e (elim (Option-cases (lookup m h.clients)) [
    | inl off ↦ rw off (fan_out-tasks sender f members h)
    | inr (a, on) ↦ rw on (fan_out-tasks sender f members (offer a f h).1 ∙ offer-tasks a f h)
  ])
]

module _ (world : World) where
  deliver_to_group-tasks :
      (g u : ℕ) (f : Frame) (h : Hub) → (deliver_to_group world g u f h).1.tasks ≡ h.tasks
  unfolding deliver_to_group
  deliver_to_group-tasks g u f h = elim (Option-cases (group_member_ids world g h).0) [
    | inl e ↦ rw (e, deliver_to_group) (group_member_ids-IsIdle world g h).tasks
    | inr (ids, e) ↦
        rw (e, deliver_to_group)
          (fan_out-tasks u f ids (group_member_ids world g h).1
            ∙ (group_member_ids-IsIdle world g h).tasks)
  ]

  -- A group message with its fields, of a user who passes for a member, is saved once, as a row
  -- under the room "group:" with the identifier of the group, with that user as its sender, the
  -- ciphertext and the nonce of the frame, and the identifier and the time of the frame where it
  -- has them.
  pub handle_group_chat_message-saved :
      (a g : ℕ) (inbound : InboundMessage) (h : Hub)
      → (inbound.ciphertext ≢ "") × (inbound.nonce ≢ "")
      → world.parse_uuid inbound.group_id ≡ some g
      → (is_group_member_cached world g (h.heap a).user_id h).0 ≡ true
      → (id : String) × (timestamp : ℕ) × IsNamed inbound id timestamp
        × ((handle_group_chat_message world a inbound h).1.tasks
            ≡ save_message (record {
              chat_room_id = "group:" ++ world.uuid_string g;
              timestamp = timestamp;
              message_id = id;
              sender_id = world.uuid_string (h.heap a).user_id;
              ciphertext = inbound.ciphertext;
              nonce = inbound.nonce;
            })
              ∷ h.tasks)
  unfolding handle_group_chat_message try_send group_chat_room_id
  handle_group_chat_message-saved a g inbound h (c, n) parsed member =
      let me = (h.heap a).user_id in
      let h0 = (is_group_member_cached world g me h).1 in
      let h1 = (or_now world inbound.timestamp h0).1 in
      let h2 = (or_new_string world inbound.message_id h1).1 in
      (
        (or_new_string world inbound.message_id h1).0,
        (or_now world inbound.timestamp h0).0,
        IsNamed_lem world inbound h0 h1,
        rw complete (
            rw (parsed, handle_group_chat_message)
              (rw member (
                ap
                  (λ ts.
                    save_message (
                      saved_message world me (group_chat_room_id world g)
                        (or_new_string world inbound.message_id h1).0
                        (or_now world inbound.timestamp h0).0 inbound)
                    ∷ ts)
                  (offer-tasks a _ _
                    ∙ deliver_to_group-tasks g me _ h2
                    ∙ (or_new_string-IsIdle world inbound.message_id h1).tasks
                    ∙ (or_now-IsIdle world inbound.timestamp h0).tasks
                    ∙ (checked-IsIdle world g me h).tasks)))),
      )
    where
      complete : (inbound.ciphertext == "" || inbound.nonce == "") ≡ false
      complete = ground (arith, ==_iff inbound.ciphertext "", ==_iff inbound.nonce "", c, n)
