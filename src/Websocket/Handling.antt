-- ===== src/Websocket/Handling.antt =====
-- internal/websocket/client.go: what its steps have in common, a handler of frames has.
use vibe_net_backend.Base.{
  ℕ, String, Bool, true, false, not, ◌||◌, Option, none, some, ◌≡◌, if◌then◌else◌, ◌==◌, ℕ_eq,
  String_eq, ltb, refl, ap, inl, inr, ◌⊎◌,
}
use vibe_net_backend.Websocket.Frames.{
  Frame, outbound, ack, read, presence, typing, pin, presence_update, InboundMessage, frame_read,
  frame_presence, frame_typing, frame_pin, frame_unpin,
}
use vibe_net_backend.Websocket.Hub.{
  Hub, World, Task, announce_online, handle_disconnect, save_message, record_dm_participants,
  deliver_to_user, deliver_to_group, is_group_member_cached,
}
use vibe_net_backend.Websocket.Client.{
  typing_frame, pin_frame, read_receipt, outbound_message, ack_frame, saved_message,
  group_chat_room_id, H, ◌>>=◌, done, user_of, go, query, online_of, try_send, or_now,
  or_new_string, handle_group_typing, handle_typing, handle_group_pin_toggle, handle_pin_toggle,
  handle_presence, handle_read_receipt, handle_group_chat_message, handle_chat_message,
  handle_message,
}

-- What a frame says of who sent it, `none` where it names nobody.
unfoldable pub says : Frame → Option String
says (outbound m) = some m.sender_id
says (ack f) = none
says (read f) = some f.reader_id
says (presence f) = none
says (typing f) = some f.sender_id
says (pin f) = none
says (presence_update f) = some f.user_id

-- The work that is done in the name of a user.
abbrev pub IsWorkOf : World → ℕ → Task → Type 0
IsWorkOf world u (announce_online v) = v ≡ u
IsWorkOf world u (handle_disconnect v) = v ≡ u
IsWorkOf world u (save_message m) = m.sender_id ≡ world.uuid_string u
IsWorkOf world u (record_dm_participants room v w) = v ≡ u

abbrev pub IsFrom : World → ℕ → Frame → Type 0
IsFrom world u f = (says f ≡ none) ⊎ (says f ≡ some (world.uuid_string u))

-- A property `steps` of what the handlers of connection `a` are made of, whose user is `me`.
pub record Discipline (world : World) (a me : ℕ) : Type 1 where
  pub steps : {A : Type 0} → H A → Type 0
  pub bind :
      {A B : Type 0} (m : H A) (f : A → H B) → steps m → ((x : A) → steps (f x)) → steps (m >>= f)
  pub return : steps done
  pub ask : {A : Type 0} (q : Hub → A) → steps (query q)
  pub as_user :
      {B : Type 0} (k : ℕ → H B) → ((u : ℕ) → u ≡ me → steps (k u)) → steps (user_of a >>= k)
  pub check_member : (g u : ℕ) → u ≡ me → steps (is_group_member_cached world g u)
  pub to_group :
      (g u : ℕ) (f : Frame) → u ≡ me → IsFrom world me f → steps (deliver_to_group world g u f)
  pub to_user : (r : ℕ) (f : Frame) → IsFrom world me f → steps (deliver_to_user r f)
  pub reply : (f : Frame) → IsFrom world me f → steps (try_send a f)
  pub go_on : (t : Task) → IsWorkOf world me t → steps (go t)
  pub read_clock : (t : ℕ) → steps (or_now world t)
  pub name_message : (id : String) → steps (or_new_string world id)

module _ (world : World) (a me : ℕ) (d : Discipline world a me) where
  if-steps :
      {A : Type 0} (b : Bool) (m k : H A) → d.steps m → d.steps k → d.steps (if b then m else k)
  if-steps true m k p q = p
  if-steps false m k p q = q

  -- The handler returns if the identifier does not parse.
  parsed-steps :
      (o : Option ℕ) (f : ℕ → H (Unit {0}))
      → ((g : ℕ) → d.steps (f g))
      → d.steps (elim o [ none ↦ done | some g ↦ f g ])
  parsed-steps none f p = d.return
  parsed-steps (some g) f p = p g

  then-return : {A : Type 0} (m : H A) → d.steps m → d.steps (m >>= λ _. done)
  then-return m p = d.bind m (λ _. done) p (λ _. d.return)

  -- What a group handler does once the identifier of the group is known.
  gated-steps :
      (g : ℕ) (k : ℕ → H (Unit {0}))
      → ((u : ℕ) → u ≡ me → d.steps (k u))
      → d.steps (
          user_of a >>= λ u.
          is_group_member_cached world g u >>= λ member. if not member then done else k u)
  gated-steps g k p = d.as_user _ (λ u e.
      d.bind (is_group_member_cached world g u) _ (d.check_member g u e)
        (λ member. if-steps (not member) done (k u) d.return (p u e)))

  named : {u : ℕ} → u ≡ me → some (world.uuid_string u) ≡ some (world.uuid_string me)
  named e = ap (λ v. some (world.uuid_string v)) e

  module _ (inbound : InboundMessage) where
    abbrev dm_missing : Bool
    dm_missing = inbound.receiver_id == "" || inbound.chat_room_id == ""

    handle_group_typing-steps : d.steps (handle_group_typing world a inbound)
    unfolding handle_group_typing says
    handle_group_typing-steps = parsed-steps (world.parse_uuid inbound.group_id) _ (λ g.
        gated-steps g _ (λ u e. then-return (deliver_to_group world g u _) (
          d.to_group g u
            (typing_frame world u inbound.group_id (group_chat_room_id world g) inbound) e
            (inr (named e)))))

    handle_group_pin_toggle-steps :
        (t : String) → d.steps (handle_group_pin_toggle world a inbound t)
    unfolding handle_group_pin_toggle says
    handle_group_pin_toggle-steps t = parsed-steps (world.parse_uuid inbound.group_id) _ (λ g.
        gated-steps g _ (λ u e. then-return (deliver_to_group world g u _) (
          d.to_group g u (pin_frame world t inbound.group_id (group_chat_room_id world g) inbound) e
            (inl refl))))

    handle_typing-steps : d.steps (handle_typing world a inbound)
    unfolding handle_typing says
    handle_typing-steps = if-steps (not (inbound.group_id == "")) _ _ handle_group_typing-steps (
        if-steps dm_missing done _ d.return (
          parsed-steps (world.parse_uuid inbound.receiver_id) _ (λ r. d.as_user _ (λ u e.
            then-return (deliver_to_user r _) (
              d.to_user r (typing_frame world u "" inbound.chat_room_id inbound)
                (inr (named e)))))))

    handle_pin_toggle-steps : (t : String) → d.steps (handle_pin_toggle world a inbound t)
    unfolding handle_pin_toggle says
    handle_pin_toggle-steps t = if-steps (inbound.message_id == "") done _ d.return (
        if-steps (not (inbound.group_id == "")) _ _ (handle_group_pin_toggle-steps t) (
          if-steps dm_missing done _ d.return (
            parsed-steps (world.parse_uuid inbound.receiver_id) _ (λ r.
              then-return (deliver_to_user r _)
                (d.to_user r (pin_frame world t "" inbound.chat_room_id inbound) (inl refl))))))

    handle_presence-steps : d.steps (handle_presence world a inbound)
    unfolding handle_presence says
    handle_presence-steps = d.bind (query (online_of world inbound.user_ids)) _ (d.ask _) (λ online.
        d.reply (presence (record { frame_type = frame_presence; online = online })) (inl refl))

    handle_read_receipt-steps : d.steps (handle_read_receipt world a inbound)
    unfolding handle_read_receipt says
    handle_read_receipt-steps = if-steps dm_missing done _ d.return (
        parsed-steps (world.parse_uuid inbound.receiver_id) _ (λ r. d.as_user _ (λ u e.
          then-return (deliver_to_user r _)
            (d.to_user r (read_receipt world u inbound) (inr (named e))))))

    handle_group_chat_message-steps : d.steps (handle_group_chat_message world a inbound)
    unfolding handle_group_chat_message says
    handle_group_chat_message-steps =
        if-steps (inbound.ciphertext == "" || inbound.nonce == "") done _ d.return (
          parsed-steps (world.parse_uuid inbound.group_id) _ (λ g. gated-steps g _ (λ u e.
            d.bind (or_now world inbound.timestamp) _ (d.read_clock _) (λ timestamp.
              d.bind (or_new_string world inbound.message_id) _ (d.name_message _) (λ id.
                d.bind (deliver_to_group world g u _) _
                  (d.to_group g u
                    (outbound_message world u inbound.group_id (group_chat_room_id world g) id
                      timestamp inbound)
                    e (inr (named e)))
                  (λ n.
                    d.bind (try_send a _) _
                      (d.reply (ack_frame world id (group_chat_room_id world g) (ltb 0 n))
                        (inl refl))
                      (λ _.
                        d.go_on
                          (save_message (
                            saved_message world u (group_chat_room_id world g) id timestamp
                              inbound))
                          (ap world.uuid_string e))))))))

    handle_chat_message-steps : d.steps (handle_chat_message world a inbound)
    unfolding handle_chat_message says
    handle_chat_message-steps =
        if-steps (not (inbound.group_id == "")) _ _ handle_group_chat_message-steps (
          if-steps
            (inbound.receiver_id == ""
              || inbound.chat_room_id == ""
              || inbound.ciphertext == ""
              || inbound.nonce == "")
            done _ d.return
            (parsed-steps (world.parse_uuid inbound.receiver_id) _ (λ r.
              d.bind (or_now world inbound.timestamp) _ (d.read_clock _) (λ timestamp.
                d.bind (or_new_string world inbound.message_id) _ (d.name_message _) (λ id.
                  d.as_user _ (λ u e.
                    d.bind (deliver_to_user r _) _
                      (d.to_user r
                        (outbound_message world u "" inbound.chat_room_id id timestamp inbound)
                        (inr (named e)))
                      (λ sent.
                        d.bind (try_send a _) _
                          (d.reply (ack_frame world id inbound.chat_room_id sent) (inl refl))
                          (λ _.
                            d.bind (go _) _
                              (d.go_on
                                (save_message
                                  (saved_message world u inbound.chat_room_id id timestamp inbound))
                                (ap world.uuid_string e))
                              (λ _.
                                d.go_on (record_dm_participants inbound.chat_room_id u r) e)))))))))

  pub handle_message-steps :
      (inbound : Option InboundMessage) → d.steps (handle_message world a inbound)
  unfolding handle_message
  handle_message-steps none = d.return
  handle_message-steps (some inbound) =
      if-steps (inbound.frame_type == frame_read) _ _ (handle_read_receipt-steps inbound) (
        if-steps (inbound.frame_type == frame_presence) _ _ (handle_presence-steps inbound) (
          if-steps (inbound.frame_type == frame_typing) _ _ (handle_typing-steps inbound) (
            if-steps (inbound.frame_type == frame_pin || inbound.frame_type == frame_unpin) _ _
              (handle_pin_toggle-steps inbound inbound.frame_type)
              (handle_chat_message-steps inbound))))
