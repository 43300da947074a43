-- ===== src/Websocket/Routing.antt =====
-- internal/websocket/hub.go: which connection a user is registered with.
use vibe_net_backend.Base.{
  ℕ, ◌<◌, false, some, ◌≡◌, ◌==◌, ==_iff, ==_refl, ℕ_eq, String_eq, lookup, lookup-erase_other, ap,
  ◌∙◌, arith, Bool-cases, Option-cases, inl, inr,
}
use vibe_net_backend.Websocket.Hub.{Hub, register, unregister, new_client, end_read_pump}

lookup-unregister :
    (u n old : ℕ) (h : Hub)
    → lookup u h.clients ≡ some n
    → (n == old) ≡ false
    → lookup u (unregister old h).clients ≡ some n
unfolding unregister
lookup-unregister u n old h e ne = elim (Option-cases (lookup (h.heap old).user_id h.clients)) [
  | inl off ↦ rw (off, unregister) e
  | inr (b, on) ↦
      rw (on, unregister)
        (elim (Bool-cases (b == old)) [
          | inr away ↦ rw away e
          | inl same ↦ rw same (
              lookup-erase_other u (h.heap old).user_id h.clients
                (elim (Bool-cases ((h.heap old).user_id == u)) [
                  | inr n' ↦ n'
                  | inl s ↦ absurd (
                      ground (
                        arith,
                        ==_iff (h.heap old).user_id u,
                        ==_iff b old,
                        ap (λ v. lookup v h.clients) ((==_iff (h.heap old).user_id u).0 s),
                        on,
                        e,
                        ==_iff n old,
                      ))
                ])
              ∙ e)
        ])
]

lookup-new_client : (u : ℕ) (h : Hub) → lookup u (new_client u h).clients ≡ some h.made
unfolding new_client register
lookup-new_client u h = ground (arith, ==_refl h.made, ==_refl u)

-- Once a user has connected, the end of any older connection, of that user or another, leaves the
-- user registered with the new one.
pub new_client-end_read_pump :
    (u old : ℕ) (h : Hub)
    → old < h.made
    → lookup u (end_read_pump old (new_client u h)).clients ≡ some h.made
unfolding end_read_pump
new_client-end_read_pump u old h l =
    lookup-unregister u h.made old (new_client u h) (lookup-new_client u h) (ground (arith, l))
