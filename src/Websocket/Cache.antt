-- ===== src/Websocket/Cache.antt =====
-- internal/websocket/hub.go: the cache of member lists, and how old its answers may be.
use vibe_net_backend.Base.{
  ℕ, suc, ◌+◌, ◌≤◌, ◌<◌, true, not, Option, some, List, [], ◌≡◌, ◌==◌, ==_iff, ℕ_eq, ltb, lookup,
  lookup-erase_same, lookup-store, lookup-erase_other, refl, sym, ap, ◌∙◌, subst, arith, Bool-cases,
  Option-cases, inl, inr,
}
use vibe_net_backend.Base.{if-both, if-not}
use vibe_net_backend.Websocket.Hub.{
  cached_member_ids, Hub, World, GroupMembersEntry, group_members_ttl, tick, fetch_member_ids,
  group_member_ids, invalidate_group,
}

-- Only the cache and the count of events differ.
pub record IsIdle (h h' : Hub) : Type 0 where
  pub clients : h'.clients ≡ h.clients
  pub made : h'.made ≡ h.made
  pub crashed : h'.crashed ≡ h.crashed
  pub heap : h'.heap ≡ h.heap
  pub tasks : h'.tasks ≡ h.tasks

idle_lem :
    (h : Hub) (n : ℕ) (m : List (ℕ × GroupMembersEntry))
    → IsIdle h (record h { events = n; group_members = m })
idle_lem h n m = record { clients = refl; made = refl; crashed = refl; heap = refl; tasks = refl }

-- An answer that the database gave to an earlier query, and that was stored at the next event.
pub record IsAnswer (world : World) (events g : ℕ) (ids : List ℕ) (stored : ℕ) : Type 0 where
  pub asked : ℕ
  pub next : stored ≡ suc asked
  pub past : stored < events
  pub same : world.answer asked g ≡ some ids

-- Every entry of the cache is such an answer, and expires 30 seconds after it was stored.
unfoldable pub HasAnswers : World → Hub → Type 0
HasAnswers world h =
    (g : ℕ) (entry : GroupMembersEntry)
    → lookup g h.group_members ≡ some entry
    → (m : ℕ) × IsAnswer world h.events g entry.member_ids m
      × (entry.expires_at ≡ world.clock m + group_members_ttl)

module _ (world : World) (g : ℕ) where
  fetch_member_ids-IsIdle : (h : Hub) → IsIdle h (fetch_member_ids world g h).1
  unfolding fetch_member_ids
  fetch_member_ids-IsIdle h = elim (Option-cases (world.answer h.events g)) [
    | inl e ↦ rw (e, fetch_member_ids) (idle_lem h _ _)
    | inr (ids, e) ↦ rw (e, fetch_member_ids) (idle_lem h _ _)
  ]

  cached_member_ids-IsIdle : (h : Hub) → IsIdle h (cached_member_ids world g h).1
  unfolding cached_member_ids
  cached_member_ids-IsIdle h = elim (Option-cases (lookup g h.group_members)) [
    | inl k ↦ rw (k, cached_member_ids) (fetch_member_ids-IsIdle h)
    | inr (entry, k) ↦
        rw (k, cached_member_ids)
          (elim (Bool-cases (ltb (world.clock h.events) entry.expires_at)) [
            | inl f ↦ rw f (idle_lem h _ _)
            | inr f ↦ rw f (
                let q = fetch_member_ids-IsIdle (tick h) in
                record {
                  clients = q.clients;
                  made = q.made;
                  crashed = q.crashed;
                  heap = q.heap;
                  tasks = q.tasks;
                })
          ])
  ]

  pub group_member_ids-IsIdle : (h : Hub) → IsIdle h (group_member_ids world g h).1
  unfolding group_member_ids
  group_member_ids-IsIdle h =
      if-both (λ (r : Option (List ℕ) × Hub). IsIdle h r.1) (not world.has_postgres) (some [], h)
        (cached_member_ids world g h) (idle_lem h _ _) (cached_member_ids-IsIdle h)

IsAnswer-later :
    (world : World) (n n' g : ℕ) (ids : List ℕ) (m : ℕ)
    → n ≤ n'
    → IsAnswer world n g ids m
    → IsAnswer world n' g ids m
IsAnswer-later world n n' g ids m le a = record {
  asked = a.asked;
  next = a.next;
  past = omega (arith, le, a.past);
  same = a.same;
}

-- The cache is the same, at a later event.
pub HasAnswers-later :
    (world : World) (h h' : Hub)
    → h'.group_members ≡ h.group_members
    → h.events ≤ h'.events
    → HasAnswers world h
    → HasAnswers world h'
unfolding HasAnswers
HasAnswers-later world h h' same le v g entry e =
    let (m, a, x) = v g entry (ap (lookup g) (sym same) ∙ e) in
    (m, IsAnswer-later world h.events h'.events g entry.member_ids m le a, x)

pub invalidate_group-HasAnswers :
    (world : World) (g : ℕ) (h : Hub) → HasAnswers world h → HasAnswers world (invalidate_group g h)
unfolding HasAnswers invalidate_group
invalidate_group-HasAnswers world g h v k entry e = elim (Bool-cases (g == k)) [
  | inl s ↦ absurd (ground (arith, ==_iff g k, lookup-erase_same g h.group_members))
  | inr n ↦ v k entry (sym (lookup-erase_other k g h.group_members n) ∙ e)
]

module _ (world : World) (g : ℕ) where
  fetch_member_ids-HasAnswers :
      (h : Hub) → HasAnswers world h → HasAnswers world (fetch_member_ids world g h).1
  unfolding HasAnswers fetch_member_ids
  fetch_member_ids-HasAnswers h v = elim (Option-cases (world.answer h.events g)) [
    | inl e ↦ rw (e, fetch_member_ids) (HasAnswers-later world h (tick h) refl (omega arith) v)
    | inr (ids, e) ↦
        rw (e, fetch_member_ids)
          (λ k entry found. elim (lookup-store k g _ h.group_members found) [
            | inl (here, new) ↦ (
              suc h.events,
              record {
                asked = h.events;
                next = refl;
                past = omega arith;
                same =
                    rw (sym here) (e ∙ ap some (ap (λ (x : GroupMembersEntry). x.member_ids) new));
              },
              ap (λ (x : GroupMembersEntry). x.expires_at) (sym new),
            )
            | inr old ↦
                let (m, a, x) = v k entry old in
                (
                  m,
                  IsAnswer-later world h.events (suc (suc h.events)) k entry.member_ids m
                      (omega arith) a,
                  x,
                )
          ])
  ]

  cached_member_ids-HasAnswers :
      (h : Hub) → HasAnswers world h → HasAnswers world (cached_member_ids world g h).1
  unfolding cached_member_ids
  cached_member_ids-HasAnswers h v = elim (Option-cases (lookup g h.group_members)) [
    | inl k ↦ rw (k, cached_member_ids) (fetch_member_ids-HasAnswers h v)
    | inr (entry, k) ↦
        let w = HasAnswers-later world h (tick h) refl (omega arith) v in
        rw (k, cached_member_ids)
          (elim (Bool-cases (ltb (world.clock h.events) entry.expires_at)) [
            | inl f ↦ rw f w
            | inr f ↦ rw f (fetch_member_ids-HasAnswers (tick h) w)
          ])
  ]

  pub group_member_ids-HasAnswers :
      (h : Hub) → HasAnswers world h → HasAnswers world (group_member_ids world g h).1
  unfolding group_member_ids
  group_member_ids-HasAnswers h v =
      if-both (λ (r : Option (List ℕ) × Hub). HasAnswers world r.1) (not world.has_postgres)
        (some [], h) (cached_member_ids world g h) v (cached_member_ids-HasAnswers h v)

-- What the hub takes for the members of a group: an answer of the database that was stored at
-- the next event, less than 30 seconds before.
pub record IsRecent (world : World) (g start stop : ℕ) (ids : List ℕ) : Type 0 where
  pub stored : ℕ
  pub answer : IsAnswer world stop g ids stored
  pub fresh : world.clock start < world.clock stored + group_members_ttl

module _ (world : World) (g : ℕ) (steady : (i j : ℕ) → i ≤ j → world.clock i ≤ world.clock j) where
  fetched-IsRecent :
      (h : Hub) (start : ℕ) {ids : List ℕ}
      → start ≤ h.events
      → (fetch_member_ids world g h).0 ≡ some ids
      → IsRecent world g start (fetch_member_ids world g h).1.events ids
  unfolding fetch_member_ids
  fetched-IsRecent h start {ids} le e = elim (Option-cases (world.answer h.events g)) [
    | inl none' ↦ absurd (ground arith)
    | inr (ids', k) ↦
        let given : ids' ≡ ids = ground arith in
        rw (k, fetch_member_ids)
          (record {
            stored = suc h.events;
            answer = record {
              asked = h.events;
              next = refl;
              past = omega arith;
              same = k ∙ ap some given;
            };
            fresh = omega (arith, steady start (suc h.events) (omega (arith, le)));
          })
  ]

  cached-IsRecent :
      (h : Hub) {ids : List ℕ}
      → HasAnswers world h
      → (cached_member_ids world g h).0 ≡ some ids
      → IsRecent world g h.events (cached_member_ids world g h).1.events ids
  unfolding cached_member_ids HasAnswers
  cached-IsRecent h {ids} v = elim (Option-cases (lookup g h.group_members)) [
    | inl k ↦ rw (k, cached_member_ids) (λ e. fetched-IsRecent h h.events (omega arith) e)
    | inr (entry, k) ↦
        rw (k, cached_member_ids)
          (elim (Bool-cases (ltb (world.clock h.events) entry.expires_at)) [
            | inr f ↦ rw f (λ e. fetched-IsRecent (tick h) h.events (omega arith) e)
            | inl f ↦ rw f (λ e.
                let (m, a, x) = v g entry k in
                let given : entry.member_ids ≡ ids = ground arith in
                record {
                  stored = m;
                  answer =
                      subst (λ l. IsAnswer world (suc h.events) g l m) given
                        (IsAnswer-later world h.events (suc h.events) g entry.member_ids m
                          (omega arith) a);
                  fresh = ground (arith, x);
                })
          ])
  ]

  -- The members that `GroupMemberIDs` returns are an answer that the database gave to a query for
  -- this group and that was stored less than 30 seconds before the call, or during it. The hub has
  -- a database, its cache holds answers only, and the clock does not go back.
  pub group_member_ids-IsRecent :
      (h : Hub) {ids : List ℕ}
      → world.has_postgres ≡ true
      → HasAnswers world h
      → (group_member_ids world g h).0 ≡ some ids
      → IsRecent world g h.events (group_member_ids world g h).1.events ids
  unfolding group_member_ids
  group_member_ids-IsRecent h {ids} on v e =
      let same : group_member_ids world g h ≡ cached_member_ids world g h =
        if-not world.has_postgres (some [], h) (cached_member_ids world g h) on in
      subst (λ (r : Option (List ℕ) × Hub). IsRecent world g h.events r.1.events ids) (sym same)
        (cached-IsRecent h v (ap (λ (r : Option (List ℕ) × Hub). r.0) (sym same) ∙ e))
