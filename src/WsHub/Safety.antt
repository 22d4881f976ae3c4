-- ===== src/WsHub/Safety.antt =====
-- ws_hub.go: the states that the hub reaches, and its operations on closed channels.
use ciscollector_v.Common.{
  ℕ, ◌≤◌, ◌<◌, ◌≡◌, refl, sym, ap, ◌∙◌, ◌≢◌, inl, inr, true, false, not, ◌&&◌, some, List, [], ◌∷◌,
  ◌++◌, length, length-append, any, keep, All, ltb, ◌==◌, ==_iff, arith, Bool-cases,
}
use ciscollector_v.Common.Sorting.{Distinct}
use ciscollector_v.WsHub.Defs.{
  send_buffer, Hub, set_channel, has_client, drop_client, new_hub, add_client, close_client,
  unregister, send_or_drop, send_all, broadcast, rest_of, receive, Reachable, started, connected,
  unregistered, broadcasted, received,
}

any-drop_client :
    (c e : ℕ) (cs : List ℕ)
    → any (λ d. d == c) (drop_client e cs) ≡ (any (λ d. d == c) cs && not (e == c))
unfolding any drop_client keep
any-drop_client c e [] = refl
any-drop_client c e (d ∷ cs) = ground (arith, any-drop_client c e cs)

All-drop_client :
    (x e : ℕ) (cs : List ℕ) → All (λ y. x ≢ y) cs → All (λ y. x ≢ y) (drop_client e cs)
unfolding drop_client keep
All-drop_client x e [] h = tt
All-drop_client x e (d ∷ cs) (n, h) = elim (Bool-cases (d == e)) [
  | inl t ↦ rw t (All-drop_client x e cs h)
  | inr f ↦ rw f (n, All-drop_client x e cs h)
]

Distinct-drop_client : (e : ℕ) (cs : List ℕ) → Distinct cs → Distinct (drop_client e cs)
unfolding drop_client keep
Distinct-drop_client e [] h = tt
Distinct-drop_client e (d ∷ cs) (n, h) = elim (Bool-cases (d == e)) [
  | inl t ↦ rw t (Distinct-drop_client e cs h)
  | inr f ↦ rw f (All-drop_client d e cs n, Distinct-drop_client e cs h)
]

not_old :
    (n : ℕ) (cs : List ℕ) → ((c : ℕ) → any (λ d. d == c) cs ≡ true → c < n) → All (λ y. n ≢ y) cs
unfolding any
not_old n [] h = tt
not_old n (d ∷ cs) h =
    let lt : d < n = h d (ground arith) in
    ((λ e. omega arith), not_old n cs (λ c e. h c (ground arith)))

module _ {M : Type 0} where
  -- The registered clients have open channels and were made before; none is registered twice;
  -- and no channel has more than 16 messages.
  pub record IsSound (h : Hub M) : Type 0 where
    pub opened : (c : ℕ) → has_client c h ≡ true → (h.channels c).is_open ≡ true
    pub small : (c : ℕ) → length (h.channels c).queue ≤ send_buffer
    pub old : (c : ℕ) → has_client c h ≡ true → c < h.next
    pub distinct : Distinct h.clients

  new_hub-IsSound : IsSound new_hub
  unfolding new_hub has_client any
  new_hub-IsSound = record {
    opened = λ c e. ground arith;
    small = λ c. omega arith;
    old = λ c e. ground arith;
    distinct = tt;
  }

  add_client-IsSound : (h : Hub M) → IsSound h → IsSound (add_client h)
  unfolding add_client has_client any
  add_client-IsSound h s = record {
    opened = λ c e. ground (arith, s.opened c);
    small = λ c. ground (arith, s.small c);
    old = λ c e. ground (arith, s.old c);
    distinct = (not_old h.next h.clients s.old, s.distinct);
  }

  close_client-IsSound :
      (c : ℕ) (h : Hub M)
      → IsSound h
      → (h.channels c).is_open ≡ true
      → (h' : Hub M) × (close_client c h ≡ some h')
        × IsSound h'
        × ((d : ℕ) → d ≢ c → h'.channels d ≡ h.channels d)
  unfolding close_client has_client
  close_client-IsSound c h s o = (
    record h {
      clients = drop_client c h.clients;
      channels = set_channel c (record (h.channels c) { is_open = false }) h.channels;
    },
    rw o refl,
    record {
      opened =
          λ d e. ground (arith, s.opened d, any-drop_client d c h.clients, ==_iff d c, ==_iff c d);
      small = λ d. ground (arith, s.small d, s.small c);
      old = λ d e. ground (arith, s.old d, any-drop_client d c h.clients);
      distinct = Distinct-drop_client c h.clients s.distinct;
    },
    λ d n. ground (arith, ==_iff d c),
  )

  -- a change of a queue that keeps it within the buffer
  set_queue-IsSound :
      (c : ℕ) (h : Hub M) (q : List M)
      → IsSound h
      → length q ≤ send_buffer
      → IsSound
          (record h { channels = set_channel c (record (h.channels c) { queue = q }) h.channels })
  unfolding has_client
  set_queue-IsSound c h q s le = record {
    opened = λ d e. ground (arith, s.opened d, s.opened c, same_client d c h e);
    small = λ d. ground (arith, s.small d);
    old = s.old;
    distinct = s.distinct;
  }
    where
      same_client :
          (d c : ℕ) (h : Hub M)
          → any (λ e. e == d) h.clients ≡ true
          → (d == c) ≡ true
          → any (λ e. e == c) h.clients ≡ true
      same_client d c h e t = rw ((==_iff d c).0 t) at e

  length-rest_of : (q : List M) → length (rest_of q) ≤ length q
  length-rest_of [] = omega arith
  length-rest_of (m ∷ q) = omega arith

  receive-IsSound : (c : ℕ) (h : Hub M) → IsSound h → IsSound (receive c h)
  unfolding receive
  receive-IsSound c h s =
      set_queue-IsSound c h (rest_of (h.channels c).queue) s
        (omega (arith, length-rest_of (h.channels c).queue, s.small c))

  send_or_drop-close_client :
      (msg : M) (c : ℕ) (h : Hub M)
      → (h.channels c).is_open ≡ true
      → ltb (length (h.channels c).queue) send_buffer ≡ false
      → send_or_drop msg c h ≡ close_client c h
  unfolding send_or_drop
  send_or_drop-close_client msg c h o f = rw (o, f) refl

  send_or_drop-IsSound :
      (msg : M) (c : ℕ) (h : Hub M)
      → IsSound h
      → (h.channels c).is_open ≡ true
      → (h' : Hub M) × (send_or_drop msg c h ≡ some h')
        × IsSound h'
        × ((d : ℕ) → d ≢ c → h'.channels d ≡ h.channels d)
  unfolding send_or_drop
  send_or_drop-IsSound msg c h s o =
      elim (Bool-cases (ltb (length (h.channels c).queue) send_buffer)) [
        | inr f ↦
            let (h', e, sound, same) = close_client-IsSound c h s o in
            (h', send_or_drop-close_client msg c h o f ∙ e, sound, same)
        | inl t ↦
            let q = (h.channels c).queue ++ msg ∷ [] in
            (
              record h {
                channels = set_channel c (record (h.channels c) { queue = q }) h.channels;
              },
              rw (o, t) refl,
              set_queue-IsSound c h q s
                  (ground (arith, length-append (h.channels c).queue (msg ∷ []))),
              λ d n. ground (arith, ==_iff d c),
            )
      ]

  abbrev IsOpenIn : Hub M → ℕ → Type 0
  IsOpenIn h c = (h.channels c).is_open ≡ true

  still_open :
      (c : ℕ) (h h' : Hub M) (cs : List ℕ)
      → ((d : ℕ) → d ≢ c → h'.channels d ≡ h.channels d)
      → All (λ d. c ≢ d) cs
      → All (IsOpenIn h) cs
      → All (IsOpenIn h') cs
  still_open c h h' [] same n o = tt
  still_open c h h' (d ∷ cs) same (n, ns) (o, os) =
      (ap (λ ch. ch.is_open) (same d (λ e. n (sym e))) ∙ o, still_open c h h' cs same ns os)

  send_all-IsSound :
      (msg : M) (cs : List ℕ) (h : Hub M)
      → IsSound h
      → Distinct cs
      → All (IsOpenIn h) cs
      → (h' : Hub M) × (send_all msg cs h ≡ some h') × IsSound h'
  unfolding send_all
  send_all-IsSound msg [] h s n o = (h, refl, s)
  send_all-IsSound msg (c ∷ cs) h s (n, ns) (o, os) =
      let (mid, e, s', same) = send_or_drop-IsSound msg c h s o in
      let (h', run, sound) = send_all-IsSound msg cs mid s' ns (still_open c h mid cs same n os) in
      (h', rw e run, sound)

  All-opened :
      (h : Hub M) (cs : List ℕ)
      → ((c : ℕ) → any (λ d. d == c) cs ≡ true → IsOpenIn h c)
      → All (IsOpenIn h) cs
  unfolding any
  All-opened h [] f = tt
  All-opened h (c ∷ cs) f = (f c (ground arith), All-opened h cs (λ d e. f d (ground arith)))

  broadcast-IsSound :
      (msg : M) (h : Hub M) → IsSound h → (h' : Hub M) × (broadcast msg h ≡ some h') × IsSound h'
  unfolding broadcast has_client
  broadcast-IsSound msg h s =
      send_all-IsSound msg h.clients h s s.distinct (All-opened h h.clients s.opened)

  unregister-IsSound :
      (c : ℕ) (h : Hub M) → IsSound h → (h' : Hub M) × (unregister c h ≡ some h') × IsSound h'
  unfolding unregister
  unregister-IsSound c h s = elim (Bool-cases (has_client c h)) [
    | inr f ↦ (h, rw f refl, s)
    | inl t ↦
        let (h', e, sound, _) = close_client-IsSound c h s (s.opened c t) in (h', rw t e, sound)
  ]

  some_inj : {h h' : Hub M} → some h ≡ some h' → h ≡ h'
  some_inj e = cc

  -- In every state that the hub reaches the registered clients have open channels, were made
  -- before and are registered once, and no channel has more than 16 messages.
  pub Reachable-IsSound : {h : Hub M} → Reachable h → IsSound h
  Reachable-IsSound started = new_hub-IsSound
  Reachable-IsSound (connected {h = h} r) = add_client-IsSound h (Reachable-IsSound r)
  Reachable-IsSound (received {h = h} c r) = receive-IsSound c h (Reachable-IsSound r)
  Reachable-IsSound (unregistered {h = h} c r e) =
      let (h'', e', s) = unregister-IsSound c h (Reachable-IsSound r) in
      rw (some_inj (sym e' ∙ e)) at s
  Reachable-IsSound (broadcasted {h = h} msg r e) =
      let (h'', e', s) = broadcast-IsSound msg h (Reachable-IsSound r) in
      rw (some_inj (sym e' ∙ e)) at s

  -- In every state that the hub reaches, the events that send to clients or remove one succeed:
  -- the hub never sends on a closed channel and never closes one twice.
  pub Reachable-safe :
      {h : Hub M}
      → Reachable h
      → (msg : M) (c : ℕ)
      → ((h' : Hub M) × (broadcast msg h ≡ some h')) × ((h' : Hub M) × (unregister c h ≡ some h'))
  Reachable-safe {h} r msg c =
      let (a, e, _) = broadcast-IsSound msg h (Reachable-IsSound r) in
      let (b, f, _) = unregister-IsSound c h (Reachable-IsSound r) in ((a, e), (b, f))
