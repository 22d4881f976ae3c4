-- ===== src/WsHub/Defs.antt =====
-- The hub, its events and the states that they reach; `none` is a panic of a closed channel.
use ciscollector_v.Common.{
  ℕ, ◌+◌, ◌≡◌, Bool, true, false, not, Option, none, some, List, [], ◌∷◌, ◌++◌, length, any, keep,
  ltb, ◌==◌, if◌then◌else◌,
}
use ciscollector_v.Common.Options.{◌>>=◌}

-- the `send` channel of a client
pub record Channel (M : Type 0) : Type 0 where
  pub queue : List M
  pub is_open : Bool

abbrev pub send_buffer : ℕ
send_buffer = 16

-- The registered clients, in the order in which `range` visits them; the channels of all clients
-- that were made; and the number of the next client.
pub record Hub (M : Type 0) : Type 0 where
  pub clients : List ℕ
  pub channels : ℕ → Channel M
  pub next : ℕ

unfoldable pub drop_client : ℕ → List ℕ → List ℕ
unfolding keep
drop_client c cs = keep (λ d. not (d == c)) cs

module _ {M : Type 0} where
  abbrev pub set_channel : ℕ → Channel M → (ℕ → Channel M) → ℕ → Channel M
  set_channel c ch channels d = if d == c then ch else channels d

  unfoldable pub has_client : ℕ → Hub M → Bool
  unfolding any
  has_client c h = any (λ d. d == c) h.clients

  -- `NewHub`
  unfoldable pub new_hub : Hub M
  new_hub = record {
    clients = [];
    channels = λ c. record { queue = []; is_open = false };
    next = 0;
  }

  -- `AddClient`, with the `register` case of `Run`
  unfoldable pub add_client : Hub M → Hub M
  add_client h = record {
    clients = h.next ∷ h.clients;
    channels = set_channel h.next (record { queue = []; is_open = true }) h.channels;
    next = h.next + 1;
  }

  -- `close(client.send)` with `delete(h.clients, client)`
  unfoldable pub close_client : ℕ → Hub M → Option (Hub M)
  unfolding drop_client
  close_client c h =
      if (h.channels c).is_open
      then some (record h {
        clients = drop_client c h.clients;
        channels = set_channel c (record (h.channels c) { is_open = false }) h.channels;
      })
      else none

  -- the `unregister` case of `Run`
  unfoldable pub unregister : ℕ → Hub M → Option (Hub M)
  unfolding has_client close_client
  unregister c h = if has_client c h then close_client c h else some h

  -- the inner `select`: a send that does not block, or else the client goes
  unfoldable pub send_or_drop : M → ℕ → Hub M → Option (Hub M)
  unfolding close_client
  send_or_drop msg c h =
      if not (h.channels c).is_open
      then none
      else if ltb (length (h.channels c).queue) send_buffer
      then some (record h {
        channels =
            set_channel c (record (h.channels c) { queue = (h.channels c).queue ++ msg ∷ [] })
              h.channels;
      })
      else close_client c h

  unfoldable pub send_all : M → List ℕ → Hub M → Option (Hub M)
  unfolding send_or_drop
  send_all msg [] h = some h
  send_all msg (c ∷ cs) h = do h' ← send_or_drop msg c h; send_all msg cs h'

  -- the `broadcast` case of `Run`
  unfoldable pub broadcast : M → Hub M → Option (Hub M)
  unfolding send_all
  broadcast msg h = send_all msg h.clients h

  abbrev pub rest_of : List M → List M
  rest_of [] = []
  rest_of (m ∷ ms) = ms

  -- one receive of `WritePump`
  unfoldable pub receive : ℕ → Hub M → Hub M
  receive c h = record h {
    channels =
        set_channel c (record (h.channels c) { queue = rest_of (h.channels c).queue }) h.channels;
  }

-- The states that the events lead to.
pub data Reachable {M : Type 0} : Hub M → Type 0 where
  started : Reachable new_hub
  connected : {h : Hub M} → Reachable h → Reachable (add_client h)
  unregistered : {h h' : Hub M} (c : ℕ) → Reachable h → unregister c h ≡ some h' → Reachable h'
  broadcasted : {h h' : Hub M} (msg : M) → Reachable h → broadcast msg h ≡ some h' → Reachable h'
  received : {h : Hub M} (c : ℕ) → Reachable h → Reachable (receive c h)
