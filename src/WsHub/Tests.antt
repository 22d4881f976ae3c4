-- ===== src/WsHub/Tests.antt =====
-- A hub with one client, which is sent a message, goes, and is removed again.
use ciscollector_v.Common.{ℕ, ◌≡◌, refl, Option, none, some}
use ciscollector_v.WsHub.Defs.{
  Hub, new_hub, add_client, unregister, broadcast, Reachable, started, connected, unregistered,
  broadcasted,
}
use ciscollector_v.WsHub.Safety.{IsSound, Reachable-IsSound, Reachable-safe}

abbrev hub_or_new : Option (Hub ℕ) → Hub ℕ
hub_or_new none = new_hub
hub_or_new (some h) = h

abbrev told : Hub ℕ
told = hub_or_new (broadcast 7 (add_client new_hub))

abbrev left : Hub ℕ
left = hub_or_new (unregister 0 told)

left-Reachable : Reachable left
unfolding broadcast unregister new_hub add_client
left-Reachable = unregistered {h = told} 0 (broadcasted 7 (connected started) refl) refl

Reachable-IsSound_example : IsSound left
Reachable-IsSound_example = Reachable-IsSound {M = ℕ} {h = left} left-Reachable

Reachable-safe_example :
    ((h' : Hub ℕ) × (broadcast 8 left ≡ some h')) × ((h' : Hub ℕ) × (unregister 0 left ≡ some h'))
Reachable-safe_example = Reachable-safe {M = ℕ} {h = left} left-Reachable 8 0
