-- ===== src/Ble/Bluez/Wait.antt =====
-- ble/adapter_linux.go, waitServicesResolved: waiting until BlueZ knows a device's services.
use pigsydust.Prelude.{ℕ, Bool, false, not, ◌||◌, if◌then◌else◌, bytes_eq, List, [], ◌∷◌}
use pigsydust.Prelude.{Option, none, some}
use pigsydust.Prelude.Go.{Go, ok, err, panic, Error, context, resolve_timeout}
use pigsydust.Prelude.Maps.{string_key, get}
use pigsydust.Client.{Done}
use pigsydust.Ble.Dbus.{Dynamic, Signal, ◌>>=◌, prop_properties_chang, bluez_device_iface}
use pigsydust.Ble.Discovery.{changed}
use pigsydust.Ble.Bluez.{Bus, changes_of}

-- What the `select` of a round takes: the context's end, the timer, or a signal (`none` for nil).
pub data Event (B : Type 0) : Type 0 where
  cancelled : Error → Event B
  deadline : Event B
  arrived : Option (Signal B) → Event B

module _ {V B : Type 0} (dyn : Dynamic V B) where
  -- `v.Value().(bool)`, and that it is true.
  unfoldable pub is_set : Option V → Bool
  is_set none = false
  is_set (some v) = elim (dyn.flag_of v) [ none ↦ false | some b ↦ b ]

  -- A signal that tells that the services of the object are resolved.
  unfoldable pub resolves : List ℕ → Option (Signal B) → Bool
  resolves path none = false
  resolves path (some sig) =
      if not (bytes_eq sig.path path) || not (string_key.same sig.name prop_properties_chang)
      then false
      else is_set (changed dyn sig.path sig.body >>= (λ news. get "ServicesResolved" news.1))

  -- The loop over what the rounds take; `none` while it still waits.
  unfoldable pub wait_loop : List ℕ → List (Event B) → Option (Go Done)
  wait_loop path [] = none
  wait_loop path (cancelled e ∷ events) = some (err e)
  wait_loop path (deadline ∷ events) = some (err resolve_timeout)
  wait_loop path (arrived sig ∷ events) =
      if resolves path sig then some (ok tt) else wait_loop path events

  unfoldable pub answered : Go V → Option V
  answered (ok v) = some v
  answered (err e) = none
  answered panic = none

  module _ {S : Type 0} (bus : Bus V S) where
    -- The deferred `RemoveMatch` runs when the loop has returned.
    unfoldable pub under_match : List ℕ → List (Event B) → Go Done → S → Option (Go Done × S)
    under_match path events (ok done) s = do
      r ← wait_loop path events
      some (r, bus.remove_match (changes_of path) s)
    under_match path events (err e) s = some (err (context e), s)
    under_match path events panic s = some (panic, s)

    unfoldable pub wait_services_resolved : List ℕ → List (Event B) → S → Option (Go Done × S)
    wait_services_resolved path events s =
        let now = bus.get_prop path bluez_device_iface "ServicesResolved" s in
        let rule = bus.add_match (changes_of path) now.1 in
        if is_set (answered now.0)
        then some (ok tt, now.1)
        else under_match path events rule.0 rule.1
