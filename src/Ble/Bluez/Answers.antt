-- ===== src/Ble/Bluez/Answers.antt =====
-- ble/adapter_linux.go: how the wait for a device's services ends, and connecting with it.
use pigsydust.Prelude.{
  ℕ, Bool, true, false, if◌then◌else◌, Bool-cases, inl, inr, List, [], ◌∷◌, ◌++◌, map,
}
use pigsydust.Prelude.{Option, some, ◌≡◌, refl, ◌∙◌}
use pigsydust.Prelude.Go.{Go, ok, err, panic, resolve_timeout}
use pigsydust.Client.{Done}
use pigsydust.Ble.Dbus.{Dynamic, Signal, bluez_device_iface}
use pigsydust.Ble.Bluez.{Bus, changes_of}
use pigsydust.Ble.Bluez.Wait.{Event, deadline, arrived, is_set, resolves, wait_loop, answered}
use pigsydust.Ble.Bluez.Wait.{under_match, wait_services_resolved}
use pigsydust.Ble.Bluez.Connect.{
  BluezConnection, connect_method, when_resolved, when_connected, connect,
}

abbrev pub any {ℓ} : {A : Type ℓ} → (A → Bool) → List A → Bool
any p [] = false
any p (x ∷ xs) = if p x then true else any p xs

module _ {V B : Type 0} (dyn : Dynamic V B) where
  wait_loop-arrived :
      (path : List ℕ) (sigs : List (Option (Signal B))) (rest : List (Event B))
      → wait_loop dyn path (map arrived sigs ++ rest)
        ≡ (if any (resolves dyn path) sigs then some (ok tt) else wait_loop dyn path rest)
  unfolding wait_loop
  wait_loop-arrived path [] rest = refl
  wait_loop-arrived path (sig ∷ sigs) rest = elim (Bool-cases (resolves dyn path sig)) [
    | inl e ↦ rw (e) refl
    | inr e ↦ rw (e) (wait_loop-arrived path sigs rest)
  ]

  -- Whatever signals come before the timer runs out, the wait ends then at the latest: with success
  -- exactly when one of them tells that the services are resolved, else with the time-out.
  pub wait_loop-deadline :
      (path : List ℕ) (sigs : List (Option (Signal B))) (after : List (Event B))
      → wait_loop dyn path (map arrived sigs ++ (deadline ∷ after))
        ≡ some (if any (resolves dyn path) sigs then ok tt else err resolve_timeout)
  unfolding wait_loop
  wait_loop-deadline path sigs after =
      wait_loop-arrived path sigs (deadline ∷ after)
      ∙ inside (any (resolves dyn path) sigs) (ok tt) (err resolve_timeout)
    where
      inside :
          (b : Bool) (x y : Go Done) → (if b then some x else some y) ≡ some (if b then x else y)
      inside true x y = refl
      inside false x y = refl

  module _ {S : Type 0} (bus : Bus V S) where
    when_resolved_answers :
        (mac path : List ℕ) (r : Go Done × S)
        → (c : Go BluezConnection × S) × (when_resolved dyn bus mac path (some r) ≡ some c)
    unfolding when_resolved
    when_resolved_answers mac path (ok done, s) = (_, refl)
    when_resolved_answers mac path (err e, s) = (_, refl)
    when_resolved_answers mac path (panic, s) = (_, refl)

    under_match_answers :
        (path : List ℕ) (events : List (Event B)) (a : Go Done) (w : Go Done) (s : S)
        → wait_loop dyn path events ≡ some w
        → (r : Go Done × S) × (under_match dyn bus path events a s ≡ some r)
    unfolding under_match
    under_match_answers path events (ok done) w s e = rw (e) (_, refl)
    under_match_answers path events (err x) w s e = (_, refl)
    under_match_answers path events panic w s e = (_, refl)

    wait_services_resolved_answers :
        (path : List ℕ) (events : List (Event B)) (s : S) (w : Go Done)
        → wait_loop dyn path events ≡ some w
        → (r : Go Done × S) × (wait_services_resolved dyn bus path events s ≡ some r)
    unfolding wait_services_resolved
    wait_services_resolved_answers path events s w e =
        elim (Bool-cases (is_set dyn (answered dyn now.0))) [
          | inl set ↦ rw (set) (_, refl)
          | inr unset ↦ rw (unset) (under_match_answers path events rule.0 w rule.1 e)
        ]
      where
        now : Go V × S
        now = bus.get_prop path bluez_device_iface "ServicesResolved" s

        rule : Go Done × S
        rule = bus.add_match (changes_of path) now.1

    when_connected_answers :
        (mac path : List ℕ) (events : List (Event B)) (w : Go Done) (c : Go Done × S)
        → wait_loop dyn path events ≡ some w
        → (r : Go BluezConnection × S) × (when_connected dyn bus mac path events c ≡ some r)
    unfolding when_connected
    when_connected_answers mac path events w (ok done, s) e =
        let waited = wait_services_resolved_answers path events s w e in
        rw (waited.1) (when_resolved_answers mac path waited.0)
    when_connected_answers mac path events w (err x, s) e = (_, refl)
    when_connected_answers mac path events w (panic, s) e = (_, refl)

    -- Connecting answers when the timer of its wait runs out, whatever the calls on the bus answered
    -- and whatever signals came before.
    pub connect_answers :
        (mac path : List ℕ) (sigs : List (Option (Signal B))) (after : List (Event B)) (s : S)
        → (r : Go BluezConnection × S) × (connect dyn bus mac path
              (map arrived sigs ++ (deadline ∷ after))
              s
            ≡ some r)
    unfolding connect
    connect_answers mac path sigs after s =
        when_connected_answers mac path _ _ (bus.call connect_method path s)
          (wait_loop-deadline path sigs after)
