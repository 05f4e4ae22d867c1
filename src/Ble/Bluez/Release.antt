-- ===== src/Ble/Bluez/Release.antt =====
-- ble/adapter_linux.go: the calls that disconnect a device.
use Prim.Native.String.{String}
use pigsydust.Prelude.{ℕ, false, List, [], ◌∷◌, Option, none, some, ◌≡◌, ◌≢◌, refl, ap, arith}
use pigsydust.Prelude.{subst, inl, inr, Bool-cases}
use pigsydust.Prelude.Go.{Go, ok, err, panic, Error, context, char_not_found, bind_total}
use pigsydust.Prelude.Maps.{bytes_key, get}
use pigsydust.Client.{Done}
use pigsydust.Ble.Link.{in_context}
use pigsydust.Ble.Dbus.{Dynamic, Interfaces, ◌>>=◌, bluez_device_iface}
use pigsydust.Ble.Uuid.{char_notify_uuid, char_cmd_uuid, char_pair_uuid}
use pigsydust.Ble.Bluez.{Bus, Rule, changes_of, get_managed_objects}
use pigsydust.Ble.Bluez.Wait.{
  Event, cancelled, deadline, arrived, is_set, resolves, wait_loop, answered, under_match,
  wait_services_resolved,
}
use pigsydust.Ble.Bluez.Connect.{
  Chars, BluezConnection, require, required, connect_method, disconnect_method, close_conn, give_up,
  hand_out, enumerate, when_resolved, when_connected, connect,
}

-- Looking for the characteristics does not panic.
require_total :
    (table : List (List ℕ × List ℕ)) (u : List ℕ) (name : String) → require table u name ≢ panic
unfolding require
require_total table u name = go (get u table)
  where
    go :
        (o : Option (List ℕ))
        → (elim o [ none ↦ err (char_not_found name) | some path ↦ ok path ]) ≢ panic
    go none e = absurd (ground arith)
    go (some path) e = absurd (ground arith)

required_total : (table : List (List ℕ × List ℕ)) → required table ≢ panic
unfolding required
required_total table =
    bind_total (require table char_notify_uuid "CHAR_NOTIFY") _ (require_total table _ _) (λ n.
      bind_total (require table char_cmd_uuid "CHAR_CMD") _ (require_total table _ _) (λ c.
        bind_total (require table char_pair_uuid "CHAR_PAIR") _ (require_total table _ _)
          (λ p e. absurd (ground arith))))

module _ {V S : Type 0} (bus : Bus V S) where
  -- Closing a connection disconnects its device if it was open, and whatever that answers a second
  -- close succeeds and changes nothing, on the bus neither.
  pub close_conn_once :
      (conn : BluezConnection) (s : S)
      → conn.closed ≡ false
      → (let first = close_conn bus conn s in
          (first.0 ≡ (bus.call disconnect_method conn.device s).0)
          × ((first.1.1 ≡ (bus.call disconnect_method conn.device s).1)
              × (close_conn bus first.1.0 first.1.1 ≡ (ok tt, first.1))))
  unfolding close_conn
  close_conn_once conn s e = rw (e) (refl, (refl, refl))

  -- A call on the bus that panics, and the state that it leaves.
  pub data CallPanics (t : S) : Type 0 where
    in_method :
        {method : String} {path : List ℕ} {u : S}
        → bus.call method path u ≡ (panic, t)
        → CallPanics t
    in_add_match : {rule : Rule} {u : S} → bus.add_match rule u ≡ (panic, t) → CallPanics t
    in_objects : {u : S} → bus.managed_call u ≡ (panic, t) → CallPanics t

  -- How an answered attempt to connect stands: the device refused, or it was connected, and then
  -- either a connection that is open was handed out, or the last call on the bus was the one to
  -- disconnect the device; or else the last call on the bus panicked.
  pub data Outcome (mac path : List ℕ) (s : S) : Go BluezConnection × S → Type 0 where
    refused :
        {e : Error} {t : S}
        → bus.call connect_method path s ≡ (err e, t)
        → Outcome mac path s (err (context e), t)
    released :
        {e : Error} {u : S} (t : S)
        → bus.call connect_method path s ≡ (ok tt, u)
        → Outcome mac path s (err e, (bus.call disconnect_method path t).1)
    handed_out :
        {chars : Chars} {t u : S}
        → bus.call connect_method path s ≡ (ok tt, u)
        → Outcome mac path s
            (ok (record { chars = chars; gw_mac = mac; device = path; closed = false }), t)
    crashed : {t : S} → CallPanics t → Outcome mac path s (panic, t)

  -- The outcome of an attempt that may still wait.
  abbrev Sofar : (mac path : List ℕ) (s : S) → Option (Go BluezConnection × S) → Type 0
  Sofar mac path s none = Unit
  Sofar mac path s (some r) = Outcome mac path s r

  hand_out-Outcome :
      (mac path : List ℕ) (s t u : S) (chars : Go Chars)
      → bus.call connect_method path s ≡ (ok tt, u)
      → chars ≢ panic
      → Outcome mac path s (hand_out bus mac path chars t)
  unfolding hand_out give_up
  hand_out-Outcome mac path s t u (ok chars) up total = handed_out up
  hand_out-Outcome mac path s t u (err e) up total = released t up
  hand_out-Outcome mac path s t u panic up total = absurd (total refl)

  objects_panic : (g : Go (List (List ℕ × Interfaces V))) → in_context g ≡ panic → g ≡ panic
  unfolding in_context
  objects_panic (ok objs) e = absurd (ground arith)
  objects_panic (err x) e = absurd (ground arith)
  objects_panic panic e = refl

  module _ {B : Type 0} (dyn : Dynamic V B) where
    enumerate-Outcome :
        (mac path : List ℕ) (s t u : S) (objs : Go (List (List ℕ × Interfaces V)))
        → bus.call connect_method path s ≡ (ok tt, u)
        → (objs ≡ panic → CallPanics t)
        → Outcome mac path s (enumerate dyn bus mac path objs t)
    unfolding enumerate give_up
    enumerate-Outcome mac path s t u (ok objs) up fell =
        hand_out-Outcome mac path s t u _ up (required_total _)
    enumerate-Outcome mac path s t u (err e) up fell = released t up
    enumerate-Outcome mac path s t u panic up fell = crashed (fell refl)

    -- Waiting panics only where a call did.
    abbrev Whole : Option (Go Done) → Type 0
    Whole none = Unit
    Whole (some (ok done)) = Unit
    Whole (some (err e)) = Unit
    Whole (some panic) = ⊥

    abbrev Falls : Option (Go Done × S) → Type 0
    Falls none = Unit
    Falls (some (ok done, t)) = Unit
    Falls (some (err e, t)) = Unit
    Falls (some (panic, t)) = CallPanics t

    wait_loop-Whole : (path : List ℕ) (events : List (Event B)) → Whole (wait_loop dyn path events)
    unfolding wait_loop
    wait_loop-Whole path [] = tt
    wait_loop-Whole path (cancelled x ∷ events) = tt
    wait_loop-Whole path (deadline ∷ events) = tt
    wait_loop-Whole path (arrived sig ∷ events) = elim (Bool-cases (resolves dyn path sig)) [
      | inl e ↦ rw e tt
      | inr e ↦ rw e (wait_loop-Whole path events)
    ]

    with_state : (o : Option (Go Done)) (t : S) → Whole o → Falls (o >>= (λ r. some (r, t)))
    with_state none t w = tt
    with_state (some (ok done)) t w = tt
    with_state (some (err e)) t w = tt
    with_state (some panic) t w = absurd w

    under_match-Falls :
        (path : List ℕ) (events : List (Event B)) (rule : Go Done) (t : S)
        → (rule ≡ panic → CallPanics t)
        → Falls (under_match dyn bus path events rule t)
    unfolding under_match
    under_match-Falls path events (ok done) t fell =
        with_state (wait_loop dyn path events) _ (wait_loop-Whole path events)
    under_match-Falls path events (err e) t fell = tt
    under_match-Falls path events panic t fell = fell refl

    wait-Falls :
        (path : List ℕ) (events : List (Event B)) (s : S)
        → Falls (wait_services_resolved dyn bus path events s)
    unfolding wait_services_resolved
    wait-Falls path events s = elim (Bool-cases (is_set dyn (answered dyn (now s).0))) [
      | inl e ↦ rw e tt
      | inr e ↦ rw e (
          under_match-Falls path events (rule s).0 (rule s).1
            (λ fell. in_add_match (ap (λ g. (g, (rule s).1)) fell)))
    ]
      where
        now : S → Go V × S
        now s = bus.get_prop path bluez_device_iface "ServicesResolved" s

        rule : S → Go Done × S
        rule s = bus.add_match (changes_of path) (now s).1

    when_resolved-Sofar :
        (mac path : List ℕ) (s u : S) (r : Option (Go Done × S))
        → bus.call connect_method path s ≡ (ok tt, u)
        → Falls r
        → Sofar mac path s (when_resolved dyn bus mac path r)
    unfolding when_resolved give_up get_managed_objects
    when_resolved-Sofar mac path s u none up fell = tt
    when_resolved-Sofar mac path s u (some (ok done, t)) up fell =
        enumerate-Outcome mac path s (bus.managed_call t).1 u (in_context (bus.managed_call t).0) up
          (λ e.
            in_objects
              (ap (λ g. (g, (bus.managed_call t).1)) (objects_panic (bus.managed_call t).0 e)))
    when_resolved-Sofar mac path s u (some (err e, t)) up fell = released t up
    when_resolved-Sofar mac path s u (some (panic, t)) up fell = crashed fell

    when_connected-Sofar :
        (mac path : List ℕ) (events : List (Event B)) (s : S) (c : Go Done × S)
        → bus.call connect_method path s ≡ c
        → Sofar mac path s (when_connected dyn bus mac path events c)
    unfolding when_connected
    when_connected-Sofar mac path events s (ok done, t) e =
        when_resolved-Sofar mac path s t (wait_services_resolved dyn bus path events t) e
          (wait-Falls path events t)
    when_connected-Sofar mac path events s (err x, t) e = refused e
    when_connected-Sofar mac path events s (panic, t) e = crashed (in_method e)

    -- When connecting answers, it hands out an open connection to the device with the advertised
    -- address, which BlueZ has connected, or it fails: then the call to connect failed, and its error
    -- is wrapped, or BlueZ had connected the device and the last call on the bus is the one that
    -- disconnects it. It panics only when a call on the bus did, which was then the last one.
    pub connect-Outcome :
        (mac path : List ℕ) (events : List (Event B)) (s : S) (r : Go BluezConnection × S)
        → connect dyn bus mac path events s ≡ some r
        → Outcome mac path s r
    unfolding connect
    connect-Outcome mac path events s r e =
        subst (Sofar mac path s) e (when_connected-Sofar mac path events s _ refl)
