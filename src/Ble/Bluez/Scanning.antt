-- ===== src/Ble/Bluez/Scanning.antt =====
-- ble/scanner_linux.go: a scan around its loop, from the discovery filter to the end of its goroutine.
use Prim.Native.String.{String}
use pigsydust.Prelude.{ℕ, Bool, true, false, if◌then◌else◌, List, [], ◌∷◌, Option, none, some}
use pigsydust.Prelude.Go.{Go, ok, err, panic, context}
use pigsydust.Client.{Done}
use pigsydust.Ble.Scan.{ScanFilter}
use pigsydust.Ble.Uuid.{service_uuid, uuid_string}
use pigsydust.Ble.Dbus.{Dynamic, Signal}
use pigsydust.Ble.Discovery.{ScanResult, scan}
use pigsydust.Ble.Bluez.{Bus, Rule, new_objects, all_changes, get_managed_objects, stop_scan}

abbrev pub start_discovery_method : String
start_discovery_method = "org.bluez.Adapter1.StartDiscovery"

abbrev pub rules : List Rule
rules = new_objects ∷ all_changes ∷ []

-- What an answer brings, without its error, and whether there was one.
abbrev pub answer {ℓ} : {A : Type ℓ} → Go A → Option A
answer (ok a) = some a
answer (err e) = none
answer panic = none

abbrev pub succeeded : Go Done → Bool
succeeded (ok done) = true
succeeded (err e) = false
succeeded panic = false

-- The loop goes on behind a rule that was added, and returns at one that was not.
unfoldable pub when_added : {S : Type 0} → Go Done × S → (S → Go Done × S) → Go Done × S
when_added (ok done, s) rest = rest s
when_added (err e, s) rest = (err (context e), s)
when_added (panic, s) rest = (panic, s)

module _ {V S : Type 0} (bus : Bus V S) where
  unfoldable pub add_matches : List Rule → S → Go Done × S
  add_matches [] s = (ok tt, s)
  add_matches (r ∷ rules) s = when_added (bus.add_match r s) (add_matches rules)

  unfoldable pub remove_matches : List Rule → S → S
  remove_matches [] s = s
  remove_matches (r ∷ rules) s = remove_matches rules (bus.remove_match r s)

  unfoldable pub after_filter : Go Done × S → Go Done × S
  after_filter (ok done, s) = add_matches rules s
  after_filter (err e, s) = (err (context e), s)
  after_filter (panic, s) = (panic, s)

  -- `scan` up to the start of its goroutine.
  unfoldable pub start_scan : List ℕ → S → Go Done × S
  start_scan adapter_path s =
      after_filter (bus.set_discovery_filter adapter_path (uuid_string service_uuid ∷ []) s)

  -- The end of the goroutine, by what `StartDiscovery` answered: the discovery is stopped if it was
  -- started, then the rules are removed.
  unfoldable pub end_scan : List ℕ → Bool → S → S
  end_scan adapter_path started s =
      remove_matches rules (if started then (stop_scan bus adapter_path s).1 else s)

module _ {V B S : Type 0} (dyn : Dynamic V B) (bus : Bus V S) where
  -- The goroutine over the signals that come until its loop ends: the results, and the bus's state.
  unfoldable pub run_scan : ScanFilter → List ℕ → List (Option (Signal B)) → S → List ScanResult × S
  run_scan filter adapter_path signals s =
      let objs = get_managed_objects bus s in
      let start = bus.call start_discovery_method adapter_path objs.1 in
      (
        scan dyn filter (answer objs.0) (succeeded start.0) signals,
        end_scan bus adapter_path (succeeded start.0) start.1,
      )
