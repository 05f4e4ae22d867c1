-- ===== src/Ble/Bluez.antt =====
-- ble/adapter_linux.go: the adapter over BlueZ. The system bus is a parameter, with `S` the state of
-- everything behind it; the errors of its calls are the library's.
pub mod Wait
pub mod Table
pub mod Connect
pub mod Scanning
pub mod Char
pub mod Hci
pub mod Heard
pub mod Opening
pub mod Balance
pub mod Answers
pub mod Release
pub mod Offered
use Prim.Native.String.{String}
use pigsydust.Prelude.{
  ℕ, ◌+◌, Bool, true, false, not, if◌then◌else◌, List, [], ◌∷◌, ◌++◌, Option, none, some,
}
use pigsydust.Prelude.Go.{Go, ok, err, panic, context, no_adapter}
use pigsydust.Prelude.Maps.{string_key, get}
use pigsydust.Client.{Done}
use pigsydust.Ble.Link.{in_context}
use pigsydust.Ble.Dbus.{Interfaces, bluez_adapter_iface}

-- The rules for signals that the code asks for: the changes of one object's properties, all new
-- objects, and all changes.
pub data Rule : Type 0 where
  changes_of : List ℕ → Rule
  new_objects all_changes : Rule

-- That a channel of signals is registered with the bus and taken off is not represented.
-- The calls of a method without arguments on an object, of the properties' `Get` and `Set`, of
-- `GetManagedObjects`, `AddMatch` and `RemoveMatch`, of `SetDiscoveryFilter` with the UUIDs to look for
-- and of `WriteValue` and `ReadValue` on a characteristic.
pub record Bus (V S : Type 0) : Type 0 where
  pub call : String → List ℕ → S → Go Done × S
  pub get_prop : List ℕ → String → String → S → Go V × S
  pub set_powered : List ℕ → S → Go Done × S
  pub managed_call : S → Go (List (List ℕ × Interfaces V)) × S
  pub add_match : Rule → S → Go Done × S
  pub remove_match : Rule → S → S
  pub set_discovery_filter : List ℕ → List (List ℕ) → S → Go Done × S
  pub write_value : List ℕ → String → List ℕ → S → Go Done × S
  pub read_value : List ℕ → S → Go (List ℕ) × S

module _ {V : Type 0} where
  unfoldable pub first_adapter : List (List ℕ × Interfaces V) → Go (List ℕ)
  first_adapter [] = err no_adapter
  first_adapter ((path, ifs) ∷ objs) = elim (get bluez_adapter_iface ifs) [
    | some props ↦ ok path
    | none ↦ first_adapter objs
  ]

  unfoldable pub find_in : Go (List (List ℕ × Interfaces V)) → Go (List ℕ)
  find_in (ok objs) = first_adapter objs
  find_in (err e) = err e
  find_in panic = panic

module _ {V S : Type 0} (bus : Bus V S) where
  unfoldable pub get_managed_objects : S → Go (List (List ℕ × Interfaces V)) × S
  get_managed_objects s = let r = bus.managed_call s in (in_context r.0, r.1)

  unfoldable pub find_adapter : S → Go (List ℕ) × S
  find_adapter s = let r = get_managed_objects s in (find_in r.0, r.1)

  -- `NewAdapter` once the bus is there: the adapter's path. That it cannot be powered is only logged.
  unfoldable pub power_on : Go (List ℕ) → S → Go (List ℕ) × S
  power_on (ok path) s = (ok path, (bus.set_powered path s).1)
  power_on (err e) s = (err e, s)
  power_on panic s = (panic, s)

  unfoldable pub new_adapter : S → Go (List ℕ) × S
  new_adapter s = let r = find_adapter s in power_on r.0 r.1

  -- The whole of `NewAdapter`, by the answer of `dbus.SystemBus`; the bus is the one above.
  unfoldable pub open_adapter : Go Done × S → Go (List ℕ) × S
  open_adapter (ok done, s) = new_adapter s
  open_adapter (err e, s) = (err (context e), s)
  open_adapter (panic, s) = (panic, s)

  unfoldable pub stop_scan : List ℕ → S → Go Done × S
  stop_scan adapter_path s = bus.call "org.bluez.Adapter1.StopDiscovery" adapter_path s
