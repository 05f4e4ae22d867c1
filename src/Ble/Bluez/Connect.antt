-- ===== src/Ble/Bluez/Connect.antt =====
-- ble/adapter_linux.go: connecting to a device and finding its three characteristics.
use Prim.Native.String.{String}
use pigsydust.Prelude.{ℕ, Bool, true, false, if◌then◌else◌, List, [], ◌∷◌, ◌++◌, Option, none, some}
use pigsydust.Prelude.Go.{Go, ok, err, panic, ◌>>=◌, Error, context, char_not_found}
use pigsydust.Prelude.Maps.{bytes_key, get}
use pigsydust.Client.{Done}
use pigsydust.Ble.Dbus.{Dynamic, Interfaces}
use pigsydust.Ble.Uuid.{char_notify_uuid, char_cmd_uuid, char_pair_uuid}
use pigsydust.Ble.Bluez.{Bus, get_managed_objects}
use pigsydust.Ble.Bluez.Table.{char_by_uuid}
use pigsydust.Ble.Bluez.Wait.{Event, wait_services_resolved}

-- The paths of the three characteristics, and the connection: `closed` is the variable that the
-- closer captures.
pub record Chars : Type 0 where
  pub notify : List ℕ
  pub cmd : List ℕ
  pub pair : List ℕ

pub record BluezConnection : Type 0 where
  pub chars : Chars
  pub gw_mac : List ℕ
  pub device : List ℕ
  pub closed : Bool

-- One round of the loop over `required`.
unfoldable pub require : List (List ℕ × List ℕ) → List ℕ → String → Go (List ℕ)
require table u name = elim (get u table) [ none ↦ err (char_not_found name) | some path ↦ ok path ]

unfoldable pub required : List (List ℕ × List ℕ) → Go Chars
required table = do
  notify ← require table char_notify_uuid "CHAR_NOTIFY"
  cmd ← require table char_cmd_uuid "CHAR_CMD"
  pair ← require table char_pair_uuid "CHAR_PAIR"
  ok (record { notify = notify; cmd = cmd; pair = pair })

abbrev pub connect_method : String
connect_method = "org.bluez.Device1.Connect"

abbrev pub disconnect_method : String
disconnect_method = "org.bluez.Device1.Disconnect"

module _ {V S : Type 0} (bus : Bus V S) where
  -- The closer disconnects the first time only; `Close` calls it.
  unfoldable pub close_conn : BluezConnection → S → Go Done × (BluezConnection × S)
  close_conn conn s =
      let r = bus.call disconnect_method conn.device s in
      if conn.closed then (ok tt, (conn, s)) else (r.0, (record conn { closed = true }, r.1))

  -- An early return that disconnects.
  unfoldable pub give_up : Error → List ℕ → S → Go BluezConnection × S
  give_up e path s = (err e, (bus.call disconnect_method path s).1)

  -- The end of `connect`: without all three characteristics the connection is closed.
  unfoldable pub hand_out : List ℕ → List ℕ → Go Chars → S → Go BluezConnection × S
  hand_out mac path (ok chars) s =
      (ok (record { chars = chars; gw_mac = mac; device = path; closed = false }), s)
  hand_out mac path (err e) s = give_up e path s
  hand_out mac path panic s = (panic, s)

module _ {V B S : Type 0} (dyn : Dynamic V B) (bus : Bus V S) where
  -- `connect` once the services are resolved, from the answer of `getManagedObjects` on.
  unfoldable pub enumerate :
      List ℕ → List ℕ → Go (List (List ℕ × Interfaces V)) → S → Go BluezConnection × S
  enumerate mac path (ok objs) s =
      hand_out bus mac path (required (char_by_uuid dyn (path ++ (b'/' ∷ [])) [] objs)) s
  enumerate mac path (err e) s = give_up bus e path s
  enumerate mac path panic s = (panic, s)

  unfoldable pub when_resolved :
      List ℕ → List ℕ → Option (Go Done × S) → Option (Go BluezConnection × S)
  when_resolved mac path none = none
  when_resolved mac path (some (ok done, s)) =
      let objs = get_managed_objects bus s in some (enumerate mac path objs.0 objs.1)
  when_resolved mac path (some (err e, s)) = some (give_up bus e path s)
  when_resolved mac path (some (panic, s)) = some (panic, s)

  -- `connect` behind the answer of `Device1.Connect`.
  unfoldable pub when_connected :
      List ℕ → List ℕ → List (Event B) → Go Done × S → Option (Go BluezConnection × S)
  when_connected mac path events (ok done, s) =
      when_resolved mac path (wait_services_resolved dyn bus path events s)
  when_connected mac path events (err e, s) = some (err (context e), s)
  when_connected mac path events (panic, s) = some (panic, s)

  -- `connect` on the gateway's address and the path of a device that this adapter found, with the
  -- events that it waits through; `none` while it still waits.
  unfoldable pub connect : List ℕ → List ℕ → List (Event B) → S → Option (Go BluezConnection × S)
  connect mac path events s = when_connected mac path events (bus.call connect_method path s)
