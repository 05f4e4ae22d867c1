-- ===== src/Ble/Discovery.antt =====
-- ble/scanner_linux.go: the scan loop over BlueZ's signals, and the devices that it reports.
pub mod Laws
use Prim.Native.String.{String}
use pigsydust.Prelude.{
  ℕ, Bool, true, false, ltb, if◌then◌else◌, List, [], ◌∷◌, ◌++◌, length, bytes_eq,
}
use pigsydust.Prelude.{Option, none, some, as_list}
use pigsydust.Prelude.Int.{ℤ, pos}
use pigsydust.Prelude.Maps.{Key, string_key, bytes_key, ℕ_key, get, put, put_all}
use pigsydust.Advertisement.{Advertisement}
use pigsydust.Ble.Scan.{ScanFilter, manufacturer_id_skytone, maybe_emit}
use pigsydust.Ble.Path.{mac_from_path}
use pigsydust.Ble.Dbus.{
  bluez_device_iface, prop_properties_chang, prop_interfaces_added, Props, Interfaces,
}
use pigsydust.Ble.Dbus.{Dynamic, Signal, ◌>>=◌, or_empty}

-- A result; `path` and `mac` are the fields of `linuxAddress`.
pub record ScanResult : Type 0 where
  pub advertisement : Advertisement
  pub path : List ℕ
  pub mac : List ℕ
  pub rssi : ℤ

module _ {V : Type 0} where
  -- A new map that both are copied into, the second last.
  unfoldable pub merge_props : Props V → Props V → Props V
  merge_props a b = put_all (put_all [] a) b

  -- `props[path]`, where a missing entry is the empty map.
  abbrev pub known : List (List ℕ × Props V) → List ℕ → Props V
  known props path = or_empty (get path props)

module _ {V B : Type 0} (dyn : Dynamic V B) where
  -- The manufacturer data of a device for the company's identifier.
  unfoldable pub manufacturer_bytes : Props V → Option (List ℕ)
  manufacturer_bytes props = do
    mfg_v ← get "ManufacturerData" props
    mfg ← dyn.table_of mfg_v
    raw ← get manufacturer_id_skytone mfg
    dyn.bytes_of raw

  -- A property that is read as a text, empty where it is missing or something else.
  unfoldable pub text_property : String → Props V → List ℕ
  text_property key props = or_empty (get key props >>= dyn.text_of)

  unfoldable pub mac_of_device : List ℕ → Props V → List ℕ
  mac_of_device path props =
      let mac = text_property "Address" props in if bytes_eq mac [] then mac_from_path path else mac

  unfoldable pub rssi_of : Option ℤ → ℤ
  rssi_of none = pos 0
  rssi_of (some r) = r

  -- `maybeEmit`: the result that is sent on, if any.
  unfoldable pub emit : ScanFilter → List ℕ → Props V → Option ScanResult
  emit filter path props = do
    adv ← maybe_emit filter (text_property "Name" props) (manufacturer_bytes props)
    some (record {
      advertisement = adv;
      path = path;
      mac = mac_of_device path props;
      rssi = rssi_of (get "RSSI" props >>= dyn.int16_of);
    })

  -- The object and the properties that a signal brings news of, if it is one of the two that the loop
  -- looks at, with a body of two elements at least, about the device interface.
  unfoldable pub added : List B → Option (List ℕ × Props V)
  added (b0 ∷ b1 ∷ body) = do
    dev_props ← get bluez_device_iface (or_empty (dyn.interfaces_arg b1))
    some (or_empty (dyn.path_arg b0), dev_props)
  added body = none

  unfoldable pub changed : List ℕ → List B → Option (List ℕ × Props V)
  changed path (b0 ∷ b1 ∷ body) =
      let iface = elim (dyn.text_arg b0) as (λ o. String) [ none ↦ "" | some t ↦ t ] in
      if string_key.same iface bluez_device_iface
      then some (path, or_empty (dyn.props_arg b1))
      else none
  changed path body = none

  unfoldable pub news : Signal B → Option (List ℕ × Props V)
  news sig =
      if string_key.same sig.name prop_interfaces_added
      then added sig.body
      else if string_key.same sig.name prop_properties_chang
      then changed sig.path sig.body
      else none

  -- One round of the loop: the new properties of each object, and the result, if any. A nil signal
  -- is `none`.
  unfoldable pub on_news :
      ScanFilter
      → List (List ℕ × Props V)
      → Option (List ℕ × Props V)
      → List (List ℕ × Props V) × Option ScanResult
  on_news filter props none = (props, none)
  on_news filter props (some (path, update)) =
      let merged = merge_props (known props path) update in
      (put path merged props, emit filter path merged)

  unfoldable pub on_signal :
      ScanFilter
      → List (List ℕ × Props V)
      → Option (Signal B)
      → List (List ℕ × Props V) × Option ScanResult
  on_signal filter props sig = on_news filter props (sig >>= news)

  -- The loop over the signals until the channel is closed or the context is done: what it sends.
  unfoldable pub scan_loop :
      ScanFilter → List (List ℕ × Props V) → List (Option (Signal B)) → List ScanResult
  scan_loop filter props [] = []
  scan_loop filter props (sig ∷ signals) =
      let round = on_signal filter props sig in as_list round.1 ++ scan_loop filter round.0 signals

  -- The devices that are known before the discovery starts.
  unfoldable pub seeds : ScanFilter → List (List ℕ × Interfaces V) → List ScanResult
  seeds filter [] = []
  seeds filter ((path, ifs) ∷ objs) =
      as_list (get bluez_device_iface ifs >>= emit filter path) ++ seeds filter objs

  -- The results of a scan in order: `objs` is what `GetManagedObjects` answers, if it does, and
  -- `started` whether `StartDiscovery` succeeds.
  unfoldable pub scan :
      ScanFilter
      → Option (List (List ℕ × Interfaces V))
      → Bool
      → List (Option (Signal B))
      → List ScanResult
  scan filter objs started signals =
      seeds filter (or_empty objs) ++ (if started then scan_loop filter [] signals else [])
