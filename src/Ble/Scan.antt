-- ===== src/Ble/Scan.antt =====
-- ble/scanner_linux.go and ble/chario_linux.go: which devices a scan reports, and which frames of the
-- host's socket are notifications.
pub mod Laws
use pigsydust.Prelude.{ℕ, ◌+◌, Bool, true, false, not, ltb, ◌==◌, if◌then◌else◌, bytes_eq, ◌&&◌}
use pigsydust.Prelude.{List, [], ◌∷◌, ◌++◌, length, take, drop, Option, none, some}
use pigsydust.Prelude.Go.{Go, ok, err, panic}
use pigsydust.Byteutil.{byte_at, le16}
use pigsydust.Advertisement.{Advertisement, parse_manufacturer_data, device_type_gateway}

-- `transport.go`: an empty name, a zero identifier and `false` match everything.
pub record ScanFilter : Type 0 where
  pub mesh_name : List ℕ
  pub network_id : ℕ
  pub gateway_only : Bool

abbrev pub manufacturer_id_skytone : ℕ
manufacturer_id_skytone = 0x0211

abbrev pub with_name : Advertisement → List ℕ → Advertisement
with_name adv name = record {
  mesh_name = name;
  mac = adv.mac;
  device_type = adv.device_type;
  device_subtype = adv.device_subtype;
  status_byte = adv.status_byte;
  status_flags = adv.status_flags;
  mesh_address = adv.mesh_address;
  network_id = adv.network_id;
  raw = adv.raw;
}

-- The filter's tests on a parsed advertisement.
unfoldable pub passes : ScanFilter → Advertisement → Option Advertisement
passes filter adv =
    if not (filter.network_id == 0) && not (adv.network_id == filter.network_id)
    then none
    else if filter.gateway_only && not (adv.device_type == device_type_gateway)
    then none
    else some adv

unfoldable pub parsed : ScanFilter → List ℕ → Go Advertisement → Option Advertisement
parsed filter name (ok adv) = passes filter (with_name adv name)
parsed filter name (err e) = none
parsed filter name panic = none

-- `maybeEmit` on a device's name (empty when it has none) and its manufacturer data for the
-- company's identifier, if the properties have some: the advertisement that is sent on, if any.
unfoldable pub maybe_emit : ScanFilter → List ℕ → Option (List ℕ) → Option Advertisement
maybe_emit filter name none = none
maybe_emit filter name (some mfg) =
    if not (bytes_eq filter.mesh_name []) && not (bytes_eq name filter.mesh_name)
    then none
    else parsed filter name (parse_manufacturer_data manufacturer_id_skytone mfg)

-- The body of the loop of `readHCINotifications` on the bytes that were read: the packet that is
-- forwarded, if any. The reads of the 1024-byte buffer below `n` are in range.
unfoldable pub hci_notification : ℕ → List ℕ → Option (List ℕ)
hci_notification value_handle buf =
    if ltb (length buf) 12
    then none
    else if not (byte_at buf 0 == 2)
    then none
    else if not (le16 (take 2 (drop 7 buf)) == 0x0004)
    then none
    else if not (byte_at buf 9 == 0x1B)
    then none
    else if not (le16 (take 2 (drop 10 buf)) == value_handle)
    then none
    else some (drop 12 buf)
