-- ===== src/Ble/Scan/Laws.antt =====
-- Exactly which devices a scan reports, and which frames are forwarded.
use pigsydust.Prelude.{ℕ, ◌≤◌, ◌≡◌, ◌⊎◌, ◌↔◌, arith, false, not}
use pigsydust.Prelude.{bytes_eq, bytes_eq_iff, ◌&&◌, List, [], length, take, drop}
use pigsydust.Prelude.{some}
use pigsydust.Byteutil.{byte_at, le16, le32}
use pigsydust.Advertisement.{Advertisement, device_type_gateway}
use pigsydust.Advertisement.Laws.{spelled, parse_manufacturer_data-spelled}
use pigsydust.Prelude.{refl}
use pigsydust.Ble.Scan.{
  ScanFilter, with_name, passes, parsed, maybe_emit, manufacturer_id_skytone, hci_notification,
}

-- A frame is forwarded exactly when it has twelve bytes at least and is an ACL packet (type 2) on the
-- ATT channel (4) with a value notification (0x1B) for the handle; what is forwarded is the rest of
-- it. The connection that the frame belongs to is not looked at.
pub hci_notification_iff :
    (value_handle : ℕ) (buf packet : List ℕ)
    → (hci_notification value_handle buf ≡ some packet) ↔ (
        (12 ≤ length buf)
        × (byte_at buf 0 ≡ 2)
        × (le16 (take 2 (drop 7 buf)) ≡ 4)
        × (byte_at buf 9 ≡ 0x1B)
        × (le16 (take 2 (drop 10 buf)) ≡ value_handle)
        × (drop 12 buf ≡ packet))
unfolding hci_notification
hci_notification_iff value_handle buf packet = ground arith

-- A named list is matched by an empty filter or by itself.
name_test :
    (wanted name : List ℕ)
    → ((not (bytes_eq wanted []) && not (bytes_eq name wanted)) ≡ false)
      ↔ ((wanted ≡ []) ⊎ (name ≡ wanted))
name_test wanted name = ground (arith, bytes_eq_iff wanted [], bytes_eq_iff name wanted)

passes_iff :
    (filter : ScanFilter) (adv : Advertisement)
    → (passes filter adv ≡ some adv) ↔ (
        ((filter.network_id ≡ 0) ⊎ (adv.network_id ≡ filter.network_id))
        × ((filter.gateway_only ≡ false) ⊎ (adv.device_type ≡ device_type_gateway)))
unfolding passes
passes_iff filter adv = ground arith

-- Without a filter's objection, and only then, a device whose manufacturer data has fifteen bytes at
-- least is reported, with the advertisement that the data spell and its name: the filter's name is
-- empty or the device's, its identifier zero or the advertised one, and it does not ask for gateways
-- or the device type is the gateway's.
pub maybe_emit_iff :
    (filter : ScanFilter) (name mfg : List ℕ)
    → 15 ≤ length mfg
    → (maybe_emit filter name (some mfg) ≡ some (with_name (spelled mfg) name)) ↔ (
        ((filter.mesh_name ≡ []) ⊎ (name ≡ filter.mesh_name))
        × ((filter.network_id ≡ 0) ⊎ (le32 (take 4 (drop 11 mfg)) ≡ filter.network_id))
        × ((filter.gateway_only ≡ false) ⊎ (byte_at mfg 6 ≡ device_type_gateway)))
unfolding maybe_emit parsed
maybe_emit_iff filter name mfg long =
    rw (parse_manufacturer_data-spelled manufacturer_id_skytone mfg refl long) (
      ground
        (arith, name_test filter.mesh_name name, passes_iff filter (with_name (spelled mfg) name)))
