-- ===== src/Ble/Tinygo/Filter.antt =====
-- ble/scanner_tinygo.go and ble/scanner_linux.go: what the two scanners report.
use pigsydust.Prelude.{
  ℕ, Bool, true, not, ◌&&◌, if◌then◌else◌, bytes_eq, List, [], Bool-cases, inl, inr,
}
use pigsydust.Prelude.{Option, none, some, ◌≡◌, refl, ap₂, ◌∙◌, sym}
use mathlib.Core.Option.{map as map_option}
use pigsydust.Prelude.Maps.{get, string_key}
use pigsydust.Advertisement.{Advertisement}
use pigsydust.Ble.Uuid.{service_uuid}
use pigsydust.Ble.Scan.{ScanFilter, maybe_emit}
use pigsydust.Ble.Dbus.{Dynamic, Props, ◌>>=◌}
use pigsydust.Ble.Discovery.{
  ScanResult, emit, text_property, manufacturer_bytes, mac_of_device, rssi_of,
}
use pigsydust.Ble.Tinygo.{RawResult, TinygoResult, first_entry, parse_entry, with_address}
use pigsydust.Ble.Tinygo.{parse_tinygo_scan_result}

-- Tinygo's decision is the Linux scanner's on the same name and data.
parse_entry-maybe_emit :
    (filter : ScanFilter) (name : List ℕ) (mfg : Option (List ℕ))
    → (if not (bytes_eq filter.mesh_name []) && not (bytes_eq name filter.mesh_name)
        then none
        else parse_entry filter name mfg)
      ≡ maybe_emit filter name mfg
unfolding parse_entry maybe_emit
parse_entry-maybe_emit filter name none =
    elim (Bool-cases (not (bytes_eq filter.mesh_name []) && not (bytes_eq name filter.mesh_name))) [
      | inl e ↦ rw (e) refl
      | inr e ↦ rw (e) refl
    ]
parse_entry-maybe_emit filter name (some mfg) = refl

module _ {A : Type 0} where
  with_address_advertisement :
      (raw : RawResult A) (o : Option Advertisement)
      → map_option TinygoResult.advertisement (with_address raw o) ≡ o
  unfolding with_address
  with_address_advertisement raw none = refl
  with_address_advertisement raw (some adv) = refl

  tinygo_advertisement :
      (filter : ScanFilter) (raw : RawResult A)
      → raw.has_service_uuid service_uuid ≡ true
      → map_option TinygoResult.advertisement (parse_tinygo_scan_result filter raw)
        ≡ maybe_emit filter raw.local_name (first_entry raw.manufacturer_data)
  unfolding parse_tinygo_scan_result
  tinygo_advertisement filter raw serves =
      (rw (serves) (elim (Bool-cases test) [
        | inl e ↦ rw (e) refl
        | inr e ↦ rw (e) (with_address_advertisement raw _)
      ]))
      ∙ parse_entry-maybe_emit filter raw.local_name (first_entry raw.manufacturer_data)
    where
      test : Bool
      test = not (bytes_eq filter.mesh_name []) && not (bytes_eq raw.local_name filter.mesh_name)

module _ {V B : Type 0} (dyn : Dynamic V B) where
  emit_advertisement :
      (filter : ScanFilter) (path : List ℕ) (props : Props V)
      → map_option ScanResult.advertisement (emit dyn filter path props)
        ≡ maybe_emit filter (text_property dyn "Name" props) (manufacturer_bytes dyn props)
  unfolding emit
  emit_advertisement filter path props =
      cases (maybe_emit filter (text_property dyn "Name" props) (manufacturer_bytes dyn props))
    where
      cases :
          (o : Option Advertisement)
          → map_option ScanResult.advertisement (
              o >>= (λ adv. some (record {
                advertisement = adv;
                path = path;
                mac = mac_of_device dyn path props;
                rssi = rssi_of dyn (get "RSSI" props >>= dyn.int16_of);
              })))
            ≡ o
      cases none = refl
      cases (some adv) = refl

  -- A device that advertises the mesh's service is reported by both scanners, with one advertisement,
  -- or by neither, when BlueZ knows it under the name that it advertises and with the manufacturer
  -- data of its first entry for the company.
  pub parse_tinygo_scan_result-emit :
      {A : Type 0} (filter : ScanFilter) (raw : RawResult A) (path : List ℕ) (props : Props V)
      → raw.has_service_uuid service_uuid ≡ true
      → text_property dyn "Name" props ≡ raw.local_name
      → manufacturer_bytes dyn props ≡ first_entry raw.manufacturer_data
      → map_option TinygoResult.advertisement (parse_tinygo_scan_result filter raw)
        ≡ map_option ScanResult.advertisement (emit dyn filter path props)
  parse_tinygo_scan_result-emit filter raw path props serves named told =
      tinygo_advertisement filter raw serves
      ∙ sym (emit_advertisement filter path props ∙ ap₂ (maybe_emit filter) named told)
