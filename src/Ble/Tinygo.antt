-- ===== src/Ble/Tinygo.antt =====
-- ble/scanner_tinygo.go and ble/adapter_tinygo.go: the adapter over tinygo's Bluetooth stack, which is
-- a parameter: `A` are its addresses, `C` its characteristics, `S` its state.
pub mod Connect
pub mod Notify
pub mod Filter
pub mod Found
pub mod Ending
pub mod Scanning
pub mod Lossless
use pigsydust.Prelude.{
  ℕ, Bool, true, false, not, ◌&&◌, if◌then◌else◌, ◌==◌, bytes_eq, List, [], ◌∷◌,
}
use pigsydust.Prelude.{Option, none, some}
use pigsydust.Prelude.Int.{ℤ}
use pigsydust.Advertisement.{Advertisement, parse_manufacturer_data}
use pigsydust.Ble.Scan.{ScanFilter, manufacturer_id_skytone, parsed}
use pigsydust.Ble.Uuid.{service_uuid}

-- What the code reads of a `bluetooth.ScanResult`; the manufacturer data are pairs of a company's
-- identifier and its data.
pub record RawResult (A : Type 0) : Type 0 where
  pub address : A
  pub rssi : ℤ
  pub has_service_uuid : List ℕ → Bool
  pub local_name : List ℕ
  pub manufacturer_data : List (ℕ × List ℕ)

pub record TinygoResult (A : Type 0) : Type 0 where
  pub advertisement : Advertisement
  pub address : A
  pub rssi : ℤ

-- The loop that leaves at the first entry for the company. Data that are nil are too short for the
-- parser, so that it makes no difference to take them for empty here.
unfoldable pub first_entry : List (ℕ × List ℕ) → Option (List ℕ)
first_entry [] = none
first_entry ((company, bytes) ∷ entries) =
    if company == manufacturer_id_skytone then some bytes else first_entry entries

unfoldable pub parse_entry : ScanFilter → List ℕ → Option (List ℕ) → Option Advertisement
parse_entry filter name none = none
parse_entry filter name (some mfg) =
    parsed filter name (parse_manufacturer_data manufacturer_id_skytone mfg)

module _ {A : Type 0} where
  unfoldable pub with_address : RawResult A → Option Advertisement → Option (TinygoResult A)
  with_address raw none = none
  with_address raw (some adv) =
      some (record { advertisement = adv; address = raw.address; rssi = raw.rssi })

  unfoldable pub parse_tinygo_scan_result : ScanFilter → RawResult A → Option (TinygoResult A)
  parse_tinygo_scan_result filter raw =
      if not (raw.has_service_uuid service_uuid)
      then none
      else if not (bytes_eq filter.mesh_name []) && not (bytes_eq raw.local_name filter.mesh_name)
      then none
      else with_address raw (parse_entry filter raw.local_name (first_entry raw.manufacturer_data))

  -- The scan's callback over the results that the stack reports while the context is not done.
  unfoldable pub scan_results : ScanFilter → List (RawResult A) → List (TinygoResult A)
  scan_results filter [] = []
  scan_results filter (raw ∷ raws) =
      let rest = scan_results filter raws in
      elim (parse_tinygo_scan_result filter raw) [ none ↦ rest | some r ↦ r ∷ rest ]
