-- ===== src/Witnesses/Stacks.antt =====
-- A toy Bluetooth stack, and the theorems about the adapter over tinygo on it.
use pigsydust.Byteutil.{copy}
use pigsydust.Prelude.{
  ◌≢◌, ℕ, ◌+◌, ◌==◌, if◌then◌else◌, true, List, [], ◌∷◌, ◌++◌, none, ◌≡◌, refl, arith, as_list,
}
use pigsydust.Prelude.Go.{Go, ok, err, foreign}
use pigsydust.Prelude.Int.{negsuc}
use pigsydust.Prelude.Maps.{string_key, ℕ_key, get}
use pigsydust.Ble.Uuid.{char_notify_uuid, char_pair_uuid, telink_uuid}
use pigsydust.Ble.Dbus.{Props}
use pigsydust.Ble.Discovery.{ScanResult, emit, text_property, manufacturer_bytes}
use pigsydust.Ble.Tinygo.{
  RawResult, TinygoResult, first_entry, parse_tinygo_scan_result, scan_results,
}
use pigsydust.Ble.Tinygo.Connect.{Stack, TinygoConnection, connect, from_tinygo_uuid}
use pigsydust.Ble.Tinygo.Scanning.{ScanRun, fresh_run, reports, here, there, Panics}
use pigsydust.Ble.Tinygo.Lossless.{Reaches-lossless}
use pigsydust.Ble.Tinygo.Filter.{parse_tinygo_scan_result-emit}
use pigsydust.Ble.Tinygo.Found.{connect_unchecked}
use mathlib.Core.Option.{map as map_option}
use pigsydust.Witnesses.Data.{gateway}
use pigsydust.Witnesses.Values.{Value, text, company, dyn, lamp, home, anything}

-- Services are numbered: 1 is the mesh's, and the device has no other. Its one characteristic is the
-- one for notifications. The state counts the calls.
abbrev lone : Stack ℕ ℕ ℕ (List ℕ) (List ℕ) ℕ
lone = record {
  enable = λ s. (ok tt, s + 1);
  stop_scan = λ s. (ok tt, s + 1);
  connect = λ address s. (ok address, s + 1);
  disconnect = λ device s. (ok tt, s + 1);
  discover_services = λ device uuids s. (services s, s + 1);
  discover_characteristics = λ svc uuids s. (ok (char_notify_uuid ∷ []), s + 1);
  uuid = λ ch. ch;
  new_uuid = λ u. u;
  uuid_bytes = λ u. u;
  read = λ ch s. (ok [], s + 1);
}
  where
    services : ℕ → Go (List ℕ)
    services s = if s == 1 then ok (1 ∷ []) else err (foreign 2)

differs : from_tinygo_uuid lone char_notify_uuid ≢ char_pair_uuid
unfolding telink_uuid from_tinygo_uuid copy
differs = ground arith

connect_unchecked_example :
    (conn : TinygoConnection ℕ (List ℕ)) × ((connect lone gateway 7 0 ≡ (ok conn, 4))
      × (conn.char_pair ≡ none))
connect_unchecked_example =
    connect_unchecked lone gateway 7 7 1 [] (char_notify_uuid ∷ []) (foreign 2) 0 1 2 3 4 refl refl
      refl (differs, tt) refl

-- A device as tinygo reports it, and as BlueZ does.
abbrev advertised : List ℕ
advertised =
    0x11 ∷ 0x02 ∷ 0x30 ∷ 0x20 ∷ 0x10 ∷ 0x4D ∷ 0x47 ∷ 0x01 ∷ 0x69 ∷ 0x05 ∷ 0x00 ∷ 0x78 ∷ 0x56 ∷ 0x34
    ∷ 0x12 ∷ []

abbrev raw_lamp : RawResult ℕ
raw_lamp = record {
  address = 7;
  rssi = negsuc 60;
  has_service_uuid = λ uuid. true;
  local_name = home;
  manufacturer_data = (0x004C, []) ∷ (0x0211, advertised) ∷ [];
}

abbrev lamp_props : Props Value
lamp_props = ("Name", text home) ∷ ("ManufacturerData", company 0x0211 advertised) ∷ []

parse_tinygo_scan_result-emit_example :
    map_option TinygoResult.advertisement (parse_tinygo_scan_result anything raw_lamp)
    ≡ map_option ScanResult.advertisement (emit dyn anything lamp lamp_props)
unfolding text_property manufacturer_bytes first_entry get
parse_tinygo_scan_result-emit_example =
    parse_tinygo_scan_result-emit dyn anything raw_lamp lamp lamp_props refl refl refl

-- A device is reported and its result sent.
abbrev seen : ScanRun ℕ
seen = record fresh_run {
  pending = parse_tinygo_scan_result anything raw_lamp;
  reported = raw_lamp ∷ [];
}

Reaches-lossless_example :
    (seen.received ++ (seen.queue ++ as_list seen.pending) ≡ scan_results anything seen.reported)
    × (¬ Panics seen)
Reaches-lossless_example =
    Reaches-lossless anything (there (here fresh_run) (reports fresh_run raw_lamp refl refl)) refl
