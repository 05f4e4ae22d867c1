-- ===== src/Advertisement.antt =====
-- advertisement.go: the manufacturer data of an advertisement.
pub mod Laws
use pigsydust.Prelude.{ℕ, Bool, not, ltb, ◌==◌, if◌then◌else◌, List, [], length, set, take, drop}
use pigsydust.Prelude.{Option, none, some}
use pigsydust.Prelude.Go.{Go, ok, err, ◌>>=◌, index, manufacturer_id, manufacturer_short}
use pigsydust.Protocol
use pigsydust.Protocol.DeviceClass.{device_class_lookup}
use pigsydust.Byteutil.{zeros, le32}
use pigsydust.Notification.{StatusFlags, parse_status_flags}

-- `mesh_name` is filled in by the scanner; the parsers leave it empty.
pub record Advertisement : Type 0 where
  pub mesh_name : List ℕ
  pub mac : List ℕ
  pub device_type : ℕ
  pub device_subtype : ℕ
  pub status_byte : ℕ
  pub status_flags : StatusFlags
  pub mesh_address : ℕ
  pub network_id : ℕ
  pub raw : List ℕ

abbrev pub device_type_gateway : ℕ
device_type_gateway = 0x47

unfoldable pub device_class : Advertisement → ℕ
device_class a = device_class_lookup a.device_type a.device_subtype

-- `nil` is `none`.
unfoldable pub parse_advertisement : List ℕ → Go (Option Advertisement)
parse_advertisement bytes = if ltb (length bytes) 15 then ok none else do
  d2 ← index bytes 2
  d3 ← index bytes 3
  d4 ← index bytes 4
  d5 ← index bytes 5
  d6 ← index bytes 6
  d7 ← index bytes 7
  d8 ← index bytes 8
  d9 ← index bytes 9
  ok (
      some (record {
        mesh_name = [];
        mac = set (set (set (set (set (zeros 6) 1 0x21) 5 d2) 4 d3) 3 d4) 2 d5;
        device_type = d6;
        device_subtype = d7;
        status_byte = d8;
        status_flags = parse_status_flags d8;
        mesh_address = d9;
        network_id = le32 (take 4 (drop 11 bytes));
        raw = bytes;
      }))

unfoldable pub found : ℕ → Option Advertisement → Go Advertisement
found n none = err (manufacturer_short n)
found n (some adv) = ok adv

unfoldable pub parse_manufacturer_data : ℕ → List ℕ → Go Advertisement
parse_manufacturer_data company_id bytes =
    if not (company_id == Protocol.manufacturer_id)
    then err (manufacturer_id company_id)
    else parse_advertisement bytes >>= found (length bytes)
