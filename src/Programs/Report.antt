-- ===== src/Programs/Report.antt =====
-- ble/cmd/smoke: what the program prints of the statuses.
use Prim.Native.String.{String}
use pigsydust.Prelude.{
  ℕ, Bool, false, not, ltb, ◌==◌, if◌then◌else◌, List, [], ◌∷◌, map, Option, none, some,
}
use pigsydust.Notification.Payload.{DeviceStatus}
use pigsydust.Programs.Collect.{Statuses}
use pigsydust.Programs.Smoke.{mudroom_addr}

unfoldable pub on_off_name : Bool → String
on_off_name on = if on then "ON" else "OFF"

-- One line of the list of devices.
pub record Line : Type 0 where
  pub address : ℕ
  pub state : String
  pub device_type : ℕ
  pub device_subtype : ℕ
  pub tag : String

unfoldable pub line_of : ℕ × DeviceStatus → Line
line_of (a, ds) = record {
  address = a;
  state = on_off_name ds.on;
  device_type = ds.device_type;
  device_subtype = ds.device_subtype;
  tag = if a == mudroom_addr then "  ← Mud Room" else "";
}

-- The addresses in ascending order, each with its entry of the map.
unfoldable pub insert_entry : ℕ × DeviceStatus → Statuses → Statuses
insert_entry entry [] = entry ∷ []
insert_entry (a, ds) ((b, other) ∷ rest) =
    if ltb a b then (a, ds) ∷ (b, other) ∷ rest else (b, other) ∷ insert_entry (a, ds) rest

unfoldable pub sort_entries : Statuses → Statuses
sort_entries [] = []
sort_entries (entry ∷ rest) = insert_entry entry (sort_entries rest)

unfoldable pub device_lines : Statuses → List Line
device_lines statuses = map line_of (sort_entries statuses)

-- The test behind the toggle, on the lamp's status by then: the state has not changed.
unfoldable pub unchanged : Bool → Option DeviceStatus → Bool
unchanged originally_on none = false
unchanged originally_on (some ds) = if ds.on then originally_on else not originally_on
