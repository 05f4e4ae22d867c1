-- ===== src/Witnesses/Tools.antt =====
-- The theorems about the programs at concrete inputs.
use pigsydust.Prelude.{
  ◌++◌, ℕ, Bool, true, false, ◌==◌, if◌then◌else◌, [], ◌∷◌, ◌++◌, Option, none, some, ◌≡◌, refl,
  sym, ap,
}
use pigsydust.Prelude.Maps.{ℕ_key, get}
use pigsydust.Byteutil.{byte_at, put_le32}
use pigsydust.Protocol.{op_on_off}
use pigsydust.Command.{Command}
use pigsydust.Command.Build.{on_off, set_utc, status_query, with_dst}
use pigsydust.Notification.{Notification, parse_status_flags}
use pigsydust.Notification.Payload.{DeviceStatus}
use pigsydust.Programs.Collect.{collect}
use pigsydust.Programs.Told.{all_told, last_of}
use pigsydust.Programs.Report.{sort_entries}
use pigsydust.Programs.Listed.{IsAscending, sort_entries-collect}
use pigsydust.Programs.Smoke.{mudroom_addr, opening, closing}
use pigsydust.Programs.Restore.{after, smoke_leaves_off}

-- A lamp that obeys the on/off commands.
abbrev obedient : Command → Bool → Bool
obedient cmd before = if cmd.opcode == op_on_off then byte_at cmd.payload 0 == 1 else before

obedient_set : (on before : Bool) → obedient (on_off mudroom_addr on) before ≡ on
unfolding on_off
obedient_set true before = refl
obedient_set false before = refl

obedient_clock : (now : ℕ) (before : Bool) → obedient (set_utc now) before ≡ before
unfolding set_utc put_le32
obedient_clock now before = refl

obedient_asked : (before : Bool) → obedient status_query before ≡ before
unfolding status_query with_dst
obedient_asked before = refl

abbrev off_report : DeviceStatus
off_report = record {
  address = mudroom_addr;
  on = false;
  mac = [];
  routing_metric = 0;
  device_type = 0x47;
  device_subtype = 0x13;
  status_byte = 1;
  status_flags = parse_status_flags 1;
}

-- The lamp was on before the program ran.
smoke_leaves_off_example :
    after obedient obedient_set obedient_clock obedient_asked
      (opening 1700000000 ++ closing (some off_report))
      true
    ≡ false
unfolding opening on_off
smoke_leaves_off_example =
    smoke_leaves_off obedient obedient_set obedient_clock obedient_asked 1700000000 true
      (some off_report) (λ mudroom same. sym (ap reported same))
  where
    reported : Option DeviceStatus → Bool
    reported none = false
    reported (some d) = d.on

-- Two devices' broadcast, then a status of one of them.
abbrev broadcast : Notification
broadcast = record {
  source = 9;
  opcode = 0xDC;
  vendor = 0x6969;
  payload = 9 ∷ 40 ∷ 0x64 ∷ 1 ∷ 12 ∷ 50 ∷ 0 ∷ 1 ∷ 0 ∷ 0 ∷ [];
}

sort_entries-collect_example :
    let printed = sort_entries (collect [] (broadcast ∷ broadcast ∷ [])) in
    IsAscending printed
    × ((a : ℕ) → get a printed ≡ last_of a (all_told (broadcast ∷ broadcast ∷ [])))
sort_entries-collect_example = sort_entries-collect (broadcast ∷ broadcast ∷ [])
