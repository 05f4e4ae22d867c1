-- ===== src/Witnesses/Alarms.antt =====
-- Alarm records and time zones.
use pigsydust.Prelude.{ℕ, ◌/◌, ◌%◌, ◌≡◌, refl, arith, List}
use pigsydust.Prelude.Go.{ok}
use pigsydust.Prelude.Int.{pos}
use pigsydust.Schedule.{recurring}
use pigsydust.Schedule.Laws.{Reads, recurring-Reads}
use pigsydust.Schedule.Timezone.{local_to_utc, utc_to_local}
use pigsydust.Schedule.Timezone.Laws.{day_bit, local_to_utc_instant, utc_to_local-local_to_utc}

-- Monday 5:00 at UTC+10 is Sunday 19:00 in UTC.
local_to_utc_instant_example :
    ((local_to_utc 5 1 (pos 10)).0 ≡ 163 % 24)
    × (day_bit (local_to_utc 5 1 (pos 10)).1 (163 / 24 % 7) ≡ day_bit 1 0)
local_to_utc_instant_example =
    local_to_utc_instant 5 1 0 163 (pos 10) (omega arith) (omega arith) (omega arith)
      (omega arith, omega arith) refl

utc_to_local-local_to_utc_example :
    utc_to_local (local_to_utc 5 1 (pos 10)).0 (local_to_utc 5 1 (pos 10)).1 (pos 10) ≡ (5, 1)
utc_to_local-local_to_utc_example =
    utc_to_local-local_to_utc 5 1 (pos 10) (omega arith) (omega arith) (omega arith, omega arith)

recurring-Reads_example :
    (r : List ℕ) × (recurring 3 0x30 6 45 0x1F 1 ≡ ok r)
    × Reads r (record {
      ident = 3;
      repeat = 0x1F % 128;
      at_hour = 6;
      at_minute = 45;
      of_kind = 0;
      minutes = 0;
      on_target = 0x30;
      does = 1;
    })
recurring-Reads_example =
    recurring-Reads 3 0x30 6 45 1 0x1F
      (omega arith, omega arith, omega arith, omega arith, omega arith) (omega arith)
