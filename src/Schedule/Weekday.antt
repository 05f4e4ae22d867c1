-- ===== src/Schedule/Weekday.antt =====
-- schedule/alarm.go: the weekdays of a repeat mask.
use pigsydust.Prelude.{ℕ, bit_or, bit_and, ◌≡◌, refl}

abbrev pub monday : ℕ
monday = 0x01

abbrev pub tuesday : ℕ
tuesday = 0x02

abbrev pub wednesday : ℕ
wednesday = 0x04

abbrev pub thursday : ℕ
thursday = 0x08

abbrev pub friday : ℕ
friday = 0x10

abbrev pub saturday : ℕ
saturday = 0x20

abbrev pub sunday : ℕ
sunday = 0x40

abbrev pub daily : ℕ
daily = 0x7F

abbrev pub weekdays : ℕ
weekdays = bit_or (bit_or (bit_or (bit_or monday tuesday) wednesday) thursday) friday

abbrev pub weekends : ℕ
weekends = bit_or saturday sunday

-- The weekdays and the weekend share no day and are all days.
pub weekdays-weekends : (bit_or weekdays weekends ≡ daily) × (bit_and weekdays weekends ≡ 0)
weekdays-weekends = (refl, refl)
