-- ===== src/Schedule/Timezone.antt =====
-- schedule/timezone.go: the conversion of a fire hour and a weekday mask between local time and UTC.
pub mod Laws
use pigsydust.Prelude.{ℕ, ◌*◌, ◌/◌, ◌^◌, bit_and, bit_or, not, if◌then◌else◌}
use pigsydust.Prelude.Int.{ℤ, pos, negsuc, ◌+ℤ◌, ◌-ℤ◌, ◌%ℤ◌, ltb_ℤ, byte_ℤ}

-- `((r >> 1) | ((r & 0x01) << 6)) & 0x7F`: every weekday one day earlier.
unfoldable pub rotate_right : ℕ → ℕ
rotate_right r = bit_and (bit_or (r / 2) (bit_and r 0x01 * 2 ^ 6)) 0x7F

-- `((r << 1) & 0x7F) | ((r >> 6) & 0x01)`: every weekday one day later.
unfoldable pub rotate_left : ℕ → ℕ
rotate_left r = bit_or (bit_and (r * 2) 0x7F) (bit_and (r / 2 ^ 6) 0x01)

-- The `switch` of both functions, on the adjusted hour.
unfoldable pub rotate_for : ℤ → ℕ → ℕ
rotate_for adjusted r =
    if ltb_ℤ adjusted (pos 24)
    then rotate_right r
    else if not (ltb_ℤ adjusted (pos 48))
    then rotate_left r
    else r

-- The utc hour and the utc repeat mask.
unfoldable pub local_to_utc : ℕ → ℕ → ℤ → ℕ × ℕ
local_to_utc local_hour repeat tz_offset_hours =
    let adjusted = pos local_hour -ℤ tz_offset_hours +ℤ pos 24 in
    let utc_hour = byte_ℤ ((pos local_hour -ℤ tz_offset_hours +ℤ pos 48) %ℤ 24) in
    (utc_hour, rotate_for adjusted (bit_and repeat 0x7F))

unfoldable pub utc_to_local : ℕ → ℕ → ℤ → ℕ × ℕ
utc_to_local utc_hour utc_repeat tz_offset_hours =
    let adjusted = pos utc_hour +ℤ tz_offset_hours +ℤ pos 24 in
    let local_hour = byte_ℤ ((pos utc_hour +ℤ tz_offset_hours +ℤ pos 48) %ℤ 24) in
    (local_hour, rotate_for adjusted (bit_and utc_repeat 0x7F))
