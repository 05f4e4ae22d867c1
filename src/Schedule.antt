-- ===== src/Schedule.antt =====
-- schedule/alarm.go: the 16-byte alarm record, its builders and its accessors.
pub mod Laws
pub mod Outcomes
pub mod Countdown
pub mod Toggle
pub mod Weekday
pub mod Timezone
use pigsydust.Prelude.{
  ℕ, ◌^◌, bit_and, bit_or, Bool, true, false, ◌&&◌, not, ltb, ◌==◌, if◌then◌else◌,
}
use pigsydust.Prelude.{List, [], ◌∷◌, set, take, drop}
use pigsydust.Prelude.Go.{
  Go, ok, err, zero_duration, no_weekday, transition_kind, hour_range, minute_range,
}
use pigsydust.Byteutil.{byte_at, zeros, copy_slice, put_le16, le16, xor_fold}

abbrev pub kind_regular : ℕ
kind_regular = 0x00

abbrev pub kind_flick : ℕ
kind_flick = 0x01

abbrev pub kind_gradual : ℕ
kind_gradual = 0x02

abbrev pub kind_countdown : ℕ
kind_countdown = 0x03

abbrev pub action_off : ℕ
action_off = 0x00

abbrev pub no_weekdays : ℕ
no_weekdays = 0x00

abbrev pub countdown_id : ℕ
countdown_id = 0xC9

-- The accessors of `Record`; `repeat_mask` is `Repeat`.
unfoldable pub id : List ℕ → ℕ
id r = byte_at r 0

unfoldable pub repeat_mask : List ℕ → ℕ
repeat_mask r = byte_at r 1

unfoldable pub hour : List ℕ → ℕ
hour r = byte_at r 2

unfoldable pub minute : List ℕ → ℕ
minute r = byte_at r 3

unfoldable pub kind : List ℕ → ℕ
kind r = byte_at r 4

unfoldable pub duration : List ℕ → ℕ
duration r = byte_at r 6

unfoldable pub action : List ℕ → ℕ
action r = byte_at r 15

unfoldable pub active : List ℕ → Bool
active r = not (byte_at r 7 == 0)

-- `binary.LittleEndian.Uint16(r[8:10])`.
unfoldable pub target : List ℕ → ℕ
unfolding le16
target r = le16 (take 2 (drop 8 r))

-- The loop of `Record.XOR`.
unfoldable pub checksum : List ℕ → ℕ
checksum r = xor_fold r

unfoldable pub set_active : List ℕ → Bool → List ℕ
set_active r on = set r 7 (if on then 0x01 else 0x00)

-- The record is a zero array that is filled byte by byte.
unfoldable pub countdown : ℕ → ℕ → Go (List ℕ)
unfolding copy_slice put_le16
countdown tgt duration_min =
    if duration_min == 0
    then err zero_duration
    else let r = set (zeros 16) 0 countdown_id in
      let r = set r 1 no_weekdays in
      let r = set r 2 0 in
      let r = set r 3 0 in
      let r = set r 4 kind_countdown in
      let r = set r 5 0 in
      let r = set r 6 duration_min in
      let r = set r 7 0x01 in let r = copy_slice 8 10 r (put_le16 tgt) in ok (set r 15 action_off)

unfoldable pub build : ℕ → ℕ → ℕ → ℕ → ℕ → ℕ → ℕ → ℕ → Go (List ℕ)
unfolding copy_slice put_le16
build ident repeat h m k speed tgt act =
    if ltb 23 h
    then err (hour_range h)
    else if ltb 59 m
    then err (minute_range m)
    else let r = set (zeros 16) 0 ident in
      let r = set r 1 repeat in
      let r = set r 2 h in
      let r = set r 3 m in
      let r = set r 4 k in
      let r = set r 5 speed in
      let r = set r 6 0 in
      let r = set r 7 0x01 in
      let r = copy_slice 8 10 r (put_le16 tgt) in
      let r = set r 10 0x00 in
      let r = set r 11 0x00 in
      let r = set r 12 0xFF in let r = set r 13 0xFF in let r = set r 14 0xFF in ok (set r 15 act)

unfoldable pub one_shot : ℕ → ℕ → ℕ → ℕ → ℕ → Go (List ℕ)
unfolding build
one_shot ident tgt utc_hour utc_min act = build ident 0x00 utc_hour utc_min kind_regular 0 tgt act

unfoldable pub recurring : ℕ → ℕ → ℕ → ℕ → ℕ → ℕ → Go (List ℕ)
unfolding build
recurring ident tgt utc_hour utc_min repeat act =
    if repeat == 0
    then err no_weekday
    else build ident (bit_and repeat 0x7F) utc_hour utc_min kind_regular 0 tgt act

unfoldable pub transition : ℕ → ℕ → ℕ → ℕ → ℕ → ℕ → ℕ → ℕ → Go (List ℕ)
unfolding build
transition ident tgt utc_hour utc_min repeat k speed act =
    if not (k == kind_flick) && not (k == kind_gradual)
    then err (transition_kind k)
    else build ident (bit_and repeat 0x7F) utc_hour utc_min k speed tgt act
