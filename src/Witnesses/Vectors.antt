-- ===== src/Witnesses/Vectors.antt =====
-- The vectors of the source's own tests, on the definitions: notification_test.go, address_test.go,
-- command/command_test.go, schedule/alarm_test.go, schedule/timezone_test.go.
use pigsydust.Prelude.{ℕ, Bool, true, false, List, [], ◌∷◌, map, take, ◌≡◌, refl}
use pigsydust.Prelude.Go.{Go, ok, err, index, hour_range, minute_range, zero_duration}
use pigsydust.Prelude.Int.{pos, negsuc, byte_ℤ, ◌+ℤ◌, ◌%ℤ◌, ◌-ℤ◌}
use pigsydust.Byteutil.{zeros, copy, copy_slice, put_le16, put_le32}
use pigsydust.Protocol.{
  op_notify_status_poll, op_notify_status_broadcast, op_notify_group_response,
  op_notify_led_or_slot,
}
use pigsydust.Command.{encode, wire_opcode}
use pigsydust.Command.Build.{on_off, led_set_orange, set_utc}
use pigsydust.Notification.{Notification, parse_status_flags}
use pigsydust.Notification.Payload.{
  DeviceStatus, checked, device_status_body, parse_device_status, broadcast_slot, broadcast_loop,
  parse_device_status_broadcast, groups_loop, parse_group_membership, parse_slot_assignment,
}
use pigsydust.Schedule.{build, one_shot, countdown}
use pigsydust.Schedule.Weekday.{monday, tuesday, weekdays}
use pigsydust.Schedule.Timezone.{local_to_utc, rotate_for, rotate_left, rotate_right}

abbrev told_by : ℕ → List ℕ → Notification
told_by op payload = record { source = 0x7D; opcode = op; vendor = 0x0211; payload = payload }

status_vector :
    parse_device_status (
      told_by op_notify_status_poll
        (0x00 ∷ 0x22 ∷ 0x18 ∷ 0x05 ∷ 0x11 ∷ 0x22 ∷ 0x33 ∷ 0x44 ∷ 0x07 ∷ 0x01 ∷ []))
    ≡ ok (record {
      address = 0x7D;
      on = true;
      mac = 0 ∷ 0 ∷ 0x44 ∷ 0x33 ∷ 0x22 ∷ 0x11 ∷ [];
      routing_metric = 7;
      device_type = 0x22;
      device_subtype = 0x18;
      status_byte = 5;
      status_flags = record { online = true; alarm_dev = false; version = 1 };
    })
unfolding parse_device_status checked device_status_body index parse_status_flags
status_vector = refl

abbrev seen : Go (List DeviceStatus) → List (ℕ × Bool)
seen (ok list) = map (λ d. (d.address, d.on)) list
seen (err e) = []
seen Go.panic = []

two_slots :
    seen (
      parse_device_status_broadcast (
        told_by op_notify_status_broadcast
          (0x7D ∷ 0x05 ∷ 0x01 ∷ 0x05 ∷ 0x7E ∷ 0x03 ∷ 0x00 ∷ 0x01 ∷ 0x00 ∷ 0x00 ∷ [])))
    ≡ (0x7D, true) ∷ (0x7E, false) ∷ []
unfolding parse_device_status_broadcast checked broadcast_loop broadcast_slot index
two_slots = refl

empty_slot :
    seen (
      parse_device_status_broadcast (
        told_by op_notify_status_broadcast
          (0x00 ∷ 0x00 ∷ 0x00 ∷ 0x00 ∷ 0x7E ∷ 0x03 ∷ 0x00 ∷ 0x01 ∷ 0x00 ∷ 0x00 ∷ [])))
    ≡ (0x7E, false) ∷ []
unfolding parse_device_status_broadcast checked broadcast_loop broadcast_slot index
empty_slot = refl

groups_vector :
    parse_group_membership
      (told_by op_notify_group_response (0x02 ∷ 0x05 ∷ 0x0A ∷ 0xFF ∷ 0x99 ∷ []))
    ≡ ok (0x02 ∷ 0x05 ∷ 0x0A ∷ [])
unfolding parse_group_membership checked groups_loop
groups_vector = refl

slot_vector :
    parse_slot_assignment (told_by op_notify_led_or_slot (0xAA ∷ 0x10 ∷ 0x04 ∷ 0x07 ∷ 0x00 ∷ []))
    ≡ ok 7
unfolding parse_slot_assignment checked index
slot_vector = refl

on_off_vector : encode (on_off 1 true) ≡ ok (1 ∷ 0 ∷ 0xED ∷ 0x69 ∷ 0x69 ∷ 1 ∷ zeros 9)
unfolding encode on_off wire_opcode copy copy_slice put_le16
on_off_vector = refl

orange_vector : (led_set_orange 0x7D 0xFF).payload ≡ 0 ∷ 0 ∷ 0xFF ∷ 0x0F ∷ []
unfolding led_set_orange
orange_vector = refl

clock_vector : take 5 (set_utc 1700000000).payload ≡ 0x00 ∷ 0xF1 ∷ 0x53 ∷ 0x65 ∷ 0 ∷ []
unfolding set_utc put_le32
clock_vector = refl

-- 8:00 on weekdays at UTC+10, 15:00 there, and 18:00 on Monday at UTC-8.
aest_morning : local_to_utc 8 weekdays (pos 10) ≡ (22, 0x4F)
unfolding local_to_utc rotate_for rotate_left rotate_right byte_ℤ ◌+ℤ◌ ◌%ℤ◌ ◌-ℤ◌
aest_morning = refl

aest_afternoon : local_to_utc 15 weekdays (pos 10) ≡ (5, weekdays)
unfolding local_to_utc rotate_for rotate_left rotate_right byte_ℤ ◌+ℤ◌ ◌%ℤ◌ ◌-ℤ◌
aest_afternoon = refl

pst_evening : local_to_utc 18 monday (negsuc 7) ≡ (2, tuesday)
unfolding local_to_utc rotate_for rotate_left rotate_right byte_ℤ ◌+ℤ◌ ◌%ℤ◌ ◌-ℤ◌
pst_evening = refl

no_duration : countdown 1 0 ≡ err zero_duration
unfolding countdown
no_duration = refl

hour_24 : one_shot 1 1 24 0 0 ≡ err (hour_range 24)
unfolding one_shot build
hour_24 = refl

minute_60 : one_shot 1 1 0 60 0 ≡ err (minute_range 60)
unfolding one_shot build
minute_60 = refl
