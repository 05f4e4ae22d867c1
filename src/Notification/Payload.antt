-- ===== src/Notification/Payload.antt =====
-- notification.go: the parsers of the payloads, one for each notification opcode.
use pigsydust.Prelude.{ℕ, ◌+◌, Bool, true, false, not, ltb, ◌==◌, ◌||◌, if◌then◌else◌}
use pigsydust.Prelude.{List, [], ◌∷◌, ◌++◌, length, set, drop}
use pigsydust.Prelude.Go.{
  Go, ok, err, ◌>>=◌, index, wrapped, err_short_packet, err_unexpected_opcode,
}
use pigsydust.Byteutil.{zeros}
use pigsydust.Protocol.{op_notify_status_poll, op_notify_status_broadcast, op_notify_group_response}
use pigsydust.Protocol.{op_notify_led_or_slot, op_notify_alarm_fragment}
use pigsydust.Protocol.DeviceClass.{device_class_lookup}
use pigsydust.Notification.{Notification, StatusFlags, parse_status_flags}

pub record DeviceStatus : Type 0 where
  pub address : ℕ
  pub on : Bool
  pub mac : List ℕ
  pub routing_metric : ℕ
  pub device_type : ℕ
  pub device_subtype : ℕ
  pub status_byte : ℕ
  pub status_flags : StatusFlags

unfoldable pub device_class : DeviceStatus → ℕ
device_class s = device_class_lookup s.device_type s.device_subtype

-- The two checks that every parser begins with: the opcode, then the length of the payload.
unfoldable pub checked {ℓ} : {A : Type ℓ} → ℕ → ℕ → Notification → Go A → Go A
checked opcode need n body =
    if not (n.opcode == opcode)
    then err (wrapped err_unexpected_opcode n.opcode)
    else if ltb (length n.payload) need
    then err (wrapped err_short_packet (length n.payload))
    else body

unfoldable pub device_status_body : ℕ → List ℕ → Go DeviceStatus
device_status_body source payload = do
  p1 ← index payload 1
  p2 ← index payload 2
  p3 ← index payload 3
  p8 ← index payload 8
  p9 ← index payload 9
  p4 ← index payload 4
  p5 ← index payload 5
  p6 ← index payload 6
  p7 ← index payload 7
  ok (record {
    address = source;
    on = not (p9 == 0);
    mac = set (set (set (set (zeros 6) 5 p4) 4 p5) 3 p6) 2 p7;
    routing_metric = p8;
    device_type = p1;
    device_subtype = p2;
    status_byte = p3;
    status_flags = parse_status_flags p3;
  })

unfoldable pub parse_device_status : Notification → Go DeviceStatus
parse_device_status n = checked op_notify_status_poll 10 n (device_status_body n.source n.payload)

-- One slot of a broadcast at `offset`: nothing for a zero address.
unfoldable pub broadcast_slot : List ℕ → ℕ → Go (List DeviceStatus)
broadcast_slot payload offset = do
  addr ← index payload offset
  if addr == 0 then ok [] else do
    flags ← index payload (offset + 3)
    metric ← index payload (offset + 1)
    level ← index payload (offset + 2)
    ok (
        record {
          address = addr;
          on = not (level == 0);
          mac = zeros 6;
          routing_metric = metric;
          device_type = 0;
          device_subtype = 0;
          status_byte = flags;
          status_flags = parse_status_flags flags;
        }
        ∷ [])

-- The loop over the offsets, appending to `out`.
unfoldable pub broadcast_loop : List ℕ → List DeviceStatus → List ℕ → Go (List DeviceStatus)
broadcast_loop payload out [] = ok out
broadcast_loop payload out (offset ∷ offsets) = do
  slot ← broadcast_slot payload offset
  broadcast_loop payload (out ++ slot) offsets

unfoldable pub parse_device_status_broadcast : Notification → Go (List DeviceStatus)
parse_device_status_broadcast n =
    checked op_notify_status_broadcast 8 n (broadcast_loop n.payload [] (0 ∷ 4 ∷ []))

-- The loop of `ParseGroupMembership`, left at a 0x00 or 0xFF.
unfoldable pub groups_loop : List ℕ → List ℕ → List ℕ
groups_loop groups [] = groups
groups_loop groups (b ∷ payload) = elim (b == 0x00 || b == 0xFF) [
  | true ↦ groups
  | false ↦ groups_loop (groups ++ (b ∷ [])) payload
]

unfoldable pub parse_group_membership : Notification → Go (List ℕ)
parse_group_membership n = checked op_notify_group_response 0 n (ok (groups_loop [] n.payload))

pub record LedState : Type 0 where
  pub blue_channel : ℕ
  pub blue_level : ℕ
  pub orange_channel : ℕ
  pub orange_level : ℕ

unfoldable pub blue_on : LedState → Bool
blue_on s = not (s.blue_level == 0)

unfoldable pub orange_on : LedState → Bool
orange_on s = not (s.orange_level == 0)

unfoldable pub led_state_body : List ℕ → Go LedState
led_state_body payload = do
  p2 ← index payload 2
  p3 ← index payload 3
  p4 ← index payload 4
  p5 ← index payload 5
  ok (record { blue_channel = p2; blue_level = p3; orange_channel = p4; orange_level = p5 })

unfoldable pub parse_led_state : Notification → Go LedState
parse_led_state n = checked op_notify_led_or_slot 6 n (led_state_body n.payload)

unfoldable pub parse_slot_assignment : Notification → Go ℕ
parse_slot_assignment n = checked op_notify_led_or_slot 4 n (index n.payload 3)

-- `fragment` is the field `Data`, and `part` the field `Index`.
pub record AlarmFragment : Type 0 where
  pub slot : ℕ
  pub part : ℕ
  pub fragment : List ℕ

-- The parser leaves `Index` at its zero value.
unfoldable pub alarm_fragment_body : List ℕ → Go AlarmFragment
alarm_fragment_body payload = do
  p0 ← index payload 0
  ok (record { slot = p0; part = 0; fragment = drop 1 payload })

unfoldable pub parse_alarm_fragment : Notification → Go AlarmFragment
parse_alarm_fragment n = checked op_notify_alarm_fragment 1 n (alarm_fragment_body n.payload)
