-- ===== src/Programs/Collect.antt =====
-- ble/cmd/smoke: the statuses that the program collects from the notifications.
use pigsydust.Prelude.{ℕ, ◌==◌, if◌then◌else◌, List, [], ◌∷◌}
use pigsydust.Prelude.Go.{Go, ok, err, panic}
use pigsydust.Prelude.Maps.{ℕ_key, put}
use pigsydust.Protocol.{op_notify_status_poll, op_notify_status_broadcast}
use pigsydust.Notification.{Notification}
use pigsydust.Notification.Payload.{
  DeviceStatus, parse_device_status, parse_device_status_broadcast,
}

abbrev pub Statuses : Type 0
Statuses = List (ℕ × DeviceStatus)

-- `for _, ds := range list { statuses[ds.Address] = ds }`.
unfoldable pub put_statuses : List DeviceStatus → Statuses → Statuses
put_statuses [] statuses = statuses
put_statuses (ds ∷ rest) statuses = put_statuses rest (put ds.address ds statuses)

-- The parsers do not panic; an error is passed over.
unfoldable pub note_one : Go DeviceStatus → Statuses → Statuses
note_one (ok ds) statuses = put ds.address ds statuses
note_one (err e) statuses = statuses
note_one panic statuses = statuses

unfoldable pub note_all : Go (List DeviceStatus) → Statuses → Statuses
note_all (ok list) statuses = put_statuses list statuses
note_all (err e) statuses = statuses
note_all panic statuses = statuses

-- The switch on a notification's opcode.
unfoldable pub note : Notification → Statuses → Statuses
note n statuses =
    if n.opcode == op_notify_status_poll
    then note_one (parse_device_status n) statuses
    else if n.opcode == op_notify_status_broadcast
    then note_all (parse_device_status_broadcast n) statuses
    else statuses

unfoldable pub collect : Statuses → List Notification → Statuses
collect statuses [] = statuses
collect statuses (n ∷ notifications) = collect (note n statuses) notifications
