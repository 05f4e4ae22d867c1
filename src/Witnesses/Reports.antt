-- ===== src/Witnesses/Reports.antt =====
-- Fragments of alarms.
use pigsydust.Prelude.{ℕ, ◌≡◌, List, [], ◌∷◌, drop}
use pigsydust.Byteutil.{byte_at}
use pigsydust.Protocol
use pigsydust.Notification.{Notification}
use pigsydust.Notification.Payload.{parse_alarm_fragment}
use pigsydust.Notification.Fields.{Outcome, parse_alarm_fragment-Outcome}

abbrev note_of : ℕ → List ℕ → Notification
note_of op payload = record { source = 0x30; opcode = op; vendor = 0x0211; payload = payload }

abbrev second_half : Notification
second_half = note_of Protocol.op_notify_alarm_fragment (2 ∷ 10 ∷ 11 ∷ [])

parse_alarm_fragment-Outcome_example :
    Outcome Protocol.op_notify_alarm_fragment 1 second_half
      (λ f. f ≡ record {
        slot = byte_at second_half.payload 0;
        part = 0;
        fragment = drop 1 second_half.payload;
      })
      (parse_alarm_fragment second_half)
parse_alarm_fragment-Outcome_example = parse_alarm_fragment-Outcome second_half
