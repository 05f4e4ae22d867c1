-- ===== src/Command/Schedule.antt =====
-- command/schedule.go: the commands to the schedule coordinator.
use pigsydust.Prelude.{ℕ, ◌/◌, ◌%◌, List, [], ◌∷◌, ◌++◌, take, drop}
use pigsydust.Byteutil.{xor_fold}
use pigsydust.Protocol.{vendor_skytone, op_write_alarm, op_query_alarm, op_delete_alarm}
use pigsydust.Protocol.{op_slot_query}
use pigsydust.Command.{Command}

abbrev pub schedule_coordinator : ℕ
schedule_coordinator = 0x0030

-- A command to the coordinator; every builder of the file fills these three fields alike.
unfoldable pub to_coordinator : ℕ → List ℕ → Command
to_coordinator opcode payload = record {
  destination = schedule_coordinator;
  opcode = opcode;
  vendor = vendor_skytone;
  payload = payload;
  plaintext_len = 15;
}

-- `alarm` is the 16-byte record.
unfoldable pub write_alarm : List ℕ → Command × Command
unfolding to_coordinator
write_alarm alarm = (
  to_coordinator op_write_alarm (0x00 ∷ take 9 alarm),
  to_coordinator op_write_alarm (0x01 ∷ (take 7 (drop 9 alarm) ++ (xor_fold alarm ∷ []))),
)

unfoldable pub query_alarm : ℕ → ℕ → ℕ → Command
unfolding to_coordinator
query_alarm start_slot gw_mac5 target =
    to_coordinator op_query_alarm
      (start_slot ∷ gw_mac5 ∷ 0x00 ∷ target % 256 ∷ target / 256 % 256 ∷ [])

unfoldable pub delete_alarm : ℕ → ℕ → Command
unfolding to_coordinator
delete_alarm slot gw_mac5 = to_coordinator op_delete_alarm (slot ∷ gw_mac5 ∷ 0x00 ∷ [])

unfoldable pub slot_query : ℕ → Command
unfolding to_coordinator
slot_query gw_mac5 = to_coordinator op_slot_query (gw_mac5 ∷ 0x00 ∷ [])
