-- ===== src/Command/Laws.antt =====
-- Every builder makes a well-formed command, so its encoding carries all that it was given.
use pigsydust.Prelude.{ℕ, ◌^◌, ◌<◌, ◌≤◌, ◌≡◌, sym, arith, Bool, true, false, List}
use pigsydust.Prelude.{length, All, bit_and, subst}
use pigsydust.Bits.{and_mask}
use pigsydust.Byteutil.{IsByte}
use pigsydust.Command.{Command}
use pigsydust.Command.Encode.{IsWellFormed, Carries, encode-Carries}
use pigsydust.Command.Build.{on_off, group_on_off, led_set_blue, led_set_orange, led_set_purple}
use pigsydust.Command.Build.{led_query, find_me, status_query, status_poll, set_utc}
use pigsydust.Command.Build.{set_group_membership, query_group_membership, probe_group}
use pigsydust.Command.Schedule.{query_alarm, delete_alarm, slot_query}

abbrev pub IsU16 : ℕ → Type 0
IsU16 n = n < 2 ^ 16

-- A command made by one of the builders that return a single command, from arguments in the range
-- of their Go types, with at most eight groups in a membership list.
pub data Built : Command → Type 0 where
  by_on_off : {c : Command} (dst : ℕ) (on : Bool) → IsU16 dst → c ≡ on_off dst on → Built c
  by_group_on_off :
      {c : Command} (dst : ℕ) (on : Bool) → IsU16 dst → c ≡ group_on_off dst on → Built c
  by_led_set_blue :
      {c : Command} (dst : ℕ) (on : Bool) → IsU16 dst → c ≡ led_set_blue dst on → Built c
  by_led_set_orange :
      {c : Command} (dst level : ℕ) → IsU16 dst → c ≡ led_set_orange dst level → Built c
  by_led_set_purple :
      {c : Command} (dst level : ℕ) → IsU16 dst → c ≡ led_set_purple dst level → Built c
  by_led_query :
      {c : Command} (dst mac5 : ℕ) → IsU16 dst → mac5 < 256 → c ≡ led_query dst mac5 → Built c
  by_find_me : {c : Command} (dst : ℕ) (start : Bool) → IsU16 dst → c ≡ find_me dst start → Built c
  by_status_query : {c : Command} → c ≡ status_query → Built c
  by_status_poll : {c : Command} (dst : ℕ) → IsU16 dst → c ≡ status_poll dst → Built c
  by_set_utc : {c : Command} (now : ℕ) → c ≡ set_utc now → Built c
  by_set_group :
      {c : Command} (dst : ℕ) (groups : List ℕ) (mac5 : ℕ)
      → IsU16 dst
      → All IsByte groups
      → length groups ≤ 8
      → mac5 < 256
      → c ≡ set_group_membership dst groups mac5
      → Built c
  by_query_group : {c : Command} (dst : ℕ) → IsU16 dst → c ≡ query_group_membership dst → Built c
  by_probe_group : {c : Command} (dst : ℕ) → IsU16 dst → c ≡ probe_group dst → Built c
  by_query_alarm :
      {c : Command} (start mac5 target : ℕ)
      → start < 256
      → mac5 < 256
      → c ≡ query_alarm start mac5 target
      → Built c
  by_delete_alarm :
      {c : Command} (slot mac5 : ℕ) → slot < 256 → mac5 < 256 → c ≡ delete_alarm slot mac5 → Built c
  by_slot_query : {c : Command} (mac5 : ℕ) → mac5 < 256 → c ≡ slot_query mac5 → Built c

mask_nibble : (level : ℕ) → bit_and level 0x0F < 256
mask_nibble level = omega (arith, and_mask 4 level)

on_off-IsWellFormed : (dst : ℕ) (on : Bool) → IsU16 dst → IsWellFormed (on_off dst on)
unfolding on_off
on_off-IsWellFormed dst true h = omega arith
on_off-IsWellFormed dst false h = omega arith

group_on_off-IsWellFormed : (dst : ℕ) (on : Bool) → IsU16 dst → IsWellFormed (group_on_off dst on)
unfolding group_on_off
group_on_off-IsWellFormed dst true h = omega arith
group_on_off-IsWellFormed dst false h = omega arith

Built-IsWellFormed : {c : Command} → Built c → IsWellFormed c
unfolding on_off group_on_off led_set_blue led_set_orange led_set_purple led_query find_me
    status_query status_poll set_utc set_group_membership query_group_membership probe_group
    query_alarm delete_alarm slot_query
Built-IsWellFormed (by_on_off dst on h e) =
    subst IsWellFormed (sym e) (on_off-IsWellFormed dst on h)
Built-IsWellFormed (by_group_on_off dst on h e) =
    subst IsWellFormed (sym e) (group_on_off-IsWellFormed dst on h)
Built-IsWellFormed (by_led_set_blue dst true h e) = subst IsWellFormed (sym e) (omega arith)
Built-IsWellFormed (by_led_set_blue dst false h e) = subst IsWellFormed (sym e) (omega arith)
Built-IsWellFormed (by_led_set_orange dst level h e) =
    subst IsWellFormed (sym e) (omega (arith, mask_nibble level))
Built-IsWellFormed (by_led_set_purple dst level h e) =
    subst IsWellFormed (sym e) (omega (arith, mask_nibble level))
Built-IsWellFormed (by_led_query dst mac5 h k e) = subst IsWellFormed (sym e) (omega arith)
Built-IsWellFormed (by_find_me dst true h e) = subst IsWellFormed (sym e) (omega arith)
Built-IsWellFormed (by_find_me dst false h e) = subst IsWellFormed (sym e) (omega arith)
Built-IsWellFormed (by_status_query e) = subst IsWellFormed (sym e) (omega arith)
Built-IsWellFormed (by_status_poll dst h e) = subst IsWellFormed (sym e) (omega arith)
Built-IsWellFormed (by_set_utc now e) = subst IsWellFormed (sym e) (omega arith)
Built-IsWellFormed (by_set_group dst groups mac5 h b n k e) = subst IsWellFormed (sym e) (record {
  destination_range = h;
  vendor_range = omega arith;
  client_opcode = omega arith;
  opcode_range = omega arith;
  payload_fits = omega arith;
  payload_bytes = (omega arith, (k, b));
})
Built-IsWellFormed (by_query_group dst h e) = subst IsWellFormed (sym e) (omega arith)
Built-IsWellFormed (by_probe_group dst h e) = subst IsWellFormed (sym e) (omega arith)
Built-IsWellFormed (by_query_alarm start mac5 target h k e) =
    subst IsWellFormed (sym e) (omega arith)
Built-IsWellFormed (by_delete_alarm slot mac5 h k e) = subst IsWellFormed (sym e) (omega arith)
Built-IsWellFormed (by_slot_query mac5 k e) = subst IsWellFormed (sym e) (omega arith)

-- Whatever builder of a single command made it, from arguments in the range of their Go types and with
-- at most eight groups in a membership list, `encode` does not panic, and a reader of the frame finds
-- the destination, the opcode constant, the vendor and the whole payload, zero-padded to the length.
pub Built-Carries : (c : Command) → Built c → (bytes : List ℕ) × Carries c bytes
Built-Carries c b = encode-Carries c (Built-IsWellFormed b)
