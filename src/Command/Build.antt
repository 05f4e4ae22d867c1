-- ===== src/Command/Build.antt =====
-- command/control.go, led.go, status.go, sunrise.go and group.go: the builders, one for each command.
use pigsydust.Prelude.{ℕ, ◌/◌, ◌%◌, bit_and, Bool, if◌then◌else◌, List, [], ◌∷◌}
use pigsydust.Prelude.{◌++◌, length}
use pigsydust.Byteutil.{put_le32, xor_fold_from}
use pigsydust.Protocol.{vendor_skytone, vendor_skytone_alt, vendor_led_query, op_type_client}
use pigsydust.Protocol.{op_on_off, op_group_on_off, op_status_query, op_status_poll, op_set_group}
use pigsydust.Protocol.{op_query_group, op_probe_group, op_led_set, op_led_query, op_find_me}
use pigsydust.Protocol.{op_sunrise_sunset, led_ch_blue_select, led_ch_orange_select}
use pigsydust.Protocol.{led_blue_on_level, find_me_mode_blink, find_me_duration}
use pigsydust.Command.{Command}

unfoldable pub on_off : ℕ → Bool → Command
on_off dst on = record {
  destination = dst;
  opcode = op_on_off;
  vendor = vendor_skytone;
  payload = (if on then 0x01 else 0x00) ∷ [];
  plaintext_len = 15;
}

unfoldable pub group_on_off : ℕ → Bool → Command
group_on_off group on = record {
  destination = group;
  opcode = op_group_on_off;
  vendor = vendor_skytone;
  payload =
      (if on then 0x0E else 0x0D)
      ∷ 0x00
      ∷ 0x10
      ∷ 0x00
      ∷ 0x00
      ∷ 0x00
      ∷ group % 256
      ∷ group / 256 % 256
      ∷ [];
  plaintext_len = 15;
}

unfoldable pub led_set_blue : ℕ → Bool → Command
led_set_blue dst on = record {
  destination = dst;
  opcode = op_led_set;
  vendor = vendor_skytone;
  payload = led_ch_blue_select ∷ (if on then led_blue_on_level else 0) ∷ 0x00 ∷ 0x00 ∷ [];
  plaintext_len = 15;
}

unfoldable pub led_set_orange : ℕ → ℕ → Command
led_set_orange dst level = record {
  destination = dst;
  opcode = op_led_set;
  vendor = vendor_skytone;
  payload = 0x00 ∷ 0x00 ∷ led_ch_orange_select ∷ bit_and level 0x0F ∷ [];
  plaintext_len = 15;
}

unfoldable pub led_set_purple : ℕ → ℕ → Command
led_set_purple dst orange_level = record {
  destination = dst;
  opcode = op_led_set;
  vendor = vendor_skytone;
  payload =
      led_ch_blue_select
      ∷ led_blue_on_level
      ∷ led_ch_orange_select
      ∷ bit_and orange_level 0x0F
      ∷ [];
  plaintext_len = 15;
}

unfoldable pub led_query : ℕ → ℕ → Command
led_query dst gw_mac5 = record {
  destination = dst;
  opcode = op_led_query;
  vendor = vendor_led_query;
  payload = gw_mac5 ∷ 0x00 ∷ [];
  plaintext_len = 15;
}

unfoldable pub find_me : ℕ → Bool → Command
find_me dst start = record {
  destination = dst;
  opcode = op_find_me;
  vendor = vendor_skytone;
  payload = if start then find_me_mode_blink ∷ find_me_duration ∷ [] else 0x00 ∷ 0x00 ∷ [];
  plaintext_len = 15;
}

unfoldable pub with_dst : Command → ℕ → Command
with_dst c dst = record c { destination = dst }

unfoldable pub status_query : Command
unfolding with_dst
status_query =
    with_dst
      (record {
        destination = op_type_client;
        opcode = op_status_query;
        vendor = vendor_skytone;
        payload = 0x00 ∷ 0x00 ∷ 0xD7 ∷ 0x69 ∷ 0x00 ∷ [];
        plaintext_len = 10;
      })
      0xFFFF

unfoldable pub status_poll : ℕ → Command
status_poll dst = record {
  destination = dst;
  opcode = op_status_poll;
  vendor = vendor_skytone_alt;
  payload = 0x10 ∷ 0x00 ∷ [];
  plaintext_len = 7;
}

-- `now` is `now.Unix()`, not negative; `uint32` keeps its low 32 bits.
unfoldable pub set_utc : ℕ → Command
unfolding put_le32
set_utc now = record {
  destination = 0xFFFF;
  opcode = op_status_query;
  vendor = vendor_skytone;
  payload = put_le32 now ++ (0x00 ∷ []);
  plaintext_len = 15;
}

-- One frame of `SunriseSunset`: the index, then the eight bytes.
unfoldable pub sunrise_frame : ℕ → ℕ → List ℕ → List ℕ → Command
sunrise_frame dst i fragment tail = record {
  destination = dst;
  opcode = op_sunrise_sunset;
  vendor = vendor_skytone;
  payload = i ∷ (fragment ++ tail);
  plaintext_len = 15;
}

-- The three frames; the last one carries the exclusive or of all 24 bytes.
unfoldable pub sunrise_sunset : ℕ → List ℕ → List ℕ → List ℕ → Command × Command × Command
unfolding sunrise_frame xor_fold_from
sunrise_sunset dst f0 f1 f2 =
    let xor = xor_fold_from (xor_fold_from (xor_fold_from 0 f0) f1) f2 in
    (sunrise_frame dst 0 f0 [], sunrise_frame dst 1 f1 [], sunrise_frame dst 2 f2 (xor ∷ []))

unfoldable pub set_group_membership : ℕ → List ℕ → ℕ → Command
set_group_membership dst group_low_bytes gw_mac5 = record {
  destination = dst;
  opcode = op_set_group;
  vendor = vendor_skytone;
  payload = length group_low_bytes % 256 ∷ gw_mac5 ∷ group_low_bytes;
  plaintext_len = 15;
}

unfoldable pub query_group_membership : ℕ → Command
query_group_membership dst = record {
  destination = dst;
  opcode = op_query_group;
  vendor = vendor_skytone_alt;
  payload = 0x00 ∷ 0x00 ∷ 0x00 ∷ [];
  plaintext_len = 10;
}

unfoldable pub probe_group : ℕ → Command
probe_group group_addr = record {
  destination = group_addr;
  opcode = op_probe_group;
  vendor = vendor_skytone_alt;
  payload = 0x0A ∷ 0x01 ∷ [];
  plaintext_len = 10;
}
