-- ===== src/Address.antt =====
-- address.go: the 16-bit mesh addresses.
pub mod Laws
use pigsydust.Prelude.{ℕ, ◌%◌, ◌≡◌, bit_and, bit_or, Bool, ◌&&◌, not, ltb, ◌==◌, if◌then◌else◌}

abbrev pub addr_broadcast : ℕ
addr_broadcast = 0xFFFF

abbrev pub addr_broadcast_poll : ℕ
addr_broadcast_poll = 0x7FFF

abbrev pub addr_schedule_coord : ℕ
addr_schedule_coord = 0x0030

abbrev pub group_addr_bit : ℕ
group_addr_bit = 0x8000

unfoldable pub is_group : ℕ → Bool
is_group a = not (bit_and a group_addr_bit == 0) && not (a == addr_broadcast)

unfoldable pub is_individual : ℕ → Bool
is_individual a = not (a == 0) && ltb a 0x7FFF

unfoldable pub group_id : ℕ → ℕ
unfolding is_group
group_id a = if not (is_group a) then 0 else bit_and a 0x00FF % 256

unfoldable pub group_address : ℕ → ℕ
group_address id = bit_or group_addr_bit id
