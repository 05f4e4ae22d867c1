-- ===== src/Address/Laws.antt =====
-- The partition of the address space, and group addresses.
use pigsydust.Prelude.{ℕ, ◌+◌, ◌*◌, ◌/◌, ◌%◌, ◌^◌, ◌<◌, ◌≤◌, ◌≡◌, ◌≢◌, ◌⊎◌, ◌↔◌, refl, ap, ◌∙◌}
use pigsydust.Prelude.{arith, true, false, bit_and}
use pigsydust.Bits.{and_mask, and_bit_split, or_shifted}
use pigsydust.Address.{is_group, is_individual, group_id, group_address}

group_bit : (a : ℕ) → bit_and a 0x8000 ≡ a / 2 ^ 15 % 2 * 2 ^ 15
group_bit a =
    ap (λ (t : ℕ). bit_and t 0x8000)
      {y = a / 2 ^ 16 * 2 ^ 16 + (a / 2 ^ 15 % 2 * 2 ^ 15 + a % 2 ^ 15)} (omega arith)
    ∙ and_bit_split 15 (a / 2 ^ 16) (a / 2 ^ 15 % 2) (a % 2 ^ 15) (omega arith) (omega arith)

-- A 16-bit address is a group's exactly from 0x8000 up to 0xFFFE, and a device's exactly from 1 up to
-- 0x7FFE; never both; and neither exactly for 0, the poll broadcast and the full broadcast.
pub address_partition :
    (a : ℕ)
    → a < 2 ^ 16
    → ((is_group a ≡ true) ↔ ((0x8000 ≤ a) × (a ≢ 0xFFFF)))
      × ((is_individual a ≡ true) ↔ ((1 ≤ a) × (a ≤ 0x7FFE)))
      × ((is_group a ≡ false) ⊎ (is_individual a ≡ false))
      × (((is_group a ≡ false) × (is_individual a ≡ false))
          ↔ ((a ≡ 0) ⊎ (a ≡ 0x7FFF) ⊎ (a ≡ 0xFFFF)))
unfolding is_group is_individual
address_partition a h = ground (arith, group_bit a)

-- The address of a group is a group address from which the group is read back.
pub group_id-group_address :
    (ident : ℕ)
    → ident < 256
    → (group_address ident ≡ 0x8000 + ident)
      × (is_group (group_address ident) ≡ true)
      × (group_id (group_address ident) ≡ ident)
unfolding group_address group_id is_group
group_id-group_address ident h = rw (or_shifted 15 1 ident (omega arith)) (
  refl,
  ground (arith, group_bit (0x8000 + ident)),
  ground (arith, group_bit (0x8000 + ident), and_mask 8 (0x8000 + ident)),
)
