-- ===== src/Advertisement/Laws.antt =====
-- What the two advertisement parsers return on every buffer.
use pigsydust.Prelude.{ℕ, ◌≡◌, ◌≢◌, ◌<◌, ◌≤◌, arith, List, [], ◌∷◌, length, take, drop, refl}
use pigsydust.Prelude.{none, some, lt→ltb, ltb, false}
use pigsydust.Prelude.Go.{ok, err, index_ok, manufacturer_id, manufacturer_short}
use pigsydust.Prelude.{◌⊎◌, inl, inr, Bool-cases, ==_iff, ltb→lt, ◌==◌, le_of_ltb, refuted, true}
use pigsydust.Byteutil.{byte_at, le32}
use pigsydust.Notification.{parse_status_flags}
use pigsydust.Protocol
use pigsydust.Advertisement.{Advertisement, parse_advertisement, parse_manufacturer_data, found}

-- The advertisement that a buffer of fifteen bytes at least spells.
abbrev pub spelled : List ℕ → Advertisement
spelled bytes = record {
  mesh_name = [];
  mac = 0x00 ∷ 0x21 ∷ byte_at bytes 5 ∷ byte_at bytes 4 ∷ byte_at bytes 3 ∷ byte_at bytes 2 ∷ [];
  device_type = byte_at bytes 6;
  device_subtype = byte_at bytes 7;
  status_byte = byte_at bytes 8;
  status_flags = parse_status_flags (byte_at bytes 8);
  mesh_address = byte_at bytes 9;
  network_id = le32 (take 4 (drop 11 bytes));
  raw = bytes;
}

long_not_short : (n : ℕ) → 15 ≤ n → ltb n 15 ≡ false
long_not_short n h = ground arith

-- `parse_advertisement` finds nothing in fewer than fifteen bytes, and otherwise reads every field
-- at its documented offset; it never panics.
pub parse_advertisement_cases :
    (bytes : List ℕ)
    → ((length bytes < 15) → parse_advertisement bytes ≡ ok none)
      × ((15 ≤ length bytes) → parse_advertisement bytes ≡ ok (some (spelled bytes)))
unfolding parse_advertisement
parse_advertisement_cases bytes = (
  λ h. rw (lt→ltb _ _ h) refl,
  λ h.
      rw
        (
          long_not_short _ h,
          index_ok bytes 2 0 (omega arith),
          index_ok bytes 3 0 (omega arith),
          index_ok bytes 4 0 (omega arith),
          index_ok bytes 5 0 (omega arith),
          index_ok bytes 6 0 (omega arith),
          index_ok bytes 7 0 (omega arith),
          index_ok bytes 8 0 (omega arith),
          index_ok bytes 9 0 (omega arith),
        )
        refl,
)

pub parse_manufacturer_data-spelled :
    (company : ℕ) (bytes : List ℕ)
    → (company == Protocol.manufacturer_id) ≡ true
    → 15 ≤ length bytes
    → parse_manufacturer_data company bytes ≡ ok (spelled bytes)
unfolding parse_manufacturer_data found
parse_manufacturer_data-spelled company bytes same h =
    rw (same, (parse_advertisement_cases bytes).1 h) refl

-- `parse_manufacturer_data` refuses another company's data and short data with an error that
-- carries the offending number, and otherwise returns the advertisement that the bytes spell.
pub parse_manufacturer_data_cases :
    (company : ℕ) (bytes : List ℕ)
    → ((company ≢ Protocol.manufacturer_id)
        × (parse_manufacturer_data company bytes ≡ err (manufacturer_id company)))
      ⊎ ((company ≡ Protocol.manufacturer_id)
          × ((length bytes < 15)
              × (parse_manufacturer_data company bytes ≡ err (manufacturer_short (length bytes)))))
      ⊎ ((company ≡ Protocol.manufacturer_id)
          × ((15 ≤ length bytes) × (parse_manufacturer_data company bytes ≡ ok (spelled bytes))))
parse_manufacturer_data_cases company bytes =
    elim (Bool-cases (company == Protocol.manufacturer_id)) [
      | inr other ↦ inl (refuted _ _ other, unfold parse_manufacturer_data in rw other refl)
      | inl same ↦ elim (Bool-cases (ltb (length bytes) 15)) [
        | inl short ↦
            let h : length bytes < 15 = ltb→lt _ _ short in
            inr (
              inl (
                (==_iff _ _).0 same,
                (
                  h,
                  unfold parse_manufacturer_data found in
                      rw (same, (parse_advertisement_cases bytes).0 h) refl,
                ),
              ))
        | inr long ↦
            let h : 15 ≤ length bytes = le_of_ltb _ _ long in
            inr
              (inr ((==_iff _ _).0 same, (h, parse_manufacturer_data-spelled company bytes same h)))
      ]
    ]
