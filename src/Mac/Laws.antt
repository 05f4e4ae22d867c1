-- ===== src/Mac/Laws.antt =====
-- Printing a MAC address and parsing it gives it back.
use pigsydust.Prelude.{ℕ, suc, ◌/◌, ◌%◌, ◌<◌, ◌≡◌, refl, sym, ap, ◌∙◌, arith, subst, ◌⊎◌}
use pigsydust.Prelude.{true, false, List, [], ◌∷◌, ◌++◌, length, eq-tabulate, All}
use pigsydust.Prelude.Go.{ok}
use pigsydust.Byteutil.{IsByte, IsArray}
use pigsydust.Mac.{upper_digit, format_byte, mac_string, is_separator, fields_from, hex_value}
use pigsydust.Mac.{decode_octet, octets, parse_mac}
use pigsydust.Prelude.{map, inl, ==_true, ◌==◌, length-map, some}

hex_value-upper_digit : (n : ℕ) → n < 16 → hex_value (upper_digit n) ≡ some n
unfolding hex_value upper_digit
hex_value-upper_digit n h = ground arith

upper_digit_plain : (n : ℕ) → n < 16 → is_separator (upper_digit n) ≡ false
unfolding is_separator upper_digit
upper_digit_plain n h = ground arith

decode_octet-format_byte : (b : ℕ) → b < 256 → decode_octet (format_byte b) ≡ ok b
unfolding decode_octet format_byte
decode_octet-format_byte b h =
    rw
      (
        hex_value-upper_digit (b / 16) (omega arith),
        decode_octet,
        hex_value-upper_digit (b % 16) (omega arith),
        decode_octet,
      )
      (ap ok (omega arith))

-- A printed byte before a separator, or at the end, is one field.
field_then :
    (b sep : ℕ) (s : List ℕ)
    → b < 256
    → is_separator sep ≡ true
    → fields_from [] (format_byte b ++ (sep ∷ s)) ≡ format_byte b ∷ fields_from [] s
unfolding fields_from format_byte
field_then b sep s h e =
    rw
      (
        upper_digit_plain (b / 16) (omega arith),
        fields_from,
        upper_digit_plain (b % 16) (omega arith),
        fields_from,
        e,
        fields_from,
      )
      refl

field_last : (b : ℕ) → b < 256 → fields_from [] (format_byte b) ≡ format_byte b ∷ []
unfolding fields_from format_byte
field_last b h =
    rw
      (
        upper_digit_plain (b / 16) (omega arith),
        fields_from,
        upper_digit_plain (b % 16) (omega arith),
        fields_from,
      )
      refl

-- The bytes of an address, printed with a separator between them.
abbrev pub joined_by : ℕ → List ℕ → List ℕ
joined_by sep [] = []
joined_by sep (b ∷ []) = format_byte b
joined_by sep (b ∷ c ∷ m) = format_byte b ++ (sep ∷ joined_by sep (c ∷ m))

fields_from-joined_by :
    (sep b : ℕ) (m : List ℕ)
    → is_separator sep ≡ true
    → All IsByte (b ∷ m)
    → fields_from [] (joined_by sep (b ∷ m)) ≡ map format_byte (b ∷ m)
fields_from-joined_by sep b [] e h = field_last b h.0
fields_from-joined_by sep b (c ∷ m) e h =
    field_then b sep (joined_by sep (c ∷ m)) h.0 e
    ∙ ap (λ (t : List (List ℕ)). format_byte b ∷ t) (fields_from-joined_by sep c m e h.1)

octets-format_byte : (m : List ℕ) → All IsByte m → octets (map format_byte m) ≡ ok m
unfolding octets
octets-format_byte [] h = refl
octets-format_byte (b ∷ m) h = rw (decode_octet-format_byte b h.0, octets-format_byte m h.1) refl

-- Six bytes printed in hexadecimal, with colons or with dashes between them, parse back to the
-- address.
pub parse_mac-joined_by :
    (sep : ℕ) (m : List ℕ)
    → (sep ≡ b':') ⊎ (sep ≡ b'-')
    → IsArray 6 m
    → parse_mac (joined_by sep m) ≡ ok m
unfolding parse_mac
parse_mac-joined_by sep [] which h = absurd (omega (arith, h.0))
parse_mac-joined_by sep (b ∷ m) which h =
    rw (fields_from-joined_by sep b m (separates which) h.1, length-map m format_byte, six)
      (octets-format_byte (b ∷ m) h.1)
  where
    separates : (sep ≡ b':') ⊎ (sep ≡ b'-') → is_separator sep ≡ true
    separates c = unfold is_separator in ground arith

    six : (suc (length m) == 6) ≡ true
    six = ==_true _ 6 h.0

-- `String` prints with colons.
pub mac_string-joined_by : (m : List ℕ) → IsArray 6 m → mac_string m ≡ joined_by b':' m
mac_string-joined_by m h =
    subst (λ r. mac_string r ≡ joined_by b':' r) (sym (eq-tabulate 0 6 m h.0))
      (unfold mac_string in refl)

-- `String` prints with colons, so parsing what it prints gives the address back.
pub parse_mac-mac_string : (m : List ℕ) → IsArray 6 m → parse_mac (mac_string m) ≡ ok m
parse_mac-mac_string m h =
    ap parse_mac (mac_string-joined_by m h) ∙ parse_mac-joined_by b':' m (inl refl) h
