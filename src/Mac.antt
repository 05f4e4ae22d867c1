-- ===== src/Mac.antt =====
-- types.go: printing and parsing MAC addresses. A text is the list of its bytes.
pub mod Laws
use Prim.Native.Nat.{suc}
use pigsydust.Prelude.{
  ℕ, ◌+◌, ◌-◌, ◌*◌, ◌/◌, ◌%◌, leb, ltb, ◌==◌, if◌then◌else◌, Bool, true, false, ◌&&◌, ◌||◌, not,
}
use pigsydust.Prelude.{List, [], ◌∷◌, ◌++◌, length, Option, none, some}
use pigsydust.Prelude.Go.{Go, ok, err, ◌>>=◌, mac_octets, mac_bad_octet}
use pigsydust.Byteutil.{byte_at}

-- `%X` on a half byte.
unfoldable pub upper_digit : ℕ → ℕ
upper_digit n = if ltb n 10 then b'0' + n else b'A' + (n - 10)

-- `%02X`.
unfoldable pub format_byte : ℕ → List ℕ
format_byte b = upper_digit (b / 16) ∷ upper_digit (b % 16) ∷ []

unfoldable pub mac_string : List ℕ → List ℕ
mac_string m =
    format_byte (byte_at m 0)
    ++ (b':' ∷ format_byte (byte_at m 1)
        ++ (b':' ∷ format_byte (byte_at m 2)
            ++ (b':' ∷ format_byte (byte_at m 3)
                ++ (b':' ∷ format_byte (byte_at m 4) ++ (b':' ∷ format_byte (byte_at m 5))))))

unfoldable pub gateway_mac5 : List ℕ → ℕ
gateway_mac5 m = byte_at m 5

unfoldable pub is_separator : ℕ → Bool
is_separator r = r == b':' || r == b'-'

abbrev flush : List ℕ → List (List ℕ) → List (List ℕ)
flush [] rest = rest
flush (c ∷ field) rest = (c ∷ field) ∷ rest

-- `strings.FieldsFunc`: the runs of bytes that are no separators, none of them empty. `field` is
-- what the current run has so far.
unfoldable pub fields_from : List ℕ → List ℕ → List (List ℕ)
fields_from field [] = flush field []
fields_from field (c ∷ s) = elim (is_separator c) [
  | true ↦ flush field (fields_from [] s)
  | false ↦ fields_from (field ++ (c ∷ [])) s
]

-- One digit of `hex.DecodeString`.
unfoldable pub hex_value : ℕ → Option ℕ
hex_value c =
    if leb b'0' c && leb c b'9'
    then some (c - b'0')
    else if leb b'a' c && leb c b'f'
    then some (c - b'a' + 10)
    else if leb b'A' c && leb c b'F'
    then some (c - b'A' + 10)
    else none

-- `hex.DecodeString` and the test for exactly one byte: two hexadecimal digits.
unfoldable pub decode_octet : List ℕ → Go ℕ
decode_octet (h ∷ l ∷ []) = elim (hex_value h) [
  | some a ↦ elim (hex_value l) [
    | some b ↦ ok (a * 16 + b)
    | none ↦ err (mac_bad_octet (h ∷ l ∷ []))
  ]
  | none ↦ err (mac_bad_octet (h ∷ l ∷ []))
]
decode_octet p = err (mac_bad_octet p)

unfoldable pub octets : List (List ℕ) → Go (List ℕ)
octets [] = ok []
octets (p ∷ parts) = do b ← decode_octet p; rest ← octets parts; ok (b ∷ rest)

unfoldable pub parse_mac : List ℕ → Go (List ℕ)
parse_mac s =
    let parts = fields_from [] s in
    if not (length parts == 6) then err (mac_octets (length parts)) else octets parts
