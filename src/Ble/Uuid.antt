-- ===== src/Ble/Uuid.antt =====
-- ble/ids.go and ble/adapter_linux.go: printing and parsing UUIDs. A text is the list of its bytes.
pub mod Laws
use pigsydust.Prelude.{
  ℕ, suc, ◌+◌, ◌-◌, ◌*◌, ◌/◌, ◌%◌, leb, ltb, ◌==◌, if◌then◌else◌, Bool, true, false, ◌&&◌, ◌||◌,
  not,
}
use pigsydust.Prelude.{List, [], ◌∷◌, ◌++◌, length}
use pigsydust.Prelude.Go.{Go, ok, err, ◌>>=◌, bad_uuid, bad_hex}

-- `hex[n]` for the digits "0123456789abcdef".
unfoldable pub lower_digit : ℕ → ℕ
lower_digit n = if ltb n 10 then b'0' + n else b'a' + (n - 10)

-- The dash before bytes 4, 6, 8 and 10.
unfoldable pub dash_before : ℕ → List ℕ
dash_before i = if i == 4 || i == 6 || i == 8 || i == 10 then b'-' ∷ [] else []

-- The loop of `UUID.String` from byte `i`: what it adds to the buffer.
unfoldable pub uuid_loop : ℕ → List ℕ → List ℕ
uuid_loop i [] = []
uuid_loop i (b ∷ u) =
    dash_before i ++ (lower_digit (b / 16) ∷ lower_digit (b % 16) ∷ uuid_loop (i + 1) u)

unfoldable pub uuid_string : List ℕ → List ℕ
unfolding uuid_loop
uuid_string u = uuid_loop 0 u

unfoldable pub new_16_bit_uuid : ℕ → List ℕ
new_16_bit_uuid v =
    0x00
    ∷ 0x00
    ∷ v / 256 % 256
    ∷ v % 256
    ∷ 0x00
    ∷ 0x00
    ∷ 0x10
    ∷ 0x00
    ∷ 0x80
    ∷ 0x00
    ∷ 0x00
    ∷ 0x80
    ∷ 0x5f
    ∷ 0x9b
    ∷ 0x34
    ∷ 0xfb
    ∷ []

abbrev pub service_uuid_16 : ℕ
service_uuid_16 = 0xCDAB

abbrev pub service_uuid : List ℕ
service_uuid = new_16_bit_uuid service_uuid_16

-- The Telink service and characteristics, which differ in their last byte.
unfoldable pub telink_uuid : ℕ → List ℕ
telink_uuid last =
    0x00 ∷ 0x01 ∷ 0x02 ∷ 0x03 ∷ 0x04 ∷ 0x05 ∷ 0x06 ∷ 0x07 ∷ 0x08 ∷ 0x09 ∷ 0x0a ∷ 0x0b ∷ 0x0c ∷ 0x0d
    ∷ 0x19 ∷ last ∷ []

abbrev pub mesh_service_uuid : List ℕ
mesh_service_uuid = telink_uuid 0x10

abbrev pub char_ota_uuid : List ℕ
char_ota_uuid = telink_uuid 0x13

abbrev pub dis_service_uuid : List ℕ
dis_service_uuid = new_16_bit_uuid 0x180a

abbrev pub dis_model_number_uuid : List ℕ
dis_model_number_uuid = new_16_bit_uuid 0x2a24

abbrev pub char_notify_uuid : List ℕ
char_notify_uuid = telink_uuid 0x11

abbrev pub char_cmd_uuid : List ℕ
char_cmd_uuid = telink_uuid 0x12

abbrev pub char_pair_uuid : List ℕ
char_pair_uuid = telink_uuid 0x14

unfoldable pub hex_byte : ℕ → Go ℕ
hex_byte c =
    if leb b'0' c && leb c b'9'
    then ok (c - b'0')
    else if leb b'a' c && leb c b'f'
    then ok (c - b'a' + 10)
    else if leb b'A' c && leb c b'F'
    then ok (c - b'A' + 10)
    else err (bad_hex c)

-- `strings.ReplaceAll(s, "-", "")`.
unfoldable pub without_dashes : List ℕ → List ℕ
without_dashes [] = []
without_dashes (c ∷ s) = elim (c == b'-') [ true ↦ without_dashes s | false ↦ c ∷ without_dashes s ]

-- The loop of `parseUUIDString` over the digits two by two; `(hi << 4) | lo` is a sum, since `lo` is
-- below 16 and `hi` too.
unfoldable pub digit_pairs : List ℕ → Go (List ℕ)
digit_pairs (h ∷ l ∷ s) = do
  hi ← hex_byte h
  lo ← hex_byte l
  rest ← digit_pairs s
  ok ((hi * 16 + lo) ∷ rest)
digit_pairs s = ok []

unfoldable pub parse_uuid_string : List ℕ → Go (List ℕ)
parse_uuid_string s =
    let digits = without_dashes s in
    if not (length digits == 32) then err (bad_uuid digits) else digit_pairs digits
