-- ===== src/Protocol/Texts.antt =====
-- protocol/const.go: the UUIDs as texts. The code of ble/ has them as bytes of its own.
use pigsydust.Prelude.{ℕ, List, [], ◌∷◌, ◌++◌, ◌≡◌, refl}
use pigsydust.Ble.Uuid.{
  uuid_string, telink_uuid, lower_digit, dash_before, uuid_loop, new_16_bit_uuid, mesh_service_uuid,
  char_notify_uuid, char_cmd_uuid, char_ota_uuid, char_pair_uuid, dis_service_uuid,
  dis_model_number_uuid,
}

-- "00010203-0405-0607-0809-0a0b0c0d1910", but for the last digit.
abbrev telink_text : ℕ → List ℕ
telink_text last =
    b'0' ∷ b'0' ∷ b'0' ∷ b'1' ∷ b'0' ∷ b'2' ∷ b'0' ∷ b'3' ∷ b'-' ∷ b'0' ∷ b'4' ∷ b'0' ∷ b'5' ∷ b'-'
    ∷ b'0' ∷ b'6' ∷ b'0' ∷ b'7' ∷ b'-' ∷ b'0' ∷ b'8' ∷ b'0' ∷ b'9' ∷ b'-' ∷ b'0' ∷ b'a' ∷ b'0'
    ∷ b'b' ∷ b'0' ∷ b'c' ∷ b'0' ∷ b'd' ∷ b'1' ∷ b'9' ∷ b'1' ∷ last ∷ []

-- "0000....-0000-1000-8000-00805f9b34fb", with the four digits of a 16-bit UUID.
abbrev short_text : List ℕ → List ℕ
short_text digits =
    b'0'
    ∷ b'0'
    ∷ b'0'
    ∷ b'0'
    ∷ (digits
        ++ (b'-' ∷ b'0' ∷ b'0' ∷ b'0' ∷ b'0' ∷ b'-' ∷ b'1' ∷ b'0' ∷ b'0' ∷ b'0' ∷ b'-' ∷ b'8' ∷ b'0'
            ∷ b'0' ∷ b'0' ∷ b'-' ∷ b'0' ∷ b'0' ∷ b'8' ∷ b'0' ∷ b'5' ∷ b'f' ∷ b'9' ∷ b'b' ∷ b'3'
            ∷ b'4' ∷ b'f' ∷ b'b' ∷ []))

abbrev pub mesh_service_text : List ℕ
mesh_service_text = telink_text b'0'

abbrev pub char_notify_text : List ℕ
char_notify_text = telink_text b'1'

abbrev pub char_cmd_text : List ℕ
char_cmd_text = telink_text b'2'

abbrev pub char_ota_text : List ℕ
char_ota_text = telink_text b'3'

abbrev pub char_pair_text : List ℕ
char_pair_text = telink_text b'4'

abbrev pub dis_service_text : List ℕ
dis_service_text = short_text (b'1' ∷ b'8' ∷ b'0' ∷ b'a' ∷ [])

abbrev pub dis_model_number_text : List ℕ
dis_model_number_text = short_text (b'2' ∷ b'a' ∷ b'2' ∷ b'4' ∷ [])

abbrev pub dis_firmware_rev_text : List ℕ
dis_firmware_rev_text = short_text (b'2' ∷ b'a' ∷ b'2' ∷ b'6' ∷ [])

abbrev pub dis_hardware_rev_text : List ℕ
dis_hardware_rev_text = short_text (b'2' ∷ b'a' ∷ b'2' ∷ b'7' ∷ [])

abbrev pub dis_manufacturer_text : List ℕ
dis_manufacturer_text = short_text (b'2' ∷ b'a' ∷ b'2' ∷ b'9' ∷ [])

-- The texts are what the UUIDs of ble/ print as, where it has one.
pub uuid_string-texts :
    (uuid_string mesh_service_uuid ≡ mesh_service_text)
    × ((uuid_string char_notify_uuid ≡ char_notify_text)
        × ((uuid_string char_cmd_uuid ≡ char_cmd_text)
            × ((uuid_string char_ota_uuid ≡ char_ota_text)
                × ((uuid_string char_pair_uuid ≡ char_pair_text)
                    × ((uuid_string dis_service_uuid ≡ dis_service_text)
                        × (uuid_string dis_model_number_uuid ≡ dis_model_number_text))))))
unfolding uuid_string uuid_loop telink_uuid lower_digit dash_before new_16_bit_uuid
uuid_string-texts = (refl, (refl, (refl, (refl, (refl, (refl, refl))))))
