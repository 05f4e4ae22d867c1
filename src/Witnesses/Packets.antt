-- ===== src/Witnesses/Packets.antt =====
-- Packets under the toy cipher.
use pigsydust.Prelude.{ℕ, ◌≡◌, ◌↔◌, refl, arith, bit_xor, List, [], ◌∷◌, ◌++◌, take}
use pigsydust.Prelude.Go.{ok}
use pigsydust.Byteutil.{byte_at, zeros, le16}
use pigsydust.Crypto.{ctr_crypt, cbc_mac, decrypt, reversed_aes, mac_b0}
use pigsydust.Crypto.RoundTrip.{decrypt-eq-ok_iff}
use pigsydust.Crypto.Ctr.{ctr_crypt-keystream, keystream_at}
use pigsydust.Crypto.Mac.{cbc_mac-cbc_blocks, cbc_blocks}
use pigsydust.Notification.{Notification, decrypt_notification}
use pigsydust.Notification.Decrypt.{sealed, decrypt_notification-sealed}
use pigsydust.Witnesses.Data.{toy, key_bytes, gateway}

abbrev nonce : List ℕ
nonce = 0x30 ∷ 0x20 ∷ 0x10 ∷ 0x4D ∷ 0x01 ∷ 0x07 ∷ 0xA5 ∷ 0x5A ∷ []

abbrev plain : List ℕ
plain = 0x01 ∷ 0x00 ∷ 0xD0 ∷ 0x11 ∷ 0x02 ∷ 0xFF ∷ []

-- Eighteen bytes, so that two keystream blocks are used.
abbrev message : List ℕ
message = plain ++ zeros 12

decrypt-eq-ok_iff_example :
    (decrypt toy key_bytes nonce
        (cbc_mac toy key_bytes nonce plain)
        (ctr_crypt toy key_bytes nonce plain)
      ≡ ok plain)
    ↔ ((ctr_crypt toy key_bytes nonce plain ≡ ctr_crypt toy key_bytes nonce plain)
        × (cbc_mac toy key_bytes nonce plain ≡ cbc_mac toy key_bytes nonce plain))
decrypt-eq-ok_iff_example = decrypt-eq-ok_iff toy key_bytes nonce _ _ plain

ctr_crypt-keystream_example :
    byte_at (ctr_crypt toy key_bytes nonce message) 17
    ≡ bit_xor (byte_at message 17) (keystream_at toy key_bytes nonce 17)
ctr_crypt-keystream_example = ctr_crypt-keystream toy key_bytes nonce message 17 (omega arith)

cbc_mac-cbc_blocks_example :
    cbc_mac toy key_bytes nonce message
    ≡ take 2 (cbc_blocks toy key_bytes 18 (reversed_aes toy key_bytes (mac_b0 nonce 18)) message)
cbc_mac-cbc_blocks_example = cbc_mac-cbc_blocks toy key_bytes nonce message

abbrev sno : List ℕ
sno = 1 ∷ 2 ∷ 3 ∷ []

decrypt_notification-sealed_example :
    decrypt_notification toy key_bytes gateway
      (sealed toy key_bytes gateway sno 0x30 (0xDB ∷ 0x11 ∷ 0x02 ∷ zeros 10))
    ≡ ok (record { source = 0x30; opcode = 0xDB; vendor = 0x0211; payload = zeros 10 })
unfolding le16
decrypt_notification-sealed_example =
    decrypt_notification-sealed toy key_bytes gateway sno (zeros 10) 0x30 0xDB 0x11 0x02 refl refl
      (omega arith)
