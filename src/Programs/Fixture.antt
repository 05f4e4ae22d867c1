-- ===== src/Programs/Fixture.antt =====
-- cmd/fixture: the values that the program prints, each as its label and the bytes of its `%x` text.
use Prim.Native.String.{String}
use pigsydust.Prelude.{ℕ, ◌/◌, ◌%◌, true, List, [], ◌∷◌, take, drop, ◌≡◌, refl}
use pigsydust.Prelude.Go.{Go, ok, ◌>>=◌}
use pigsydust.Crypto.{Aes, command_nonce, encrypt, decrypt}
use pigsydust.Crypto.RoundTrip.{decrypt-encrypt}
use pigsydust.Byteutil.{copy_slice, copy, put_le16}
use pigsydust.Crypto.Login.{derive_session_key}
use pigsydust.Command.{encode, wire_opcode}
use pigsydust.Command.Build.{on_off}
use pigsydust.Ble.Uuid.{lower_digit}

abbrev pub name : List ℕ
name = b'S' ∷ b'm' ∷ b'a' ∷ b'r' ∷ b't' ∷ b' ' ∷ b'L' ∷ b'i' ∷ b'g' ∷ b'h' ∷ b't' ∷ []

abbrev pub pass : List ℕ
pass = b'4' ∷ b'0' ∷ b'0' ∷ b'3' ∷ b'8' ∷ b'0' ∷ []

abbrev pub rand_a : List ℕ
rand_a = 0x01 ∷ 0x02 ∷ 0x03 ∷ 0x04 ∷ 0x05 ∷ 0x06 ∷ 0x07 ∷ 0x08 ∷ []

abbrev pub rand_b : List ℕ
rand_b = 0x11 ∷ 0x12 ∷ 0x13 ∷ 0x14 ∷ 0x15 ∷ 0x16 ∷ 0x17 ∷ 0x18 ∷ []

abbrev pub gw_mac : List ℕ
gw_mac = 0x00 ∷ 0x21 ∷ 0x4D ∷ 0x5D ∷ 0x26 ∷ 0x7D ∷ []

abbrev pub sno : List ℕ
sno = 0x00 ∷ 0xB6 ∷ 0x08 ∷ []

-- `%x` of a byte slice or array.
unfoldable pub hex_text : List ℕ → List ℕ
hex_text [] = []
hex_text (b ∷ bytes) = lower_digit (b / 16) ∷ lower_digit (b % 16) ∷ hex_text bytes

module _ (aes : Aes) where
  unfoldable pub sk : List ℕ
  sk = derive_session_key aes name pass rand_a rand_b

  unfoldable pub nonce : List ℕ
  nonce = command_nonce gw_mac sno

  unfoldable pub fixture : Go (List (String × List ℕ))
  fixture = do
    pt ← encode (on_off 9 true)
    ok (
        ("sk", hex_text sk)
        ∷ ("cmd_nonce", hex_text nonce)
        ∷ ("plaintext", hex_text pt)
        ∷ ("packet", hex_text (encrypt aes sk nonce sno pt))
        ∷ [])

-- The printed packet is one from which a node reads the printed plaintext, by the printed key and
-- nonce, whatever the block cipher.
pub fixture-decrypt :
    (aes : Aes)
    → (pt : List ℕ) × ((packet : List ℕ) × (fixture aes
            ≡ ok (
                ("sk", hex_text (sk aes))
                ∷ ("cmd_nonce", hex_text (nonce aes))
                ∷ ("plaintext", hex_text pt)
                ∷ ("packet", hex_text packet)
                ∷ [])
          × (decrypt aes (sk aes) (nonce aes) (take 2 (drop 3 packet)) (drop 5 packet) ≡ ok pt)))
unfolding fixture encode on_off wire_opcode copy_slice copy put_le16
fixture-decrypt aes = (_, (_, (refl, decrypt-encrypt aes (sk aes) (nonce aes) sno _ refl)))
