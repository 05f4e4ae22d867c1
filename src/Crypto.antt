-- ===== src/Crypto.antt =====
-- crypto/crypto.go: reversed AES, the two nonces, CBC-MAC, CTR and the packet format. The block
-- cipher of the standard library is a parameter, `aes key block`.
pub mod Login
pub mod Ctr
pub mod Mac
pub mod RoundTrip
pub mod Sized
use pigsydust.Prelude.{ℕ, zero, suc, ◌+◌, ◌-◌, ◌/◌, ◌%◌, bit_and, bit_xor, ◌≡◌, ◌==◌}
use pigsydust.Prelude.{if◌then◌else◌, ◌||◌, List, [], ◌∷◌, ◌++◌, length, set, bytes_eq}
use pigsydust.Prelude.Go.{Go, ok, err, cbc_mac_mismatch}
use pigsydust.Byteutil.{IsArray, byte_at, zeros, copy_slice, reverse16}

-- `aes.NewCipher(key)` and `Encrypt` on one block.
abbrev pub Aes : Type 0
Aes = List ℕ → List ℕ → List ℕ

-- What the standard library documents of AES-128: a 16-byte key and a 16-byte block give a 16-byte
-- block.
abbrev pub IsCipher : Aes → Type 0
IsCipher aes = (key block : List ℕ) → IsArray 16 key → IsArray 16 block → IsArray 16 (aes key block)

unfoldable pub command_nonce : List ℕ → List ℕ → List ℕ
command_nonce gw_mac sno =
    byte_at gw_mac 5
    ∷ byte_at gw_mac 4
    ∷ byte_at gw_mac 3
    ∷ byte_at gw_mac 2
    ∷ 0x01
    ∷ byte_at sno 0
    ∷ byte_at sno 1
    ∷ byte_at sno 2
    ∷ []

unfoldable pub notification_nonce : List ℕ → List ℕ → ℕ → List ℕ
notification_nonce gw_mac sno src_addr =
    byte_at gw_mac 5
    ∷ byte_at gw_mac 4
    ∷ byte_at gw_mac 3
    ∷ byte_at sno 0
    ∷ byte_at sno 1
    ∷ byte_at sno 2
    ∷ src_addr % 256
    ∷ src_addr / 256 % 256
    ∷ []

-- The block B0 of `cbcMAC`: the nonce, then the length as a byte.
unfoldable pub mac_b0 : List ℕ → ℕ → List ℕ
unfolding copy_slice
mac_b0 nonce len = set (copy_slice 0 8 (zeros 16) nonce) 8 (len % 256)

-- `state[i&0xF] ^= d`.
unfoldable pub mac_absorb : ℕ → List ℕ → ℕ → List ℕ
mac_absorb i state d = set state (bit_and i 0xF) (bit_xor (byte_at state (bit_and i 0xF)) d)

module _ (aes : Aes) where
  unfoldable pub reversed_aes : List ℕ → List ℕ → List ℕ
  unfolding reverse16
  reversed_aes key plaintext = reverse16 (aes (reverse16 key) (reverse16 plaintext))

  -- The loop of `cbcMAC` at index `i` over what is left of `data`, whose whole length is `len`.
  unfoldable pub mac_loop : List ℕ → ℕ → ℕ → List ℕ → List ℕ → List ℕ
  unfolding mac_absorb reversed_aes
  mac_loop sk len i state [] = state
  mac_loop sk len i state (d ∷ rest) =
      mac_loop sk len (i + 1)
        (if bit_and i 0xF == 0xF || i == len - 1
          then reversed_aes sk (mac_absorb i state d)
          else mac_absorb i state d)
        rest

  unfoldable pub cbc_mac : List ℕ → List ℕ → List ℕ → List ℕ
  unfolding mac_loop mac_b0 reversed_aes
  cbc_mac sk nonce bytes =
      let state =
        mac_loop sk (length bytes) 0 (reversed_aes sk (mac_b0 nonce (length bytes))) bytes in
      byte_at state 0 ∷ byte_at state 1 ∷ []

  -- The loop of `ctrCrypt` at index `i`; `ctrBlock[0]` is a byte that wraps.
  unfoldable pub ctr_loop : List ℕ → ℕ → List ℕ → List ℕ → List ℕ → List ℕ
  unfolding reversed_aes
  ctr_loop sk i ctr_block keystream [] = []
  ctr_loop sk i ctr_block keystream (d ∷ rest) =
      let fresh = bit_and i 0xF == 0 in
      let keystream' = if fresh then reversed_aes sk ctr_block else keystream in
      let ctr_block' =
        if fresh then set ctr_block 0 ((byte_at ctr_block 0 + 1) % 256) else ctr_block in
      bit_xor d (byte_at keystream' (bit_and i 0xF))
      ∷ ctr_loop sk (i + 1) ctr_block' keystream' rest

  unfoldable pub ctr_crypt : List ℕ → List ℕ → List ℕ → List ℕ
  unfolding ctr_loop copy_slice
  ctr_crypt sk nonce bytes = ctr_loop sk 0 (copy_slice 1 9 (zeros 16) nonce) (zeros 16) bytes

  -- sno(3) || tag(2) || ciphertext(N)
  unfoldable pub encrypt : List ℕ → List ℕ → List ℕ → List ℕ → List ℕ
  encrypt sk nonce sno plaintext =
      sno ++ (cbc_mac sk nonce plaintext ++ ctr_crypt sk nonce plaintext)

  unfoldable pub decrypt : List ℕ → List ℕ → List ℕ → List ℕ → Go (List ℕ)
  decrypt sk nonce tag ciphertext =
      let plaintext = ctr_crypt sk nonce ciphertext in
      if bytes_eq (cbc_mac sk nonce plaintext) tag then ok plaintext else err cbc_mac_mismatch
