-- ===== src/Crypto/Sized.antt =====
-- crypto/crypto.go: what the arrays and slices hold: bytes, and as many as their types say.
use pigsydust.Prelude.{
  ℕ, ◌+◌, ◌-◌, ◌%◌, ◌<◌, bit_and, ◌||◌, ◌==◌, zero, suc, List, [], ◌∷◌, length, set, length-append,
  All, refl, ap₂, ◌∙◌, arith,
}
use pigsydust.Prelude.{if◌then◌else◌, Bool, true, false}
use pigsydust.Bits.{xor-lt-256}
use pigsydust.Byteutil.{IsByte, IsArray, byte_at, zeros, copy_slice}
use pigsydust.Byteutil.Laws.{
  byte_at-IsByte, All-append-IsByte, All-take-IsByte, All-drop-IsByte, zeros-IsByte, copy-IsByte,
  reverse16-IsArray,
}
use pigsydust.Crypto.{
  Aes, IsCipher, command_nonce, mac_b0, mac_absorb, reversed_aes, mac_loop, cbc_mac, ctr_loop,
  ctr_crypt, encrypt,
}
use pigsydust.Crypto.Ctr.{length-ctr_crypt}

set-IsByte : (b : List ℕ) (i v : ℕ) → All IsByte b → v < 256 → All IsByte (set b i v)
set-IsByte [] i v h hv = tt
set-IsByte (x ∷ b) zero v h hv = (hv, h.1)
set-IsByte (x ∷ b) (suc i) v h hv = (h.0, set-IsByte b i v h.1 hv)

copy_slice-IsByte :
    (lo hi : ℕ) (dst src : List ℕ)
    → All IsByte dst
    → All IsByte src
    → All IsByte (copy_slice lo hi dst src)
unfolding copy_slice
copy_slice-IsByte lo hi dst src hd hs = All-append-IsByte _ _ (All-take-IsByte lo dst hd) (
    All-append-IsByte _ _
      (copy-IsByte _ src (All-take-IsByte (hi - lo) _ (All-drop-IsByte lo dst hd)) hs)
      (All-drop-IsByte hi dst hd))

pub command_nonce-IsArray :
    (gw_mac sno : List ℕ)
    → All IsByte gw_mac
    → All IsByte sno
    → IsArray 8 (command_nonce gw_mac sno)
unfolding command_nonce
command_nonce-IsArray gw_mac sno hg hs =
    let g = λ (i : ℕ). byte_at-IsByte gw_mac i hg in
    let n = λ (i : ℕ). byte_at-IsByte sno i hs in
    (refl, (g 5, (g 4, (g 3, (g 2, (omega arith, (n 0, (n 1, (n 2, tt)))))))))

mac_b0-IsByte : (nonce : List ℕ) (len : ℕ) → All IsByte nonce → All IsByte (mac_b0 nonce len)
unfolding mac_b0
mac_b0-IsByte nonce len h =
    set-IsByte _ 8 (len % 256) (copy_slice-IsByte 0 8 (zeros 16) nonce (zeros-IsByte 16) h)
      (omega arith)

mac_absorb-IsByte :
    (i : ℕ) (state : List ℕ) (d : ℕ)
    → All IsByte state
    → d < 256
    → All IsByte (mac_absorb i state d)
unfolding mac_absorb
mac_absorb-IsByte i state d h hd =
    set-IsByte state (bit_and i 0xF) _ h
      (xor-lt-256 _ d (byte_at-IsByte state (bit_and i 0xF) h) hd)

module _ (aes : Aes) (cipher : IsCipher aes) (sk : List ℕ) (key_bytes : All IsByte sk) where
  pub reversed_aes-IsArray :
      (block : List ℕ) → All IsByte block → IsArray 16 (reversed_aes aes sk block)
  unfolding reversed_aes
  reversed_aes-IsArray block h =
      reverse16-IsArray _
        (cipher _ _ (reverse16-IsArray sk key_bytes) (reverse16-IsArray block h)).1

  mac_loop-IsByte :
      (len i : ℕ) (state bytes : List ℕ)
      → All IsByte state
      → All IsByte bytes
      → All IsByte (mac_loop aes sk len i state bytes)
  unfolding mac_loop
  mac_loop-IsByte len i state [] hs hb = hs
  mac_loop-IsByte len i state (d ∷ rest) hs (hd, hb) =
      mac_loop-IsByte len (i + 1) _ rest (either (bit_and i 0xF == 0xF || i == len - 1)) hb
    where
      absorbed : All IsByte (mac_absorb i state d)
      absorbed = mac_absorb-IsByte i state d hs hd

      either :
          (b : Bool)
          → All IsByte
              (if b then reversed_aes aes sk (mac_absorb i state d) else mac_absorb i state d)
      either true = (reversed_aes-IsArray (mac_absorb i state d) absorbed).1
      either false = absorbed

  pub cbc_mac-IsArray :
      (nonce bytes : List ℕ)
      → All IsByte nonce
      → All IsByte bytes
      → IsArray 2 (cbc_mac aes sk nonce bytes)
  unfolding cbc_mac
  cbc_mac-IsArray nonce bytes hn hb =
      let h =
        mac_loop-IsByte (length bytes) 0 _ bytes
          (reversed_aes-IsArray _ (mac_b0-IsByte nonce (length bytes) hn)).1 hb in
      (refl, (byte_at-IsByte _ 0 h, (byte_at-IsByte _ 1 h, tt)))

  ctr_loop-IsByte :
      (i : ℕ) (ctr_block keystream bytes : List ℕ)
      → All IsByte ctr_block
      → All IsByte keystream
      → All IsByte bytes
      → All IsByte (ctr_loop aes sk i ctr_block keystream bytes)
  unfolding ctr_loop
  ctr_loop-IsByte i ctr_block keystream [] hc hk hb = tt
  ctr_loop-IsByte i ctr_block keystream (d ∷ rest) hc hk (hd, hb) =
      let fresh = bit_and i 0xF == 0 in
      (
        xor-lt-256 d _ hd (byte_at-IsByte _ (bit_and i 0xF) (stream fresh)),
        ctr_loop-IsByte (i + 1) _ _ rest (counter fresh) (stream fresh) hb,
      )
    where
      stream : (b : Bool) → All IsByte (if b then reversed_aes aes sk ctr_block else keystream)
      stream true = (reversed_aes-IsArray ctr_block hc).1
      stream false = hk

      counter :
          (b : Bool)
          → All IsByte (if b then set ctr_block 0 ((byte_at ctr_block 0 + 1) % 256) else ctr_block)
      counter true = set-IsByte ctr_block 0 _ hc (omega arith)
      counter false = hc

  pub ctr_crypt-IsArray :
      (nonce bytes : List ℕ)
      → All IsByte nonce
      → All IsByte bytes
      → IsArray (length bytes) (ctr_crypt aes sk nonce bytes)
  unfolding ctr_crypt
  ctr_crypt-IsArray nonce bytes hn hb = (
    length-ctr_crypt aes sk nonce bytes,
    ctr_loop-IsByte 0 _ (zeros 16) bytes
        (copy_slice-IsByte 1 9 (zeros 16) nonce (zeros-IsByte 16) hn) (zeros-IsByte 16) hb,
  )

  -- A packet is five bytes longer than its plaintext, and all bytes.
  pub encrypt-IsArray :
      (nonce sno plaintext : List ℕ)
      → All IsByte nonce
      → IsArray 3 sno
      → All IsByte plaintext
      → IsArray (5 + length plaintext) (encrypt aes sk nonce sno plaintext)
  unfolding encrypt
  encrypt-IsArray nonce sno plaintext hn hs hp =
      let tag = cbc_mac-IsArray nonce plaintext hn hp in
      let ct = ctr_crypt-IsArray nonce plaintext hn hp in
      (
        length-append sno _
            ∙ ap₂ ◌+◌ hs.0 (length-append (cbc_mac aes sk nonce plaintext) _ ∙ ap₂ ◌+◌ tag.0 ct.0)
            ∙ (omega arith),
        All-append-IsByte sno _ hs.1 (All-append-IsByte _ _ tag.1 ct.1),
      )
