-- ===== src/Crypto/Ctr.antt =====
-- The CTR loop of crypto.go: against a keystream computed index by index, and as an involution.
use pigsydust.Prelude.{ℕ, zero, suc, ◌+◌, ◌/◌, ◌%◌, ◌<◌, bit_and, bit_xor, ◌≡◌}
use pigsydust.Prelude.{refl, ap, ap₂, ◌∙◌, ◌≢◌, arith, List, [], ◌∷◌, length, set}
use pigsydust.Prelude.{==_true, ==_false}
use native.Mathlib.Decide.{ℕ_discrete}
use native.Mathlib.Nat.{add-zero}
use pigsydust.Bits.{and_mask, xor_cancel}
use pigsydust.Byteutil.{byte_at, zeros, copy_slice}
use pigsydust.Crypto.{Aes, reversed_aes, ctr_loop, ctr_crypt}

pub low_nibble : (i : ℕ) → bit_and i 0xF ≡ i % 16
low_nibble i = and_mask 4 i

module _ (aes : Aes) where
  -- The counter block number `q`: the counter byte, the nonce and seven zeros.
  abbrev pub counter_block : List ℕ → ℕ → List ℕ
  counter_block nonce q = set (copy_slice 1 9 (zeros 16) nonce) 0 (q % 256)

  -- The keystream byte at index `i`: byte `i % 16` of the encrypted counter block `i / 16`.
  abbrev pub keystream_at : List ℕ → List ℕ → ℕ → ℕ
  keystream_at sk nonce i = byte_at (reversed_aes aes sk (counter_block nonce (i / 16))) (i % 16)

  pub length-ctr_loop :
      (sk : List ℕ) (i : ℕ) (ctr ks bytes : List ℕ)
      → length (ctr_loop aes sk i ctr ks bytes) ≡ length bytes
  unfolding ctr_loop
  length-ctr_loop sk i ctr ks [] = refl
  length-ctr_loop sk i ctr ks (d ∷ rest) = ap suc (length-ctr_loop sk (i + 1) _ _ rest)

  -- The loop masks with bytes that do not depend on what it masks.
  pub ctr_loop_cancel :
      (sk : List ℕ) (i : ℕ) (ctr ks bytes : List ℕ)
      → ctr_loop aes sk i ctr ks (ctr_loop aes sk i ctr ks bytes) ≡ bytes
  unfolding ctr_loop
  ctr_loop_cancel sk i ctr ks [] = refl
  ctr_loop_cancel sk i ctr ks (d ∷ rest) =
      ap₂ ◌∷◌ (xor_cancel d _) (ctr_loop_cancel sk (i + 1) _ _ rest)

  -- Decryption is encryption: applying the keystream twice gives the bytes back.
  pub ctr_crypt-ctr_crypt :
      (sk nonce bytes : List ℕ) → ctr_crypt aes sk nonce (ctr_crypt aes sk nonce bytes) ≡ bytes
  unfolding ctr_crypt
  ctr_crypt-ctr_crypt sk nonce bytes =
      ctr_loop_cancel sk 0 (copy_slice 1 9 (zeros 16) nonce) (zeros 16) bytes

  pub length-ctr_crypt :
      (sk nonce bytes : List ℕ) → length (ctr_crypt aes sk nonce bytes) ≡ length bytes
  unfolding ctr_crypt
  length-ctr_crypt sk nonce bytes = length-ctr_loop sk 0 _ _ bytes

  -- What the loop's two variables hold at index `i`.
  record CtrInv (sk nonce : List ℕ) (i : ℕ) (ctr ks : List ℕ) : Type 0 where
    counter : ctr ≡ counter_block nonce ((i + 15) / 16)
    current : i % 16 ≢ 0 → ks ≡ reversed_aes aes sk (counter_block nonce (i / 16))

  counter_next :
      (nonce : List ℕ) (q : ℕ)
      → set (counter_block nonce q) 0 ((byte_at (counter_block nonce q) 0 + 1) % 256)
        ≡ counter_block nonce (q + 1)
  unfolding copy_slice
  counter_next nonce q = ap₂ ◌∷◌ (omega arith) refl

  -- The two cases of one round: a new keystream block is made, or the current one is used.
  round_fresh :
      (sk nonce : List ℕ) (i : ℕ) (ctr ks : List ℕ) (d : ℕ) (rest : List ℕ)
      → i % 16 ≡ 0
      → CtrInv sk nonce i ctr ks
      → ctr_loop aes sk i ctr ks (d ∷ rest)
        ≡ bit_xor d (keystream_at sk nonce i)
          ∷ ctr_loop aes sk
              (i + 1)
              (counter_block nonce (i / 16 + 1))
              (reversed_aes aes sk (counter_block nonce (i / 16)))
              rest
  unfolding ctr_loop
  round_fresh sk nonce i ctr ks d rest h inv =
      let at_start : ctr ≡ counter_block nonce (i / 16) =
        inv.counter ∙ ap (counter_block nonce) {x = (i + 15) / 16} {y = i / 16} (omega arith) in
      rw (low_nibble i, ==_true (i % 16) 0 h, at_start, counter_next nonce (i / 16)) refl

  fresh_CtrInv :
      (sk nonce : List ℕ) (i : ℕ)
      → i % 16 ≡ 0
      → CtrInv sk nonce
          (i + 1)
          (counter_block nonce (i / 16 + 1))
          (reversed_aes aes sk (counter_block nonce (i / 16)))
  fresh_CtrInv sk nonce i h = record {
    counter = ap (counter_block nonce) (omega arith);
    current = λ _. ap (λ (q : ℕ). reversed_aes aes sk (counter_block nonce q)) (omega arith);
  }

  round_same :
      (sk nonce : List ℕ) (i : ℕ) (ctr ks : List ℕ) (d : ℕ) (rest : List ℕ)
      → i % 16 ≢ 0
      → CtrInv sk nonce i ctr ks
      → ctr_loop aes sk i ctr ks (d ∷ rest)
        ≡ bit_xor d (keystream_at sk nonce i) ∷ ctr_loop aes sk (i + 1) ctr ks rest
  unfolding ctr_loop
  round_same sk nonce i ctr ks d rest h inv =
      rw (low_nibble i, ==_false (i % 16) 0 h, inv.current h) refl

  same_CtrInv :
      (sk nonce : List ℕ) (i : ℕ) (ctr ks : List ℕ)
      → i % 16 ≢ 0
      → CtrInv sk nonce i ctr ks
      → CtrInv sk nonce (i + 1) ctr ks
  same_CtrInv sk nonce i ctr ks h inv = record {
    counter =
        inv.counter
        ∙ ap (counter_block nonce) {x = (i + 15) / 16} {y = (i + 1 + 15) / 16} (omega arith);
    current = λ later.
        inv.current h
        ∙ ap (λ (q : ℕ). reversed_aes aes sk (counter_block nonce q)) {x = i / 16}
            {y = (i + 1) / 16} (omega arith);
  }

  masked :
      (sk nonce : List ℕ) (bytes : List ℕ) (i j : ℕ) (ctr ks : List ℕ)
      → CtrInv sk nonce i ctr ks
      → j < length bytes
      → byte_at (ctr_loop aes sk i ctr ks bytes) j
        ≡ bit_xor (byte_at bytes j) (keystream_at sk nonce (i + j))
  masked sk nonce [] i j ctr ks inv h = absurd (omega arith)
  masked sk nonce (d ∷ rest) i zero ctr ks inv h = elim (ℕ_discrete (i % 16) 0) [
    | yes e ↦ rw (round_fresh sk nonce i ctr ks d rest e inv, add-zero i) refl
    | no ne ↦ rw (round_same sk nonce i ctr ks d rest ne inv, add-zero i) refl
  ]
  masked sk nonce (d ∷ rest) i (suc j) ctr ks inv h = elim (ℕ_discrete (i % 16) 0) [
    | yes e ↦
        rw (round_fresh sk nonce i ctr ks d rest e inv, ← next)
          (masked sk nonce rest (i + 1) j _ _ (fresh_CtrInv sk nonce i e) (omega arith))
    | no ne ↦
        rw (round_same sk nonce i ctr ks d rest ne inv, ← next)
          (masked sk nonce rest (i + 1) j _ _ (same_CtrInv sk nonce i ctr ks ne inv) (omega arith))
  ]
    where
      next : i + 1 + j ≡ i + suc j
      next = omega arith

  -- The loop, which makes a keystream block every 16 bytes, masks byte `i` of the input with byte
  -- `i % 16` of the encrypted counter block number `i / 16` (the counter is one byte).
  pub ctr_crypt-keystream :
      (sk nonce bytes : List ℕ) (i : ℕ)
      → i < length bytes
      → byte_at (ctr_crypt aes sk nonce bytes) i
        ≡ bit_xor (byte_at bytes i) (keystream_at sk nonce i)
  unfolding ctr_crypt
  ctr_crypt-keystream sk nonce bytes i h =
      masked sk nonce bytes 0 i _ _
        (record { counter = unfold copy_slice in refl; current = λ ne. absurd (ne refl) }) h
      ∙ ap (λ (t : ℕ). bit_xor (byte_at bytes i) (keystream_at sk nonce t)) {x = 0 + i} {y = i}
          (omega arith)
