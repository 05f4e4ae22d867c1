-- ===== src/Crypto/Mac.antt =====
-- The CBC-MAC loop of crypto.go against the textbook definition over zero-padded 16-byte blocks.
use pigsydust.Prelude.{ℕ, zero, suc, ◌+◌, ◌-◌, ◌*◌, ◌%◌, ◌≤◌, bit_xor, ◌≡◌}
use pigsydust.Prelude.{refl, ap, ap₂, ◌∙◌, sym, ◌≢◌, ◌⊎◌, inl, inr, arith, List, [], ◌∷◌, ◌++◌}
use pigsydust.Prelude.{length, set, take, drop, ==_true, ==_false, ◌==◌, Bool-cases}
use pigsydust.Prelude.{take-append-drop, length-take, length-drop}
use pigsydust.Prelude.{take_all, drop_all}
use native.Mathlib.Decide.{dec_le}
use pigsydust.Bits.{xor-zero}
use pigsydust.Byteutil.{byte_at, zeros, copy, pad16, xor_bytes, xor16}
use pigsydust.Crypto.{Aes, reversed_aes, mac_b0, mac_absorb, mac_loop, cbc_mac}
use pigsydust.Crypto.Ctr.{low_nibble}

-- The bytes `c` folded into `state` from index `j` on.
abbrev absorb_from : ℕ → List ℕ → List ℕ → List ℕ
absorb_from j state [] = state
absorb_from j state (d ∷ c) = absorb_from (suc j) (set state j (bit_xor (byte_at state j) d)) c

absorb_from-cons :
    (j x : ℕ) (state c : List ℕ) → absorb_from (suc j) (x ∷ state) c ≡ x ∷ absorb_from j state c
absorb_from-cons j x state [] = refl
absorb_from-cons j x state (d ∷ c) =
    absorb_from-cons (suc j) x (set state j (bit_xor (byte_at state j) d)) c

-- From index 0 it is the exclusive or with the zero-padded bytes.
absorb_from-xor_bytes :
    (state c : List ℕ) → length c ≤ length state → absorb_from 0 state c ≡ xor_bytes state c
unfolding xor_bytes
absorb_from-xor_bytes [] [] h = refl
absorb_from-xor_bytes (x ∷ state) [] h = refl
absorb_from-xor_bytes [] (d ∷ c) h = absurd (omega arith)
absorb_from-xor_bytes (x ∷ state) (d ∷ c) h =
    absorb_from-cons 0 (bit_xor x d) state c
    ∙ ap (λ (t : List ℕ). bit_xor x d ∷ t) (absorb_from-xor_bytes state c (omega arith))

xor_bytes-zeros : (a : List ℕ) → xor_bytes a (zeros (length a)) ≡ a
unfolding xor_bytes
xor_bytes-zeros [] = refl
xor_bytes-zeros (x ∷ a) = ap₂ ◌∷◌ (xor-zero x) (xor_bytes-zeros a)

xor_bytes_pad : (a c : List ℕ) → xor_bytes a (copy (zeros (length a)) c) ≡ xor_bytes a c
unfolding xor_bytes copy
xor_bytes_pad [] c = refl
xor_bytes_pad (x ∷ a) [] = xor_bytes-zeros (x ∷ a)
xor_bytes_pad (x ∷ a) (y ∷ c) = ap (λ (t : List ℕ). bit_xor x y ∷ t) (xor_bytes_pad a c)

xor16-pad16 : (a c : List ℕ) → length a ≡ 16 → xor16 a (pad16 c) ≡ xor_bytes a c
unfolding xor16 pad16
xor16-pad16 a c h = ap (λ (n : ℕ). xor_bytes a (copy (zeros n) c)) (sym h) ∙ xor_bytes_pad a c

take_two : (s : List ℕ) → length s ≡ 16 → take 2 s ≡ byte_at s 0 ∷ byte_at s 1 ∷ []
take_two [] h = absurd (omega arith)
take_two (x ∷ []) h = absurd (omega arith)
take_two (x ∷ y ∷ s) h = refl

module _ (aes : Aes) (sk : List ℕ) where
  -- One round that ends a block, and one that does not.
  round_last :
      (len i : ℕ) (state : List ℕ) (d : ℕ) (rest : List ℕ)
      → (i % 16 ≡ 15) ⊎ (i ≡ len - 1)
      → mac_loop aes sk len i state (d ∷ rest)
        ≡ mac_loop aes sk len
            (i + 1)
            (reversed_aes aes sk (set state (i % 16) (bit_xor (byte_at state (i % 16)) d)))
            rest
  unfolding mac_loop mac_absorb
  round_last len i state d rest (inl e) = rw (low_nibble i, ==_true (i % 16) 15 e) refl
  round_last len i state d rest (inr e) = elim (Bool-cases (i % 16 == 15)) [
    | inl t ↦ rw (low_nibble i, t) refl
    | inr f ↦ rw (low_nibble i, f, ==_true i (len - 1) e) refl
  ]

  round_inner :
      (len i : ℕ) (state : List ℕ) (d : ℕ) (rest : List ℕ)
      → i % 16 ≢ 15
      → i ≢ len - 1
      → mac_loop aes sk len i state (d ∷ rest)
        ≡ mac_loop aes sk len (i + 1) (set state (i % 16) (bit_xor (byte_at state (i % 16)) d)) rest
  unfolding mac_loop mac_absorb
  round_inner len i state d rest ne ne' =
      rw (low_nibble i, ==_false (i % 16) 15 ne, ==_false i (len - 1) ne') refl

  -- The loop over the rest `d ∷ c` of a block that ends the input or the 16 bytes.
  within_block :
      (len : ℕ) (c : List ℕ) (d i : ℕ) (state rest : List ℕ)
      → i % 16 + length (d ∷ c) ≤ 16
      → len ≡ i + length (d ∷ c) + length rest
      → (i % 16 + length (d ∷ c) ≡ 16) ⊎ (rest ≡ [])
      → mac_loop aes sk len i state ((d ∷ c) ++ rest)
        ≡ mac_loop aes sk len
            (i + length (d ∷ c))
            (reversed_aes aes sk (absorb_from (i % 16) state (d ∷ c)))
            rest
  within_block len [] d i state rest fits e ends = round_last len i state d rest (last ends)
    where
      last : (i % 16 + 1 ≡ 16) ⊎ (rest ≡ []) → (i % 16 ≡ 15) ⊎ (i ≡ len - 1)
      last (inl full) = inl (omega arith)
      last (inr nothing) = inr (omega (arith, ap length nothing))
  within_block len (d' ∷ c) d i state rest fits e ends =
      round_inner len i state d (d' ∷ (c ++ rest)) (omega arith) (omega arith)
      ∙ within_block len c d' (i + 1) _ rest (omega arith) (omega arith) (later ends)
      ∙ ap₂ (λ (k : ℕ) (s : List ℕ). mac_loop aes sk len k (reversed_aes aes sk s) rest)
          (omega arith)
          (ap
            (λ (j : ℕ).
              absorb_from j (set state (i % 16) (bit_xor (byte_at state (i % 16)) d)) (d' ∷ c))
            {x = (i + 1) % 16} {y = suc (i % 16)} (omega arith))
    where
      later :
          (i % 16 + length (d ∷ d' ∷ c) ≡ 16) ⊎ (rest ≡ [])
          → ((i + 1) % 16 + length (d' ∷ c) ≡ 16) ⊎ (rest ≡ [])
      later (inl full) = inl (omega arith)
      later (inr nothing) = inr nothing

  -- CBC over the 16-byte blocks of the input, the last one padded with zeros. `fuel` bounds the
  -- number of blocks.
  abbrev pub cbc_blocks : ℕ → List ℕ → List ℕ → List ℕ
  cbc_blocks fuel state [] = state
  cbc_blocks zero state (d ∷ bytes) = state
  cbc_blocks (suc fuel) state (d ∷ bytes) =
      cbc_blocks fuel (reversed_aes aes sk (xor16 state (pad16 (take 16 (d ∷ bytes)))))
        (drop 16 (d ∷ bytes))

  length-reversed_aes : (block : List ℕ) → length (reversed_aes aes sk block) ≡ 16
  unfolding reversed_aes
  length-reversed_aes block = refl

  -- A block of the loop, cut off by `take` and `drop`.
  one_block :
      (len d i : ℕ) (bytes state : List ℕ)
      → i % 16 ≡ 0
      → len ≡ i + length (d ∷ bytes)
      → length state ≡ 16
      → mac_loop aes sk len i state (d ∷ bytes)
        ≡ mac_loop aes sk len
            (i + length (take 16 (d ∷ bytes)))
            (reversed_aes aes sk (xor16 state (pad16 (take 16 (d ∷ bytes)))))
            (drop 15 bytes)
  one_block len d i bytes state at_start e full =
      ap (λ (t : List ℕ). mac_loop aes sk len i state (d ∷ t)) (sym (take-append-drop 15 bytes))
      ∙ within_block len (take 15 bytes) d i state (drop 15 bytes) (omega (arith, sizes))
          (omega (arith, sizes)) ends
      ∙ ap
          (λ (s : List ℕ).
            mac_loop aes sk len (i + length (d ∷ take 15 bytes)) (reversed_aes aes sk s)
              (drop 15 bytes))
          (ap (λ (j : ℕ). absorb_from j state (d ∷ take 15 bytes)) at_start
            ∙ absorb_from-xor_bytes state (d ∷ take 15 bytes) (omega (arith, sizes))
            ∙ sym (xor16-pad16 state (d ∷ take 15 bytes) full))
    where
      sizes :
          (length (take 15 bytes) ≤ 15)
          × (length (take 15 bytes) + length (drop 15 bytes) ≡ length bytes)
      sizes = elim (dec_le 15 (length bytes)) [
        | yes h ↦ (
          omega (arith, length-take 15 bytes h),
          omega (arith, length-take 15 bytes h, length-drop 15 bytes),
        )
        | no h ↦ (
          rw (take_all 15 bytes (omega arith)) (omega arith),
          rw (take_all 15 bytes (omega arith), drop_all 15 bytes (omega arith)) (omega arith),
        )
      ]

      ends : (i % 16 + length (d ∷ take 15 bytes) ≡ 16) ⊎ (drop 15 bytes ≡ [])
      ends = elim (dec_le 15 (length bytes)) [
        | yes h ↦ inl (omega (arith, length-take 15 bytes h))
        | no h ↦ inr (drop_all 15 bytes (omega arith))
      ]

  nothing_left : (fuel : ℕ) (s : List ℕ) → s ≡ cbc_blocks fuel s []
  nothing_left zero s = refl
  nothing_left (suc fuel) s = refl

  length-cbc_blocks :
      (fuel : ℕ) (s bytes : List ℕ) → length s ≡ 16 → length (cbc_blocks fuel s bytes) ≡ 16
  length-cbc_blocks zero s [] h = h
  length-cbc_blocks zero s (d ∷ bytes) h = h
  length-cbc_blocks (suc fuel) s [] h = h
  length-cbc_blocks (suc fuel) s (d ∷ bytes) h =
      length-cbc_blocks fuel _ (drop 15 bytes) (length-reversed_aes _)

  mac_loop-cbc_blocks :
      (fuel len i : ℕ) (state bytes : List ℕ)
      → i % 16 ≡ 0
      → len ≡ i + length bytes
      → length state ≡ 16
      → length bytes ≤ 16 * fuel
      → mac_loop aes sk len i state bytes ≡ cbc_blocks fuel state bytes
  mac_loop-cbc_blocks zero len i state [] at_start e full enough = unfold mac_loop in refl
  mac_loop-cbc_blocks zero len i state (d ∷ bytes) at_start e full enough = absurd (omega arith)
  mac_loop-cbc_blocks (suc fuel) len i state [] at_start e full enough = unfold mac_loop in refl
  mac_loop-cbc_blocks (suc fuel) len i state (d ∷ bytes) at_start e full enough =
      one_block len d i bytes state at_start e full ∙ elim (dec_le 15 (length bytes)) [
        | yes h ↦
            mac_loop-cbc_blocks fuel len (i + length (take 16 (d ∷ bytes))) _ (drop 15 bytes)
              (omega (arith, length-take 15 bytes h))
              (omega (arith, length-take 15 bytes h, length-drop 15 bytes)) (length-reversed_aes _)
              (omega (arith, length-drop 15 bytes))
        | no h ↦ ended (drop 15 bytes) (drop_all 15 bytes (omega arith))
      ]
    where
      ended :
          (rest : List ℕ)
          → rest ≡ []
          → mac_loop aes sk len
              (i + length (take 16 (d ∷ bytes)))
              (reversed_aes aes sk (xor16 state (pad16 (take 16 (d ∷ bytes)))))
              rest
            ≡ cbc_blocks fuel (reversed_aes aes sk (xor16 state (pad16 (take 16 (d ∷ bytes))))) rest
      ended rest h = rw h (unfold mac_loop in nothing_left fuel _)

  -- The tag is the first two bytes of CBC over the header block and the zero-padded blocks of the
  -- data, for data of any length.
  pub cbc_mac-cbc_blocks :
      (nonce bytes : List ℕ)
      → cbc_mac aes sk nonce bytes
        ≡ take 2
            (cbc_blocks (length bytes) (reversed_aes aes sk (mac_b0 nonce (length bytes))) bytes)
  unfolding cbc_mac
  cbc_mac-cbc_blocks nonce bytes =
      let start : List ℕ = reversed_aes aes sk (mac_b0 nonce (length bytes)) in
      ap (λ (s : List ℕ). byte_at s 0 ∷ byte_at s 1 ∷ [])
        (mac_loop-cbc_blocks (length bytes) (length bytes) 0 start bytes refl (omega arith)
          (length-reversed_aes (mac_b0 nonce (length bytes))) (omega arith))
      ∙ sym (
          take_two (cbc_blocks (length bytes) start bytes) (
            length-cbc_blocks (length bytes) start bytes
              (length-reversed_aes (mac_b0 nonce (length bytes)))))
