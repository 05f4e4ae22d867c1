-- ===== src/Crypto/RoundTrip.antt =====
-- The packet format of crypto.go: what `encrypt` makes is exactly what `decrypt` accepts.
use pigsydust.Prelude.{ℕ, ◌+◌, ◌≡◌, refl, ap, ◌∙◌, sym, ◌≢◌, ◌↔◌, arith, List, [], ◌∷◌}
use pigsydust.Prelude.{length, take, drop, bytes_eq_iff, bytes_eq, Bool-cases, inl, inr}
use pigsydust.Prelude.{true}
use pigsydust.Prelude.Go.{Go, ok, err, cbc_mac_mismatch}
use pigsydust.Crypto.{Aes, cbc_mac, ctr_crypt, encrypt, decrypt}
use pigsydust.Crypto.Ctr.{ctr_crypt-ctr_crypt, length-ctr_crypt}

module _ (aes : Aes) where
  -- `decrypt` returns a plaintext exactly for the ciphertext and the tag that encrypting that
  -- plaintext under the same key and nonce gives.
  pub decrypt-eq-ok_iff :
      (sk nonce tag ciphertext plaintext : List ℕ)
      → (decrypt aes sk nonce tag ciphertext ≡ ok plaintext)
        ↔ ((ciphertext ≡ ctr_crypt aes sk nonce plaintext) × (tag ≡ cbc_mac aes sk nonce plaintext))
  unfolding decrypt
  decrypt-eq-ok_iff sk nonce tag ciphertext plaintext = (
    λ e.
        elim (Bool-cases
          (bytes_eq (cbc_mac aes sk nonce (ctr_crypt aes sk nonce ciphertext)) tag)) [
            | inl same ↦ accepted same (rw same at e)
            | inr other ↦ absurd (refused (rw other at e))
          ],
    λ (c, t). sealed c t,
  )
    where
      accepted :
          bytes_eq (cbc_mac aes sk nonce (ctr_crypt aes sk nonce ciphertext)) tag ≡ true
          → ◌≡◌ {A = Go (List ℕ)} (ok (ctr_crypt aes sk nonce ciphertext)) (ok plaintext)
          → (ciphertext ≡ ctr_crypt aes sk nonce plaintext) × (tag ≡ cbc_mac aes sk nonce plaintext)
      accepted same e =
          let p : ctr_crypt aes sk nonce ciphertext ≡ plaintext = cc in
          (
            sym (ctr_crypt-ctr_crypt aes sk nonce ciphertext) ∙ ap (ctr_crypt aes sk nonce) p,
            sym ((bytes_eq_iff _ _).0 same) ∙ ap (cbc_mac aes sk nonce) p,
          )

      refused : ◌≢◌ {A = Go (List ℕ)} (err cbc_mac_mismatch) (ok plaintext)
      refused e = cc

      sealed :
          ciphertext ≡ ctr_crypt aes sk nonce plaintext
          → tag ≡ cbc_mac aes sk nonce plaintext
          → decrypt aes sk nonce tag ciphertext ≡ ok plaintext
      sealed c t = rw (
        c,
        ctr_crypt-ctr_crypt aes sk nonce plaintext,
        t,
        (bytes_eq_iff (cbc_mac aes sk nonce plaintext) _).1 refl,
      )

  -- Any other tag is refused.
  pub decrypt_forged :
      (sk nonce tag plaintext : List ℕ)
      → tag ≢ cbc_mac aes sk nonce plaintext
      → decrypt aes sk nonce tag (ctr_crypt aes sk nonce plaintext) ≡ err cbc_mac_mismatch
  unfolding decrypt
  decrypt_forged sk nonce tag plaintext h =
      elim (Bool-cases (bytes_eq (cbc_mac aes sk nonce plaintext) tag)) [
        | inl same ↦ absurd (h (sym ((bytes_eq_iff _ _).0 same)))
        | inr other ↦ rw (ctr_crypt-ctr_crypt aes sk nonce plaintext, other)
      ]

  -- The three parts of a packet: the serial number, the tag and a ciphertext as long as the
  -- plaintext.
  pub encrypt_parts :
      (sk nonce sno plaintext : List ℕ)
      → length sno ≡ 3
      → (take 3 (encrypt aes sk nonce sno plaintext) ≡ sno)
        × (take 2 (drop 3 (encrypt aes sk nonce sno plaintext)) ≡ cbc_mac aes sk nonce plaintext)
        × (drop 5 (encrypt aes sk nonce sno plaintext) ≡ ctr_crypt aes sk nonce plaintext)
        × (length (encrypt aes sk nonce sno plaintext) ≡ 5 + length plaintext)
  unfolding encrypt
  encrypt_parts sk nonce [] plaintext h = absurd (omega arith)
  encrypt_parts sk nonce (a ∷ []) plaintext h = absurd (omega arith)
  encrypt_parts sk nonce (a ∷ b ∷ []) plaintext h = absurd (omega arith)
  encrypt_parts sk nonce (a ∷ b ∷ c ∷ []) plaintext h = (
    refl,
    unfold cbc_mac in refl,
    unfold cbc_mac in refl,
    unfold cbc_mac in omega (arith, length-ctr_crypt aes sk nonce plaintext),
  )
  encrypt_parts sk nonce (a ∷ b ∷ c ∷ d ∷ sno) plaintext h = absurd (omega arith)

  -- A packet that `encrypt` wrote, cut at bytes 3 and 5 and decrypted under the same key and nonce,
  -- gives the plaintext back.
  pub decrypt-encrypt :
      (sk nonce sno plaintext : List ℕ)
      → length sno ≡ 3
      → let packet = encrypt aes sk nonce sno plaintext in
        decrypt aes sk nonce (take 2 (drop 3 packet)) (drop 5 packet) ≡ ok plaintext
  decrypt-encrypt sk nonce sno plaintext h =
      let parts = encrypt_parts sk nonce sno plaintext h in
      (decrypt-eq-ok_iff sk nonce _ _ plaintext).1 (parts.2, parts.1)
