-- ===== src/Notification/Decrypt.antt =====
-- Decryption of notifications: what a node seals is read back, and every other outcome.
use pigsydust.Prelude.{ℕ, ◌^◌, ◌<◌, ◌≡◌, ◌≢◌, ◌⊎◌, inl, inr, refl, ap, ◌∙◌, arith}
use pigsydust.Prelude.{List, [], ◌∷◌, ◌++◌, length, take, drop, eq-tabulate, ◌==◌, ==_true}
use pigsydust.Prelude.{Bool-cases, bytes_eq}
use pigsydust.Prelude.{take_all, length-take, length-drop, ==_iff}
use pigsydust.Prelude.Go.{index, Go, ok, err, ◌>>=◌, notification_length, cbc_mac_mismatch}
use pigsydust.Byteutil.{put_le16, le16}
use pigsydust.Byteutil.Laws.{le16-put_le16}
use pigsydust.Crypto.{Aes, notification_nonce, cbc_mac, ctr_crypt, decrypt}
use pigsydust.Crypto.Ctr.{length-ctr_crypt}
use pigsydust.Crypto.RoundTrip.{decrypt-eq-ok_iff}
use pigsydust.Notification.{
  Notification, Wire, parse_notification_wire, read_plaintext, decrypt_notification,
}

-- What a node puts on the wire: sno(3) || src_addr(2 LE) || tag(2) || ciphertext.
abbrev pub sealed : Aes → List ℕ → List ℕ → List ℕ → ℕ → List ℕ → List ℕ
sealed aes sk gw_mac sno src_addr plaintext =
    let nonce = notification_nonce gw_mac sno src_addr in
    sno
    ++ (put_le16 src_addr ++ (cbc_mac aes sk nonce plaintext ++ ctr_crypt aes sk nonce plaintext))

-- The parts of a packet as `parse_notification_wire` returns them.
abbrev cut_wire : List ℕ → List ℕ → List ℕ → ℕ → Go Wire
cut_wire s t ct a = ok (record { sno = s; src_addr = a; tag = t; ciphertext = ct })

cut_shape :
    (s0 s1 s2 t0 t1 : ℕ) (ct : List ℕ) (src_addr : ℕ)
    → length ct ≡ 13
    → src_addr < 2 ^ 16
    → parse_notification_wire ((s0 ∷ s1 ∷ s2 ∷ []) ++ (put_le16 src_addr ++ ((t0 ∷ t1 ∷ []) ++ ct)))
      ≡ ok (record {
        sno = s0 ∷ s1 ∷ s2 ∷ [];
        src_addr = src_addr;
        tag = t0 ∷ t1 ∷ [];
        ciphertext = ct;
      })
unfolding parse_notification_wire put_le16
cut_shape s0 s1 s2 t0 t1 ct src_addr h fits =
    rw (h, take_all 13 ct (omega arith))
      (ap (cut_wire (s0 ∷ s1 ∷ s2 ∷ []) (t0 ∷ t1 ∷ []) ct)
        (unfold put_le16 in le16-put_le16 src_addr fits))

-- A 20-byte packet is cut at bytes 3, 5 and 7.
wire_cut :
    (sno tag ct : List ℕ) (src_addr : ℕ)
    → length sno ≡ 3
    → length tag ≡ 2
    → length ct ≡ 13
    → src_addr < 2 ^ 16
    → parse_notification_wire (sno ++ (put_le16 src_addr ++ (tag ++ ct)))
      ≡ ok (record { sno = sno; src_addr = src_addr; tag = tag; ciphertext = ct })
wire_cut sno tag ct src_addr h2 h1 h3 fits =
    rw (eq-tabulate 0 3 sno h2, eq-tabulate 0 2 tag h1) (cut_shape _ _ _ _ _ ct src_addr h3 fits)

read_plaintext_ok :
    (source op v0 v1 : ℕ) (payload : List ℕ)
    → read_plaintext source (op ∷ v0 ∷ v1 ∷ payload)
      ≡ ok
          (record { source = source; opcode = op; vendor = le16 (v0 ∷ v1 ∷ []); payload = payload })
read_plaintext_ok source op v0 v1 payload = unfold read_plaintext index in ground arith

-- A packet that a node with a 16-bit address sealed under the session key, for the connected gateway,
-- from a serial number of three bytes and a payload of ten, is read back as the source, opcode, vendor
-- and payload that the node put into it.
pub decrypt_notification-sealed :
    (aes : Aes) (sk gw_mac sno payload : List ℕ) (src_addr op v0 v1 : ℕ)
    → length sno ≡ 3
    → length payload ≡ 10
    → src_addr < 2 ^ 16
    → decrypt_notification aes sk gw_mac
        (sealed aes sk gw_mac sno src_addr (op ∷ v0 ∷ v1 ∷ payload))
      ≡ ok (record {
        source = src_addr;
        opcode = op;
        vendor = le16 (v0 ∷ v1 ∷ []);
        payload = payload;
      })
unfolding decrypt_notification
decrypt_notification-sealed aes sk gw_mac sno payload src_addr op v0 v1 h2 h10 fits =
    rw
      (
        wire_cut sno tag ct src_addr h2 (unfold cbc_mac in refl)
            (length-ctr_crypt aes sk nonce pt ∙ omega arith) fits,
        (decrypt-eq-ok_iff aes sk nonce tag ct pt).1 (refl, refl),
      )
      (read_plaintext_ok src_addr op v0 v1 payload)
  where
    pt : List ℕ
    pt = op ∷ v0 ∷ v1 ∷ payload

    nonce : List ℕ
    nonce = notification_nonce gw_mac sno src_addr

    tag : List ℕ
    tag = cbc_mac aes sk nonce pt

    ct : List ℕ
    ct = ctr_crypt aes sk nonce pt

read_plaintext-length :
    (source : ℕ) (pt : List ℕ)
    → length pt ≡ 13
    → (n : Notification) × (read_plaintext source pt ≡ ok n) × (length n.payload ≡ 10)
read_plaintext-length source [] h = absurd (omega arith)
read_plaintext-length source (op ∷ []) h = absurd (omega arith)
read_plaintext-length source (op ∷ v0 ∷ []) h = absurd (omega arith)
read_plaintext-length source (op ∷ v0 ∷ v1 ∷ payload) h =
    (_, read_plaintext_ok source op v0 v1 payload, omega arith)

-- Decrypting a ciphertext of 13 bytes gives the tag error or a notification with ten payload bytes.
thirteen_bytes :
    (aes : Aes) (sk nonce tag ct : List ℕ) (source : ℕ)
    → length ct ≡ 13
    → let r = decrypt aes sk nonce tag ct >>= read_plaintext source in
      (r ≡ err cbc_mac_mismatch) ⊎ ((n : Notification) × (r ≡ ok n) × (length n.payload ≡ 10))
unfolding decrypt
thirteen_bytes aes sk nonce tag ct source h =
    elim (Bool-cases (bytes_eq (cbc_mac aes sk nonce (ctr_crypt aes sk nonce ct)) tag)) [
      | inl same ↦ inr (
          rw same (
            read_plaintext-length source (ctr_crypt aes sk nonce ct)
              (length-ctr_crypt aes sk nonce ct ∙ h)))
      | inr other ↦ inl (rw other refl)
    ]

pub decrypt_notification_cases :
    (aes : Aes) (sk gw_mac raw : List ℕ)
    → ((length raw ≢ 20)
        × (decrypt_notification aes sk gw_mac raw ≡ err (notification_length (length raw))))
      ⊎ ((length raw ≡ 20) × (decrypt_notification aes sk gw_mac raw ≡ err cbc_mac_mismatch))
      ⊎ ((length raw ≡ 20)
          × ((n : Notification) × (decrypt_notification aes sk gw_mac raw ≡ ok n)
              × (length n.payload ≡ 10)))
unfolding decrypt_notification
decrypt_notification_cases aes sk gw_mac raw = elim (Bool-cases (length raw == 20)) [
  | inl long ↦
      let h : length raw ≡ 20 = (==_iff _ _).0 long in
      let tail13 : length (take 13 (drop 7 raw)) ≡ 13 =
        length-take 13 (drop 7 raw) (omega (arith, length-drop 7 raw)) in
      inr (
        unfold parse_notification_wire in
        rw long (with_length h (thirteen_bytes aes sk _ _ _ _ tail13)))
  | inr short ↦
      inl ((λ e. cc (==_true (length raw) 20 e)), unfold parse_notification_wire in rw short refl)
]
  where
    with_length :
        {A B : Type 0} → length raw ≡ 20 → A ⊎ B → ((length raw ≡ 20) × A) ⊎ ((length raw ≡ 20) × B)
    with_length h (inl a) = inl (h, a)
    with_length h (inr b) = inr (h, b)
