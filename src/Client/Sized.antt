-- ===== src/Client/Sized.antt =====
-- client.go, session.go: the arrays of every reachable client's session, and the packets that it sends.
use pigsydust.Prelude.{
  ℕ, ◌+◌, ◌<◌, true, Bool-cases, inl, inr, List, ◌∷◌, ◌++◌, length, drop, All, length-replicate,
  length-take, length-drop, ◌≡◌, refl, subst, arith, ◌==◌, ==_iff, ◌-◌,
}
use native.Mathlib.Decide.{dec_le}
use pigsydust.Prelude.Go.{Go, ok}
use pigsydust.Byteutil.{IsByte, IsArray, byte_at, zeros, copy, put_le16}
use pigsydust.Byteutil.Laws.{
  byte_at-IsByte, All-append-IsByte, All-take-IsByte, All-drop-IsByte, zeros-IsByte, copy-IsByte,
  length-copy, put_le16-IsByte,
}
use pigsydust.Crypto.{Aes, IsCipher, command_nonce, encrypt}
use pigsydust.Crypto.Sized.{command_nonce-IsArray, encrypt-IsArray}
use pigsydust.Crypto.Login.{parse_login_response}
use pigsydust.Crypto.Login.Laws.{parse_login_response_cases}
use pigsydust.Command.{Command, encode, wire_opcode}
use pigsydust.Command.Encode.{encode_frame, encode_short, wire_opcode_sum}
use pigsydust.Client.{
  Session, Client, Transport, new_client, next_sno, send, transmit, with_session,
}

-- The Go types of a session's fields.
pub record IsTyped (s : Session) : Type 0 where
  pub key_array : IsArray 16 s.key
  pub salt_array : IsArray 2 s.salt
  pub seq_byte : s.seq < 256
  pub gw_array : IsArray 6 s.gw_mac

pub new_client-IsTyped : (gw_mac : List ℕ) → IsArray 6 gw_mac → IsTyped (new_client gw_mac).session
unfolding new_client
new_client-IsTyped gw_mac h = record {
  key_array = (length-replicate {A = ℕ} 16 0, zeros-IsByte 16);
  salt_array = (length-replicate {A = ℕ} 2 0, zeros-IsByte 2);
  seq_byte = omega arith;
  gw_array = h;
}

pub next_sno-IsArray : (s : Session) → IsTyped s → IsArray 3 (next_sno s).0
unfolding next_sno
next_sno-IsArray s h = (
  refl,
  (
    h.seq_byte,
    (byte_at-IsByte s.salt 0 h.salt_array.1, (byte_at-IsByte s.salt 1 h.salt_array.1, tt)),
  ),
)

ok_same : {a b : List ℕ} {g : Go (List ℕ)} → g ≡ ok a → g ≡ ok b → a ≡ b
ok_same e f = ground arith

pub parse_login_response-IsArray :
    (resp rand_b : List ℕ)
    → All IsByte resp
    → parse_login_response resp ≡ ok rand_b
    → IsArray 8 rand_b
parse_login_response-IsArray resp rand_b bytes e =
    let cases = parse_login_response_cases resp in
    elim (dec_le 17 (length resp)) [
      | no short ↦ absurd (ground (arith, cases.0 (omega arith)))
      | yes long ↦ elim (Bool-cases (byte_at resp 0 == 0x0D)) [
        | inl tag ↦
            subst (IsArray 8) (ok_same (cases.2 long ((==_iff (byte_at resp 0) 0x0D).0 tag)) e) (
              length-take 8 (drop 1 resp) (omega (arith, length-drop 1 resp)),
              All-take-IsByte 8 (drop 1 resp) (All-drop-IsByte 1 resp bytes),
            )
        | inr other ↦
            absurd
              (ground (arith, cases.1 long (λ same. ground (arith, ==_iff (byte_at resp 0) 0x0D))))
      ]
    ]

-- The bytes of a command's plaintext.
pub encode-IsArray :
    (cmd : Command) (plaintext : List ℕ)
    → All IsByte cmd.payload
    → encode cmd ≡ ok plaintext
    → IsArray cmd.plaintext_len plaintext
unfolding put_le16
encode-IsArray cmd plaintext h e = elim (dec_le 5 cmd.plaintext_len) [
  | no short ↦ absurd (ground (arith, encode_short cmd (omega arith)))
  | yes long ↦ subst (IsArray cmd.plaintext_len) (ok_same (encode_frame cmd long) e) (
    omega (
      arith,
      length-copy (zeros (cmd.plaintext_len - 5)) cmd.payload,
      length-replicate {A = ℕ} (cmd.plaintext_len - 5) 0,
    ),
    All-append-IsByte (put_le16 cmd.destination)
        (wire_opcode cmd.opcode
          ∷ (put_le16 cmd.vendor ++ copy (zeros (cmd.plaintext_len - 5)) cmd.payload))
        (put_le16-IsByte cmd.destination)
        (
          omega (arith, wire_opcode_sum cmd.opcode),
          All-append-IsByte (put_le16 cmd.vendor) _ (put_le16-IsByte cmd.vendor)
              (copy-IsByte _ cmd.payload (zeros-IsByte (cmd.plaintext_len - 5)) h),
        ),
  )
]

module _ {T : Type 0} (aes : Aes) (cipher : IsCipher aes) (transport : Transport T) where
  -- A command of bytes that a typed, open session sends goes out as one packet, five bytes longer than
  -- the command's plaintext and all bytes.
  pub sent_packet-IsArray :
      (cmd : Command) (c : Client) (t : T) (plaintext : List ℕ)
      → IsTyped c.session
      → All IsByte cmd.payload
      → c.session.logged_in ≡ true
      → encode cmd ≡ ok plaintext
      → (packet : List ℕ) × (IsArray (5 + cmd.plaintext_len) packet
          × (send aes transport cmd c t ≡ (
            (transport.write_command packet t).0,
            (with_session c (next_sno c.session).1, (transport.write_command packet t).1),
          )))
  unfolding send transmit
  sent_packet-IsArray cmd c t plaintext h bytes logged encoded =
      let p = encode-IsArray cmd plaintext bytes encoded in
      let n = next_sno-IsArray c.session h in
      (
        encrypt aes c.session.key (command_nonce c.session.gw_mac (next_sno c.session).0)
            (next_sno c.session).0 plaintext,
        (
          subst
              (λ k. IsArray (5 + k) (
                encrypt aes c.session.key (command_nonce c.session.gw_mac (next_sno c.session).0)
                  (next_sno c.session).0 plaintext))
              p.0
              (encrypt-IsArray aes cipher c.session.key h.key_array.1 _ _ plaintext
                (command_nonce-IsArray c.session.gw_mac _ h.gw_array.1 n.1).1 n p.1),
          rw (logged, encoded) refl,
        ),
      )
