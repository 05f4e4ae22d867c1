-- ===== src/Command/Encode.antt =====
-- The bytes that `Command.Encode` makes, field by field.
use pigsydust.Prelude.{ℕ, suc, ◌+◌, ◌-◌, ◌%◌, ◌^◌, ◌<◌, ◌≤◌, ◌≡◌, refl, ap, ◌∙◌}
use pigsydust.Prelude.{arith, List, ◌∷◌, ◌++◌, length, drop, append-nil, take_all, drop_all}
use pigsydust.Prelude.{length-replicate, All, bit_or, lt→ltb}
use pigsydust.Prelude.{ltb, false}
use pigsydust.Prelude.Go.{ok, panic}
use pigsydust.Bits.{and_mask, or_shifted}
use pigsydust.Byteutil.{IsByte, byte_at, zeros, copy, put_le16, le16}
use pigsydust.Byteutil.Laws.{length-copy, copy-zeros_pad}
use pigsydust.Command.{Command, wire_opcode, encode}

-- The operation type 3 stands above the low six bits of the opcode.
pub wire_opcode_sum : (op : ℕ) → wire_opcode op ≡ 192 + op % 64
unfolding wire_opcode
wire_opcode_sum op = ap (bit_or 192) (and_mask 6 op) ∙ or_shifted 6 3 (op % 64) (omega arith)

encode_long :
    (dst op vendor m : ℕ) (payload : List ℕ)
    → encode (record {
      destination = dst;
      opcode = op;
      vendor = vendor;
      payload = payload;
      plaintext_len = suc (suc (suc (suc (suc m))));
    })
      ≡ ok (put_le16 dst ++ (wire_opcode op ∷ (put_le16 vendor ++ copy (zeros m) payload)))
unfolding encode
encode_long dst op vendor m payload =
    rw
      (
        not_short,
        five_less,
        take_all m (zeros m) (omega (arith, all)),
        drop_all m (zeros m) (omega (arith, all)),
      )
      (ap (λ (t : List ℕ). ok (put_le16 dst ++ (wire_opcode op ∷ (put_le16 vendor ++ t))))
        (append-nil (copy (zeros m) payload)))
  where
    all : length (zeros m) ≡ m
    all = length-replicate m 0

    not_short : ltb (suc (suc (suc (suc (suc m))))) 5 ≡ false
    not_short = ground arith

    five_less : suc (suc (suc (suc (suc m)))) - 5 ≡ m
    five_less = omega arith

-- What the builders must deliver for the encoding to carry the whole command.
pub record IsWellFormed (c : Command) : Type 0 where
  pub destination_range : c.destination < 2 ^ 16
  pub vendor_range : c.vendor < 2 ^ 16
  pub client_opcode : 192 ≤ c.opcode
  pub opcode_range : c.opcode < 256
  pub payload_fits : length c.payload + 5 ≤ c.plaintext_len
  pub payload_bytes : All IsByte c.payload

-- On a buffer of 5 bytes or more, `encode` writes the header and then the payload, padded or cut.
pub encode_frame :
    (c : Command)
    → 5 ≤ c.plaintext_len
    → encode c
      ≡ ok (
          put_le16 c.destination
          ++ (wire_opcode c.opcode
              ∷ (put_le16 c.vendor ++ copy (zeros (c.plaintext_len - 5)) c.payload)))
encode_frame c h = from_shape c.plaintext_len h
  where
    from_shape :
        (n : ℕ)
        → 5 ≤ n
        → encode (record c { plaintext_len = n })
          ≡ ok (
              put_le16 c.destination
              ++ (wire_opcode c.opcode ∷ (put_le16 c.vendor ++ copy (zeros (n - 5)) c.payload)))
    from_shape n le =
        let shape : n ≡ suc (suc (suc (suc (suc (n - 5))))) = omega arith in
        ap (λ (k : ℕ). encode (record c { plaintext_len = k })) shape
        ∙ encode_long c.destination c.opcode c.vendor (n - 5) c.payload

pub encode_short : (c : Command) → c.plaintext_len < 5 → encode c ≡ panic
unfolding encode
encode_short c h = rw (lt→ltb c.plaintext_len 5 h) refl

-- A reader of the frame finds every field: the length, the destination, the opcode as the builder
-- wrote it, the vendor, and the whole payload with zeros behind it.
pub record Carries (c : Command) (bytes : List ℕ) : Type 0 where
  pub encoded : encode c ≡ ok bytes
  pub size : length bytes ≡ c.plaintext_len
  pub destination_read : le16 bytes ≡ c.destination
  pub opcode_read : byte_at bytes 2 ≡ c.opcode
  pub vendor_read : le16 (drop 3 bytes) ≡ c.vendor
  pub payload_read : drop 5 bytes ≡ c.payload ++ zeros (c.plaintext_len - 5 - length c.payload)

pub encode-Carries : (c : Command) → IsWellFormed c → (bytes : List ℕ) × Carries c bytes
unfolding put_le16 le16
encode-Carries c w = (
  put_le16 c.destination
      ++ (wire_opcode c.opcode
          ∷ (put_le16 c.vendor ++ copy (zeros (c.plaintext_len - 5)) c.payload)),
  record {
    encoded = encode_frame c (omega arith);
    size = omega (
      arith,
      length-copy (zeros (c.plaintext_len - 5)) c.payload,
      length-replicate {A = ℕ} (c.plaintext_len - 5) 0,
    );
    destination_read = omega arith;
    opcode_read = omega (arith, wire_opcode_sum c.opcode);
    vendor_read = omega arith;
    payload_read =
        ap (λ (m : ℕ). copy (zeros m) c.payload) {x = c.plaintext_len - 5}
          {y = length c.payload + (c.plaintext_len - 5 - length c.payload)} (omega arith)
        ∙ copy-zeros_pad c.payload (c.plaintext_len - 5 - length c.payload);
  },
)
