-- ===== src/Command.antt =====
-- command/command.go: a plaintext command and its encoding.
pub mod Encode
pub mod Build
pub mod Schedule
pub mod Laws
pub mod Fragments
pub mod Group
use pigsydust.Prelude.{ℕ, ◌*◌, ◌^◌, bit_and, bit_or, ltb, if◌then◌else◌, List, set}
use pigsydust.Prelude.Go.{Go, ok, panic}
use pigsydust.Byteutil.{zeros, copy_slice, put_le16}
use pigsydust.Protocol.{op_type_client}

-- `payload` is the field `Data`. A negative `PlaintextLen` is not represented; `make` panics on it.
pub record Command : Type 0 where
  pub destination : ℕ
  pub opcode : ℕ
  pub vendor : ℕ
  pub payload : List ℕ
  pub plaintext_len : ℕ

-- The opcode byte on the wire.
unfoldable pub wire_opcode : ℕ → ℕ
wire_opcode opcode = bit_or (op_type_client * 2 ^ 6) (bit_and opcode 0x3F)

-- The slices `buf[0:2]`, `buf[3:5]` and `buf[5:]` panic on a buffer of fewer than 5 bytes.
unfoldable pub encode : Command → Go (List ℕ)
unfolding wire_opcode copy_slice put_le16
encode c =
    if ltb c.plaintext_len 5
    then panic
    else let buf = copy_slice 0 2 (zeros c.plaintext_len) (put_le16 c.destination) in
      let buf = set buf 2 (wire_opcode c.opcode) in
      let buf = copy_slice 3 5 buf (put_le16 c.vendor) in
      ok (copy_slice 5 c.plaintext_len buf c.payload)
