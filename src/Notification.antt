-- ===== src/Notification.antt =====
-- notification.go: the wire format of a notification, its decryption, and the payload parsers.
pub mod Payload
pub mod Decrypt
pub mod Fields
pub mod Groups
use pigsydust.Prelude.{ℕ, ◌/◌, ◌%◌, bit_and, Bool, true, false, not, ltb, ◌==◌, ◌||◌, if◌then◌else◌}
use pigsydust.Prelude.{List, [], ◌∷◌, ◌++◌, length, take, drop}
use pigsydust.Prelude.Go.{Go, ok, err, ◌>>=◌, index, wrapped, err_short_packet, notification_length}
use pigsydust.Byteutil.{le16}
use pigsydust.Crypto.{Aes, notification_nonce, decrypt}

pub record Notification : Type 0 where
  pub source : ℕ
  pub opcode : ℕ
  pub vendor : ℕ
  pub payload : List ℕ

-- The four results of `ParseNotificationWire`.
pub record Wire : Type 0 where
  pub sno : List ℕ
  pub src_addr : ℕ
  pub tag : List ℕ
  pub ciphertext : List ℕ

unfoldable pub parse_notification_wire : List ℕ → Go Wire
parse_notification_wire raw =
    if not (length raw == 20)
    then err (notification_length (length raw))
    else ok (record {
      sno = take 3 raw;
      src_addr = le16 (take 2 (drop 3 raw));
      tag = take 2 (drop 5 raw);
      ciphertext = take 13 (drop 7 raw);
    })

-- The plaintext of a notification, read as opcode, vendor and payload.
unfoldable pub read_plaintext : ℕ → List ℕ → Go Notification
read_plaintext source pt =
    if ltb (length pt) 3 then err (wrapped err_short_packet (length pt)) else do
      op ← index pt 0
      ok (record {
        source = source;
        opcode = op;
        vendor = le16 (take 2 (drop 1 pt));
        payload = drop 3 pt;
      })

unfoldable pub decrypt_notification : Aes → List ℕ → List ℕ → List ℕ → Go Notification
decrypt_notification aes sk gw_mac raw = do
  w ← parse_notification_wire raw
  pt ← decrypt aes sk (notification_nonce gw_mac w.sno w.src_addr) w.tag w.ciphertext
  read_plaintext w.src_addr pt

pub record StatusFlags : Type 0 where
  pub online : Bool
  pub alarm_dev : Bool
  pub version : ℕ

unfoldable pub parse_status_flags : ℕ → StatusFlags
parse_status_flags b = record {
  online = not (bit_and b 0x01 == 0);
  alarm_dev = not (bit_and b 0x02 == 0);
  version = b / 4;
}
