-- ===== src/Witnesses/Typed.antt =====
-- The types of a session's arrays at concrete inputs.
use pigsydust.Prelude.{ℕ, ◌+◌, true, List, [], ◌∷◌, ◌++◌, All, ◌≡◌, refl, ◌∙◌, arith, subst}
use pigsydust.Prelude.Go.{ok, index}
use pigsydust.Byteutil.{IsByte, IsArray, zeros, copy, copy_slice, put_le16}
use pigsydust.Byteutil.Laws.{length-xor_bytes, xor_bytes-IsByte, zeros-IsByte, All-append-IsByte}
use pigsydust.Crypto.{IsCipher}
use pigsydust.Crypto.Login.{parse_login_response, login_response_tag_byte}
use pigsydust.Command.{Command, encode, wire_opcode}
use pigsydust.Command.Build.{on_off}
use pigsydust.Client.{
  Client, login, login_failed, pair, opened, start_heartbeat, new_client, next_sno, send,
  with_session,
}
use pigsydust.Client.Steps.{here, there, logs_in}
use pigsydust.Client.Reachable.{reachable_packet-IsArray}
use pigsydust.Witnesses.Data.{toy, gateway, rand_b, node}

toy-IsCipher : IsCipher toy
toy-IsCipher key block hk hb =
    (length-xor_bytes key block ∙ hk.0, xor_bytes-IsByte key block hk.1 hb.1)

abbrev home : List ℕ
home = b'h' ∷ b'o' ∷ b'm' ∷ b'e' ∷ []

abbrev home_salt : List ℕ
home_salt = 9 ∷ 8 ∷ []

abbrev pub lamp_on : Command
lamp_on = on_off 0x0030 true

pub lamp_bytes : encode lamp_on ≡ ok (0x30 ∷ 0x00 ∷ 0xED ∷ 0x69 ∷ 0x69 ∷ 0x01 ∷ zeros 9)
unfolding encode on_off wire_opcode copy copy_slice put_le16
lamp_bytes = refl

lamp_payload : All IsByte lamp_on.payload
unfolding on_off
lamp_payload = (omega arith, tt)

abbrev logged : Client
logged = (login toy node (ok (zeros 8)) (ok home_salt) home home (new_client gateway) []).1.0

logged_in : logged.session.logged_in ≡ true
unfolding login login_failed pair opened start_heartbeat new_client parse_login_response index
logged_in = refl

home_bytes : All IsByte home
home_bytes = (omega arith, (omega arith, (omega arith, (omega arith, tt))))

answer_bytes : (t : List (List ℕ)) (b : List ℕ) → (node.read_pair t).0 ≡ ok b → All IsByte b
answer_bytes t b e = subst (All IsByte) same answer
  where
    same : login_response_tag_byte ∷ (rand_b ++ zeros 8) ≡ b
    same = ground arith

    rand_b_bytes : All IsByte rand_b
    rand_b_bytes = (
      omega arith,
      (
        omega arith,
        (
          omega arith,
          (omega arith, (omega arith, (omega arith, (omega arith, (omega arith, tt))))),
        ),
      ),
    )

    answer : All IsByte (login_response_tag_byte ∷ (rand_b ++ zeros 8))
    answer = (omega arith, All-append-IsByte rand_b (zeros 8) rand_b_bytes (zeros-IsByte 8))

gateway-IsArray : IsArray 6 gateway
gateway-IsArray = (
  refl,
  (omega arith, (omega arith, (omega arith, (omega arith, (omega arith, (omega arith, tt)))))),
)

home_salt-IsArray : IsArray 2 home_salt
home_salt-IsArray = (refl, (omega arith, (omega arith, tt)))

reachable_packet-IsArray_example :
    (packet : List ℕ) × (IsArray (5 + lamp_on.plaintext_len) packet
      × (send toy node lamp_on logged [] ≡ (
        (node.write_command packet []).0,
        (with_session logged (next_sno logged.session).1, (node.write_command packet []).1),
      )))
reachable_packet-IsArray_example =
    reachable_packet-IsArray toy toy-IsCipher node answer_bytes gateway gateway-IsArray
      (there (here (new_client gateway))
        (logs_in (ok (zeros 8)) (ok home_salt) home home (new_client gateway) []))
      (tt, (((refl, zeros-IsByte 8), home_salt-IsArray), (home_bytes, home_bytes))) lamp_on [] _
      lamp_payload logged_in lamp_bytes
