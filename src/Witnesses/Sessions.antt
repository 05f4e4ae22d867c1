-- ===== src/Witnesses/Sessions.antt =====
-- Clients that talk to the toy node.
use pigsydust.Prelude.{
  ℕ, ◌+◌, ◌%◌, ◌≡◌, ◌↔◌, refl, arith, List, [], ◌∷◌, take, drop, map, true, false, none,
}
use pigsydust.Prelude.Go.{Error, ok, err, foreign, notification_length}
use pigsydust.Byteutil.{zeros, copy, copy_slice, put_le16}
use pigsydust.Crypto.{decrypt, command_nonce}
use pigsydust.Command.{Command, encode, wire_opcode}
use pigsydust.Command.Build.{on_off}
use pigsydust.Notification.{decrypt_notification, parse_notification_wire}
use pigsydust.Client.{
  Client, with_session, next_sno, new_client, close, login, send, pump, notifications,
}
use pigsydust.Client.Login.{send-decrypt}
use pigsydust.Client.Serial.{serial, serial-eq_iff}
use pigsydust.Client.Stream.{Report, packet_of, delivered, quiet, genuine, alien, pump-Traffic}
use pigsydust.Client.Steps.{here, there, logs_in, sends}
use pigsydust.Client.Race.{send_begin, send_finish, send_overtaken}
use pigsydust.Client.Steps.{new_session}
use pigsydust.Client.Run.{IsSound, reachable-IsSound, heartbeat_stays_stopped}
use pigsydust.Ble.Link.{CharIo, Connection, ble_transport}
use pigsydust.Ble.Link.Laws.{Subscribes, notifications-eq-ok_iff}
use pigsydust.Witnesses.Data.{toy, key_bytes, gateway, node, session_of, open_client}

abbrev login_salt : List ℕ
login_salt = 9 ∷ 8 ∷ []

abbrev name : List ℕ
name = b'h' ∷ b'o' ∷ b'm' ∷ b'e' ∷ []

abbrev password : List ℕ
password = b'1' ∷ b'2' ∷ b'3' ∷ []

abbrev lamp_on : Command
lamp_on = on_off 0x0030 true

-- What `lamp_on` encodes to.
abbrev lamp_bytes : List ℕ
lamp_bytes = 0x30 ∷ 0x00 ∷ 0xED ∷ 0x69 ∷ 0x69 ∷ 0x01 ∷ zeros 9

lamp_encoded : encode lamp_on ≡ ok lamp_bytes
unfolding encode on_off wire_opcode copy copy_slice put_le16
lamp_encoded = refl

send-decrypt_example :
    (packet : List ℕ) × (send toy node lamp_on open_client [] ≡ (
      (node.write_command packet []).0,
      (with_session open_client (next_sno open_client.session).1, (node.write_command packet []).1),
    ))
    × (take 3 packet ≡ (next_sno open_client.session).0)
    × (decrypt toy open_client.session.key
          (command_nonce open_client.session.gw_mac (take 3 packet))
          (take 2 (drop 3 packet))
          (drop 5 packet)
        ≡ ok lamp_bytes)
send-decrypt_example = send-decrypt toy node lamp_on open_client [] lamp_bytes refl lamp_encoded

serial-eq_iff_example :
    (serial 1 (session_of 255) ≡ serial 257 (session_of 255)) ↔ (1 % 256 ≡ 257 % 256)
serial-eq_iff_example = serial-eq_iff 1 257 (session_of 255) (omega arith)

abbrev report : Report
report = record {
  sno = 1 ∷ 2 ∷ 3 ∷ [];
  origin = 0x30;
  opcode = 0xDB;
  vendor_low = 0x11;
  vendor_high = 0x02;
  payload = zeros 10;
  sno_length = refl;
  payload_length = refl;
  origin_range = omega arith;
}

unread : decrypt_notification toy key_bytes gateway (1 ∷ []) ≡ err (notification_length 1)
unfolding decrypt_notification parse_notification_wire
unread = refl

pump-Traffic_example :
    pump toy key_bytes gateway ((1 ∷ []) ∷ packet_of toy key_bytes gateway report ∷ [])
    ≡ map delivered (report ∷ [])
pump-Traffic_example =
    pump-Traffic toy key_bytes gateway
      (alien (1 ∷ []) (notification_length 1) unread (genuine report quiet))

-- The client after a login that the node accepted.
abbrev logged : Client
logged = (login toy node (ok (zeros 8)) (ok login_salt) name password (new_client gateway) []).1.0

reachable-IsSound_example :
    IsSound (send toy node lamp_on logged []).1.0
    × ((send toy node lamp_on logged []).1.0.session.gw_mac ≡ gateway)
reachable-IsSound_example =
    reachable-IsSound toy node gateway
      (there
        (there (here (new_client gateway))
          (logs_in (ok (zeros 8)) (ok login_salt) name password (new_client gateway) []))
        (sends lamp_on logged []))
      refl

heartbeat_stays_stopped_example :
    (login toy node
      (ok (zeros 8))
      (ok login_salt)
      name
      password
      (close open_client)
      []).1.0.hb_running
    ≡ false
heartbeat_stays_stopped_example = heartbeat_stays_stopped toy node open_client refl (
    there (here (close open_client))
      (logs_in (ok (zeros 8)) (ok login_salt) name password (close open_client) []))

-- A connection whose host subscribes but cannot write to the node; the state counts the calls.
abbrev mute : CharIo ℕ
mute = record {
  write_request = λ b t. (err (foreign 7), t + 1);
  write_command = λ b t. (err (foreign 7), t + 1);
  read = λ t. (err (foreign 7), t + 1);
  subscribe = λ t. (ok tt, t + 1);
}

abbrev mute_connection : Connection ℕ
mute_connection = record {
  char_notify = mute;
  char_cmd = mute;
  char_pair = mute;
  gw_mac = gateway;
  closer = none;
}

-- The host subscribes and the write fails: the client is as before, and the answer is no stream.
notifications-eq-ok_iff_example :
    ((stream : List ℕ × List ℕ)
      → (notifications (ble_transport mute_connection) open_client 0
          ≡ (ok stream, (open_client, 2)))
        ↔ Subscribes mute_connection open_client 0 stream open_client 2)
    × ((e : Error)
        → notifications (ble_transport mute_connection) open_client 0 ≡ (err e, (open_client, 2))
        → open_client ≡ open_client)
notifications-eq-ok_iff_example =
    notifications-eq-ok_iff mute_connection open_client 0 open_client 2

abbrev overtaking : Client
overtaking = with_session open_client (new_session open_client (zeros 16) login_salt)

send_overtaken_example :
    (packet : List ℕ) × ((send_finish toy node lamp_on (send_begin open_client) overtaking []).0
      ≡ (node.write_command packet []).0)
    × (take 3 packet ≡ 0 ∷ 9 ∷ 8 ∷ [])
    × (decrypt toy open_client.session.key
          (command_nonce open_client.session.gw_mac (take 3 packet))
          (take 2 (drop 3 packet))
          (drop 5 packet)
        ≡ ok lamp_bytes)
    × ((send_finish toy node lamp_on (send_begin open_client) overtaking []).1.0.session.key
        ≡ zeros 16)
    × ((send_finish toy node lamp_on (send_begin open_client) overtaking []).1.0.session.seq ≡ 1)
send_overtaken_example =
    send_overtaken toy node lamp_on open_client [] (zeros 16) login_salt lamp_bytes refl
      lamp_encoded
