-- ===== src/Witnesses/Opened.antt =====
-- A toy connection that accepts everything, and a result of a scan.
use pigsydust.Prelude.{none, ℕ, List, [], ◌∷◌, ◌++◌}
use pigsydust.Prelude.Go.{ok}
use pigsydust.Prelude.Int.{pos}
use pigsydust.Byteutil.{zeros}
use pigsydust.Crypto.Login.{login_response_tag_byte}
use pigsydust.Notification.{parse_status_flags}
use pigsydust.Ble.Link.{CharIo, Connection}
use pigsydust.Ble.Discovery.{ScanResult}
use pigsydust.Witnesses.Data.{gateway, rand_b}

-- Every characteristic writes to the list of packets and reads the login's answer.
abbrev pub open_char : CharIo (List (List ℕ))
open_char = record {
  write_request = λ b t. (ok tt, b ∷ t);
  write_command = λ b t. (ok tt, b ∷ t);
  read = λ t. (ok (login_response_tag_byte ∷ (rand_b ++ zeros 8)), t);
  subscribe = λ t. (ok tt, t);
}

abbrev pub linked : Connection (List (List ℕ))
linked = record {
  char_notify = open_char;
  char_cmd = open_char;
  char_pair = open_char;
  gw_mac = gateway;
  closer = none;
}

abbrev pub result : ScanResult
result = record {
  advertisement = record {
    mesh_name = [];
    mac = gateway;
    device_type = 0x47;
    device_subtype = 0x13;
    status_byte = 1;
    status_flags = parse_status_flags 1;
    mesh_address = 9;
    network_id = 1;
    raw = [];
  };
  path = [];
  mac = [];
  rssi = pos 0;
}
