-- ===== src/Witnesses/Onbus.antt =====
-- Commands, and a whole run, on a toy bus.
use pigsydust.Prelude.{ℕ, Bool, false, List, [], ◌∷◌, ◌++◌, ◌≡◌, refl, arith}
use pigsydust.Prelude.Go.{ok}
use pigsydust.Byteutil.{zeros}
use pigsydust.Crypto.Login.{login_response_tag_byte}
use pigsydust.Client.Stream.{quiet, genuine}
use pigsydust.Ble.Link.{ble_transport}
use pigsydust.Ble.Adapter.{Adapter, scan, stop_scan, connect}
use pigsydust.Ble.Bluez.{Bus}
use pigsydust.Ble.Bluez.Connect.{BluezConnection}
use pigsydust.Ble.Bluez.Char.{Sockets, link, open_hci_raw, on_socket, filtered, bound}
use pigsydust.Programs.Start.{connect_stopped}
use pigsydust.Programs.Answered.{settings_of}
use pigsydust.Programs.Runs.{smoke_linux}
use pigsydust.Programs.Arrives.{IsLogged}
use pigsydust.Programs.Bluez.{Write, send_each_over_bluez}
use pigsydust.Programs.OverBluez.{hung_up, smoke_linux_over_bluez}
use pigsydust.Programs.Arrives.{node_reads}
use pigsydust.Command.{encode}
use pigsydust.Command.Build.{set_utc}
use pigsydust.Crypto.Login.{derive_session_key}
use pigsydust.Witnesses.Data.{toy, gateway, rand_b, open_client}
use pigsydust.Witnesses.Values.{Value, dyn}
use pigsydust.Witnesses.Opened.{result}
use pigsydust.Witnesses.Typed.{lamp_on, lamp_bytes}
use pigsydust.Witnesses.Runs.{mesh, mesh_word, login_salt, lamp_report, packet, given, picked}

-- A bus that logs the writes, and answers as a node.
abbrev logging : Bus Value (List Write)
logging = record {
  call = λ method path s. (ok tt, s);
  get_prop = λ path iface key s. (ok (Value.word 9), s);
  set_powered = λ path s. (ok tt, s);
  managed_call = λ s. (ok [], s);
  add_match = λ rule s. (ok tt, s);
  remove_match = λ rule s. s;
  set_discovery_filter = λ path uuids s. (ok tt, s);
  write_value = λ path kind bytes s. (ok tt, s ++ ((path, (kind, bytes)) ∷ []));
  read_value = λ path s. (ok (login_response_tag_byte ∷ (rand_b ++ zeros 8)), s);
}

abbrev open_sockets : Sockets (List Write)
open_sockets = record {
  socket = λ s. (ok 3, s);
  set_filter = λ fd filter s. (ok tt, s);
  bind = λ fd s. (ok tt, s);
  close = λ fd s. s;
  spawn = λ fd handle s. s;
}

abbrev over : BluezConnection
over = record {
  chars = record { notify = b'n' ∷ []; cmd = b'c' ∷ []; pair = b'p' ∷ [] };
  gw_mac = gateway;
  device = b'd' ∷ [];
  closed = false;
}

send_each_over_bluez_example :
    IsLogged toy
      (ble_transport (link dyn logging open_sockets over))
      (λ t. t.1)
      (λ p. (over.chars.cmd, ("command", p)))
      (lamp_on ∷ lamp_on ∷ [])
      open_client
      (false, [])
send_each_over_bluez_example =
    send_each_over_bluez toy dyn logging open_sockets over (λ s. s) (λ path kind bytes s. refl)
      (λ path kind bytes s. refl) (lamp_on ∷ lamp_on ∷ []) open_client false [] refl
      ((_, lamp_bytes), ((_, lamp_bytes), tt))

abbrev State : Type 0
State = Bool × List Write

abbrev bus_host : Adapter State
bus_host = record {
  impl = record {
    scan = λ filter t. (ok (result ∷ []), t);
    stop_scan = λ t. (ok tt, t);
    connect = λ r t. (ok (link dyn logging open_sockets over), t);
  };
}

abbrev untouched : State
untouched = (false, [])

raw_opens : (s : List Write) → (open_hci_raw open_sockets s).0 ≡ ok 3
unfolding open_hci_raw on_socket filtered bound
raw_opens s = refl

scanned :
    scan bus_host (record { mesh_name = mesh; network_id = 0; gateway_only = false }) untouched
    ≡ (ok (result ∷ []), untouched)
unfolding scan
scanned = refl

reached :
    connect_stopped bus_host result untouched ≡ (ok (link dyn logging open_sockets over), untouched)
unfolding connect_stopped stop_scan connect
reached = refl

smoke_linux_over_bluez_example :
    (written : List ℕ) × (s : List Write) × (node_reads toy
        (derive_session_key toy mesh mesh_word (zeros 8) rand_b)
        over.gw_mac
        written
      ≡ encode (set_utc 1700000000))
    × (smoke_linux toy
          (λ t. (ok bus_host, t))
          (settings_of mesh mesh_word (zeros 8) login_salt 1700000000)
          (packet ∷ packet ∷ [])
          untouched
        ≡ (ok 2, hung_up logging over written s))
smoke_linux_over_bluez_example =
    smoke_linux_over_bluez toy dyn logging open_sockets over rand_b (zeros 8) (Value.word 9) 9 3
      mesh mesh_word (zeros 8) login_salt 1700000000 (λ t. (ok bus_host, t)) bus_host (result ∷ [])
      result untouched untouched untouched [] refl (omega arith) (λ path kind bytes s. refl)
      (λ s. refl) refl (λ s. refl) raw_opens given refl scanned picked reached
      (genuine lamp_report (genuine lamp_report quiet))
