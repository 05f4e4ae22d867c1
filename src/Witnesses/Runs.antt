-- ===== src/Witnesses/Runs.antt =====
-- Whole runs of the programs with a toy node.
use pigsydust.Prelude.{
  ℕ, false, List, [], ◌∷◌, map, none, some, ◌≡◌, refl, arith, bytes_eq, bytes_eq_iff,
}
use pigsydust.Prelude.Go.{Go, ok, err, context, foreign, index}
use pigsydust.Prelude.Maps.{ℕ_key}
use pigsydust.Byteutil.{zeros}
use pigsydust.Crypto.Login.{derive_session_key, build_login_request, parse_login_response}
use pigsydust.Client.Stream.{Report, packet_of, delivered, quiet, genuine}
use pigsydust.Client.{
  Client, login, login_failed, pair, opened, start_heartbeat, new_client, notifications, subscribed,
}
use pigsydust.Ble.Link.{
  Connection, close, ble_transport, write_pair, read_pair, subscribe_notify, kick, in_context,
}
use pigsydust.Ble.Adapter.{Adapter, scan, connect}
use pigsydust.Programs.Start.{Settings, with_results, with_adapter, start}
use pigsydust.Programs.Session.{with_stream, with_login, with_conn, with_best, open_session}
use pigsydust.Programs.Ready.{IsReady}
use pigsydust.Programs.Unclosed.{start-IsReady, listen_unclosed}
use pigsydust.Programs.Pick.{pick, stronger, is_gateway}
use pigsydust.Programs.Answered.{settings_of, streaming}
use pigsydust.Programs.Intime.{in_time}
use pigsydust.Programs.Listen.{count_of, occurrences}
use pigsydust.Programs.Runs.{listen, summary_line}
use pigsydust.Programs.Counted.{listen_counts}
use pigsydust.Witnesses.Data.{toy, gateway, rand_b}
use pigsydust.Witnesses.Opened.{open_char, linked, result}

abbrev Log : Type 0
Log = List (List ℕ)

-- The node's connection, whose closer leaves a mark.
abbrev closable : Connection Log
closable = record linked { closer = some (λ t. (ok tt, [] ∷ t)) }

abbrev host : Adapter Log
host = record {
  impl = record {
    scan = λ filter t. (ok (result ∷ []), t);
    stop_scan = λ t. (ok tt, t);
    connect = λ r t. (ok closable, t);
  };
}

abbrev make_host : Log → Go (Adapter Log) × Log
make_host t = (ok host, t)

abbrev pub mesh : List ℕ
mesh = b'h' ∷ b'o' ∷ b'm' ∷ b'e' ∷ []

abbrev pub mesh_word : List ℕ
mesh_word = b'1' ∷ b'2' ∷ b'3' ∷ []

abbrev pub login_salt : List ℕ
login_salt = 9 ∷ 8 ∷ []

abbrev key : List ℕ
key = derive_session_key toy mesh mesh_word (zeros 8) rand_b

-- The status of device 9, on.
abbrev pub lamp_report : Report
lamp_report = record {
  sno = 1 ∷ 2 ∷ 3 ∷ [];
  origin = 9;
  opcode = 0xDC;
  vendor_low = 0x69;
  vendor_high = 0x69;
  payload = 9 ∷ 40 ∷ 0x64 ∷ 1 ∷ 0 ∷ 0 ∷ 0 ∷ 0 ∷ 0 ∷ 0 ∷ [];
  sno_length = refl;
  payload_length = refl;
  origin_range = omega arith;
}

abbrev pub packet : List ℕ
packet = packet_of toy key gateway lamp_report

pub given : bytes_eq mesh_word [] ≡ false
given = ground (arith, bytes_eq_iff mesh_word [])

scanned :
    scan host (record { mesh_name = mesh; network_id = 0; gateway_only = false }) []
    ≡ (ok (result ∷ []), [])
unfolding scan
scanned = refl

pub picked : pick none (result ∷ []) ≡ some result
unfolding pick stronger is_gateway
picked = refl

reached : connect host result [] ≡ (ok closable, [])
unfolding connect
reached = refl

listen_counts_example :
    (u : Log) × ((counts : List (ℕ × ℕ)) × ((listen toy make_host
            (settings_of mesh mesh_word (zeros 8) login_salt 1700000000)
            (in_time (packet ∷ []) [])
            []
          ≡ (ok (map summary_line counts), (close closable u).1))
        × ((op : ℕ) → count_of counts op ≡ occurrences op (map delivered (lamp_report ∷ [])))))
listen_counts_example =
    listen_counts toy closable rand_b (zeros 8) refl (omega arith) (λ b t. refl) (λ t. refl)
      (λ t. refl) (λ b t. refl) (λ b t. refl) mesh mesh_word (zeros 8) login_salt 1700000000
      make_host host (result ∷ []) result [] [] [] [] [] given refl scanned picked reached
      (genuine lamp_report quiet)

-- The client behind the toy login and the subscription.
abbrev opened_client : Client
opened_client = streaming toy gateway mesh mesh_word (zeros 8) login_salt rand_b

-- A node that refuses commands, in a state that shows the refused call.
abbrev deaf : Connection Log
deaf = record closable {
  char_cmd = record open_char { write_command = λ b t. (err (foreign 7), [] ∷ []) };
}

abbrev deaf_host : Adapter Log
deaf_host = record { impl = record host.impl { connect = λ r t. (ok deaf, t) } }

abbrev settings : Settings
settings = settings_of mesh mesh_word (zeros 8) login_salt 1700000000

deaf_starts : start toy connect settings (λ t. (ok deaf_host, t)) [] ≡ (
  ok (deaf, opened_client),
  (0x01 ∷ []) ∷ build_login_request toy mesh mesh_word (zeros 8) ∷ [],
)
unfolding start with_adapter with_results scan connect open_session pick stronger is_gateway
    with_best with_conn with_login with_stream login login_failed pair opened start_heartbeat
    new_client notifications subscribed ble_transport write_pair read_pair subscribe_notify kick
    in_context parse_login_response index
deaf_starts = rw (given) refl

start-IsReady_example : IsReady opened_client
start-IsReady_example =
    start-IsReady toy connect settings (λ t. (ok deaf_host, t)) deaf opened_client [] _ deaf_starts

listen_unclosed_example :
    listen toy (λ t. (ok deaf_host, t)) settings (in_time (packet ∷ []) []) []
    ≡ (err (context (foreign 7)), [] ∷ [])
listen_unclosed_example =
    listen_unclosed toy settings (λ t. (ok deaf_host, t)) (in_time (packet ∷ []) []) deaf
      opened_client (foreign 7) [] _ ([] ∷ []) deaf_starts (λ b. refl)
