-- ===== src/Programs/Counted.antt =====
-- ble/cmd/smoke-linux and ble/cmd/listen: what a run with a node that answers comes to.
use pigsydust.Prelude.{
  ℕ, ◌≤◌, true, false, List, [], ◌∷◌, ◌++◌, length, map, some, none, ◌≡◌, refl, sym, ap, ◌∙◌,
}
use pigsydust.Prelude.Go.{Go, ok}
use pigsydust.Byteutil.{copy, copy_slice, put_le16, put_le32}
use pigsydust.Crypto.{Aes}
use pigsydust.Command.{encode, wire_opcode}
use pigsydust.Command.Build.{set_utc}
use pigsydust.Client.{Client, with_session, next_sno}
use pigsydust.Client.Login.{send-decrypt}
use pigsydust.Ble.Link.{Connection, ble_transport, write_command, in_context}
use pigsydust.Ble.Link.{close}
use pigsydust.Ble.Adapter.{Adapter, scan, connect}
use pigsydust.Ble.Discovery.{ScanResult}
use pigsydust.Crypto.Login.{login_response_tag_byte, derive_session_key}
use pigsydust.Client.{start_heartbeat, new_client}
use pigsydust.Client.Stream.{Report, Traffic, delivered, pump-Traffic}
use pigsydust.Notification.{Notification}
use pigsydust.Prelude.{bytes_eq, length-map}
use pigsydust.Programs.Pick.{pick}
use pigsydust.Programs.Session.{after_clock, clock_sent}
use pigsydust.Programs.Arrives.{node_reads}
use pigsydust.Programs.Start.{Settings, Connector, connect_stopped, mesh_filter, start}
use pigsydust.Programs.Answered.{settings_of, streaming, start_answered}
use pigsydust.Programs.Listen.{
  heard, time_up, listen_loop, count_of, occurrences, count_of-listen_loop,
}
use pigsydust.Programs.Intime.{in_time, hears-in_time}
use pigsydust.Programs.Runs.{Arrival, hears, summary_line, observed, smoke_linux, listened, listen}

pub set_utc-encode : (now : ℕ) → (plaintext : List ℕ) × (encode (set_utc now) ≡ ok plaintext)
unfolding encode set_utc wire_opcode copy_slice copy put_le16 put_le32
set_utc-encode now = (_, refl)

module _ {T : Type 0} (aes : Aes) (conn : Connection T)
    (accepts : (b : List ℕ) (t : T) → (conn.char_cmd.write_command b t).0 ≡ ok tt) where
  clock_sent_reads :
      (now : ℕ) (c : Client) (t : T)
      → c.session.logged_in ≡ true
      → (packet : List ℕ) × ((node_reads aes c.session.key c.session.gw_mac packet
            ≡ encode (set_utc now))
          × (clock_sent aes now (ok (conn, c), t) ≡ (
            ok (conn, with_session c (next_sno c.session).1),
            (conn.char_cmd.write_command packet t).1,
          )))
  unfolding clock_sent after_clock ble_transport write_command in_context node_reads
  clock_sent_reads now c t logged =
      let (plaintext, encoded) = set_utc-encode now in
      let (packet, sent, first, read) =
        send-decrypt aes (ble_transport conn) (set_utc now) c t plaintext logged encoded in
      (
        packet,
        (
          read ∙ sym encoded,
          ap (after_clock conn) (
              sent
              ∙ ap
                  (λ g. (
                    in_context g,
                    (
                      with_session c (next_sno c.session).1,
                      (conn.char_cmd.write_command packet t).1,
                    ),
                  ))
                  (accepts packet t)),
        ),
      )

module _ {T : Type 0} (aes : Aes) (conn : Connection T) (rand_b rest : List ℕ)
    (eight : length rand_b ≡ 8) (long : 8 ≤ length rest)
    (pairs : (b : List ℕ) (t : T) → (conn.char_pair.write_request b t).0 ≡ ok tt)
    (reads : (t : T) → (conn.char_pair.read t).0 ≡ ok (login_response_tag_byte ∷ (rand_b ++ rest)))
    (arms : (t : T) → (conn.char_notify.subscribe t).0 ≡ ok tt)
    (kicks : (b : List ℕ) (t : T) → (conn.char_notify.write_request b t).0 ≡ ok tt)
    (accepts : (b : List ℕ) (t : T) → (conn.char_cmd.write_command b t).0 ≡ ok tt)
    (name password rand_a salt : List ℕ) (now : ℕ) where
  abbrev settings : Settings
  settings = settings_of name password rand_a salt now

  abbrev session_key : List ℕ
  session_key = derive_session_key aes name password rand_a rand_b

  -- The client that the programs hold once the time is sent.
  abbrev ready : Client
  ready =
      let c = streaming aes conn.gw_mac name password rand_a salt rand_b in
      with_session c (next_sno c.session).1

  -- The session opens, and the last that is done on the way to `ready` is to write a packet from which
  -- the node reads the time.
  pub begun :
      (connector : Connector T) (new_adapter : T → Go (Adapter T) × T) (a : Adapter T)
      (results : List ScanResult) (r : ScanResult) (t t1 t2 t3 : T)
      → bytes_eq password [] ≡ false
      → new_adapter t ≡ (ok a, t1)
      → scan a (mesh_filter name) t1 ≡ (ok results, t2)
      → pick none results ≡ some r
      → connector a r t2 ≡ (ok conn, t3)
      → (packet : List ℕ) × ((v : T) × ((start aes connector settings new_adapter t
              ≡ (ok (conn, streaming aes conn.gw_mac name password rand_a salt rand_b), v))
            × ((node_reads aes session_key conn.gw_mac packet ≡ encode (set_utc now))
                × (clock_sent aes now (start aes connector settings new_adapter t)
                    ≡ (ok (conn, ready), (conn.char_cmd.write_command packet v).1)))))
  unfolding start_heartbeat new_client
  begun connector new_adapter a results r t t1 t2 t3 given made scanned picked reached =
      let (v, opened) =
        start_answered aes conn rand_b rest eight long pairs reads arms kicks connector rand_a salt
          name password now new_adapter a results r t t1 t2 t3 given made scanned picked reached in
      let (packet, (read, sent)) =
        clock_sent_reads aes conn accepts now
          (streaming aes conn.gw_mac name password rand_a salt rand_b) v refl in
      (packet, (v, (opened, (read, ap (clock_sent aes now) opened ∙ sent))))

  -- The end of smoke-linux, from the state in which the time is sent.
  pub smoke_linux_ends :
      (new_adapter : T → Go (Adapter T) × T) (t u : T) {packets : List (List ℕ)}
      {reports : List Report}
      → clock_sent aes now (start aes connect_stopped settings new_adapter t)
        ≡ (ok (conn, ready), u)
      → Traffic aes session_key conn.gw_mac packets reports
      → smoke_linux aes new_adapter settings packets t ≡ (ok (length reports), (close conn u).1)
  unfolding smoke_linux observed start_heartbeat new_client next_sno
  smoke_linux_ends new_adapter t u {packets} {reports} started traffic =
      ap (observed aes packets) started
      ∙ ap (λ (ns : List Notification). (ok (length ns), (close conn u).1))
          (pump-Traffic aes session_key conn.gw_mac traffic)
      ∙ ap (λ n. (ok n, (close conn u).1)) (length-map reports delivered)

  -- With a node that accepts what is written to it and answers the login, and a scan in which a node
  -- is picked that can be connected to, smoke-linux comes to its end: it reports exactly as many
  -- notifications as nodes sealed for its session among the packets that arrive, however many others
  -- do, and closes the connection last of all.
  smoke_linux_counts :
      (new_adapter : T → Go (Adapter T) × T) (a : Adapter T) (results : List ScanResult)
      (r : ScanResult) (t t1 t2 t3 : T) {packets : List (List ℕ)} {reports : List Report}
      → bytes_eq password [] ≡ false
      → new_adapter t ≡ (ok a, t1)
      → scan a (mesh_filter name) t1 ≡ (ok results, t2)
      → pick none results ≡ some r
      → connect_stopped a r t2 ≡ (ok conn, t3)
      → Traffic aes (derive_session_key aes name password rand_a rand_b) conn.gw_mac packets reports
      → (u : T) × (smoke_linux aes new_adapter settings packets t
          ≡ (ok (length reports), (close conn u).1))
  smoke_linux_counts new_adapter a results r t t1 t2 t3 given made scanned picked reached traffic =
      let (packet, (v, (opened, (read, started)))) =
        begun connect_stopped new_adapter a results r t t1 t2 t3 given made scanned picked
          reached in
      (_, smoke_linux_ends new_adapter t (conn.char_cmd.write_command packet v).1 started traffic)

  -- With a node that accepts what is written to it and answers the login, and a scan in which a node
  -- is picked that can be connected to, listen comes to its end: when the packets come in time, its
  -- summary has the lines of a count that gives, for every opcode, the number of notifications with it
  -- that nodes sealed for the session among these packets; and it closes the connection last of all.
  pub listen_counts :
      (new_adapter : T → Go (Adapter T) × T) (a : Adapter T) (results : List ScanResult)
      (r : ScanResult) (t t1 t2 t3 : T) {packets : List (List ℕ)} {reports : List Report}
      (later : List Arrival)
      → bytes_eq password [] ≡ false
      → new_adapter t ≡ (ok a, t1)
      → scan a (mesh_filter name) t1 ≡ (ok results, t2)
      → pick none results ≡ some r
      → connect a r t2 ≡ (ok conn, t3)
      → Traffic aes (derive_session_key aes name password rand_a rand_b) conn.gw_mac packets reports
      → (u : T) × ((counts : List (ℕ × ℕ)) × ((listen aes new_adapter settings
                (in_time packets later)
                t
              ≡ (ok (map summary_line counts), (close conn u).1))
            × ((op : ℕ) → count_of counts op ≡ occurrences op (map delivered reports))))
  unfolding listen listened start_heartbeat new_client next_sno
  listen_counts new_adapter a results r t t1 t2 t3 {packets} {reports} later given made scanned
        picked reached traffic =
      let (packet, (v, (opened, (read, started)))) =
        begun connect new_adapter a results r t t1 t2 t3 given made scanned picked reached in
      let u = (conn.char_cmd.write_command packet v).1 in
      let notifications = map delivered reports in
      let rounds = map (λ n. heard n false) notifications ++ (time_up ∷ hears aes ready later) in
      let heard_all : hears aes ready (in_time packets later) ≡ rounds =
        hears-in_time aes ready packets later
        ∙ ap
            (λ (ns : List Notification).
              map (λ n. heard n false) ns ++ (time_up ∷ hears aes ready later))
            (pump-Traffic aes (derive_session_key aes name password rand_a rand_b) conn.gw_mac
              traffic) in
      (
        u,
        (
          listen_loop [] rounds,
          (
            ap (listened aes (in_time packets later)) started
                ∙ ap (λ l. (ok (map summary_line (listen_loop [] l)), (close conn u).1)) heard_all,
            λ op. count_of-listen_loop op notifications (hears aes ready later),
          ),
        ),
      )
