-- ===== src/Programs/Session.antt =====
-- ble/cmd/smoke, ble/cmd/smoke-linux and ble/cmd/listen: from the scan's results to a session that is
-- logged in and subscribed. An error is what the program gives to `log.Fatalf`.
use pigsydust.Prelude.{ℕ, List, Option, none, some}
use pigsydust.Prelude.Go.{Go, ok, err, panic, no_node}
use pigsydust.Crypto.{Aes}
use pigsydust.Client.{Client, Done, new_client, login, notifications, send}
use pigsydust.Command.Build.{set_utc}
use pigsydust.Ble.Link.{Connection, ble_transport}
use pigsydust.Ble.Discovery.{ScanResult}
use pigsydust.Programs.Pick.{pick}

-- A connection and the client over it, or the error that ends the program.
abbrev pub Opened : Type 0 → Type 0
Opened T = Go (Connection T × Client) × T

-- `connect` is the adapter's.
module _ {T : Type 0} (aes : Aes) (connect : ScanResult → T → Go (Connection T) × T) where
  unfoldable pub with_stream : Connection T → Go (List ℕ × List ℕ) × (Client × T) → Opened T
  with_stream conn (ok stream, (c, t)) = (ok (conn, c), t)
  with_stream conn (err e, (c, t)) = (err e, t)
  with_stream conn (panic, (c, t)) = (panic, t)

  unfoldable pub with_login : Connection T → Go Done × (Client × T) → Opened T
  with_login conn (ok done, (c, t)) = with_stream conn (notifications (ble_transport conn) c t)
  with_login conn (err e, (c, t)) = (err e, t)
  with_login conn (panic, (c, t)) = (panic, t)

  unfoldable pub with_conn :
      Go (List ℕ) → Go (List ℕ) → List ℕ → List ℕ → Go (Connection T) × T → Opened T
  with_conn rand_a salt name password (ok conn, t) =
      with_login conn
        (login aes (ble_transport conn) rand_a salt name password (new_client conn.gw_mac) t)
  with_conn rand_a salt name password (err e, t) = (err e, t)
  with_conn rand_a salt name password (panic, t) = (panic, t)

  unfoldable pub with_best :
      Go (List ℕ) → Go (List ℕ) → List ℕ → List ℕ → Option ScanResult → T → Opened T
  with_best rand_a salt name password none t = (err no_node, t)
  with_best rand_a salt name password (some r) t = with_conn rand_a salt name password (connect r t)

  unfoldable pub open_session :
      Go (List ℕ) → Go (List ℕ) → List ℕ → List ℕ → List ScanResult → T → Opened T
  open_session rand_a salt name password results t =
      with_best rand_a salt name password (pick none results) t

-- The programs go on by sending the time.
unfoldable pub after_clock : {T : Type 0} → Connection T → Go Done × (Client × T) → Opened T
after_clock conn (ok done, (c, t)) = (ok (conn, c), t)
after_clock conn (err e, (c, t)) = (err e, t)
after_clock conn (panic, (c, t)) = (panic, t)

unfoldable pub clock_sent : {T : Type 0} → Aes → ℕ → Opened T → Opened T
clock_sent aes now (ok (conn, c), t) =
    after_clock conn (send aes (ble_transport conn) (set_utc now) c t)
clock_sent aes now (err e, t) = (err e, t)
clock_sent aes now (panic, t) = (panic, t)
