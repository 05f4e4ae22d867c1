-- ===== src/Programs/Kept.antt =====
-- ble/cmd: what the calls of a connection keep, opening a session over it keeps.
use pigsydust.Prelude.{ℕ, false, bytes_eq, List, ◌∷◌, [], some, none, ◌≡◌, inl, inr}
use pigsydust.Prelude.Go.{Go, ok, err, panic, Go-cases}
use pigsydust.Crypto.{Aes}
use pigsydust.Crypto.Login.{build_login_request}
use pigsydust.Client.{Client, Done, pair, login, notifications, new_client}
use pigsydust.Ble.Link.{
  Connection, ble_transport, write_pair, read_pair, subscribe_notify, kick, in_context,
}
use pigsydust.Ble.Discovery.{ScanResult}
use pigsydust.Ble.Adapter.{Adapter, scan}
use pigsydust.Prelude.{Bool-cases}
use pigsydust.Programs.Pick.{pick}
use pigsydust.Programs.Session.{with_stream, with_login, with_conn, with_best, open_session}
use pigsydust.Programs.Start.{Connector, mesh_filter, with_results, with_adapter, start}
use pigsydust.Programs.Answered.{settings_of}

module _ {T : Type 0} (aes : Aes) (conn : Connection T) (P : T → Type 0)
    (pairs : (b : List ℕ) (t : T) → P t → P (conn.char_pair.write_request b t).1)
    (reads : (t : T) → P t → P (conn.char_pair.read t).1)
    (arms : (t : T) → P t → P (conn.char_notify.subscribe t).1)
    (kicks : (b : List ℕ) (t : T) → P t → P (conn.char_notify.write_request b t).1) where
  pair_keeps :
      (name password rand_a : List ℕ) (t : T)
      → P t
      → P (pair aes (ble_transport conn) name password rand_a t).1
  unfolding pair ble_transport write_pair read_pair
  pair_keeps name password rand_a t p =
      elim (Go-cases (in_context (conn.char_pair.write_request request t).0)) [
        | inl (done, e) ↦ rw (pair, e) (reads _ (pairs request t p))
        | inr (inl (x, e)) ↦ rw (pair, e) (pairs request t p)
        | inr (inr e) ↦ rw (pair, e) (pairs request t p)
      ]
    where
      request : List ℕ
      request = build_login_request aes name password rand_a

  login_keeps :
      (name password rand_a salt : List ℕ) (c : Client) (t : T)
      → P t
      → P (login aes (ble_transport conn) (ok rand_a) (ok salt) name password c t).1.1
  unfolding login
  login_keeps name password rand_a salt c t p = pair_keeps name password rand_a t p

  kick_keeps : (g : Go Done) (t : T) → P t → P (kick conn g t).1
  unfolding kick
  kick_keeps (ok done) t p = kicks (0x01 ∷ []) t p
  kick_keeps (err e) t p = p
  kick_keeps panic t p = p

  notifications_keeps : (c : Client) (t : T) → P t → P (notifications (ble_transport conn) c t).1.1
  unfolding notifications ble_transport subscribe_notify
  notifications_keeps c t p = elim (Bool-cases c.notify_active) [
    | inl e ↦ rw e p
    | inr e ↦ rw e (elim (Bool-cases c.session.logged_in) [
      | inl f ↦ rw f (kick_keeps (conn.char_notify.subscribe t).0 _ (arms t p))
      | inr f ↦ rw f p
    ])
  ]

  with_stream_keeps :
      (connect : ScanResult → T → Go (Connection T) × T) (r : Go (List ℕ × List ℕ) × (Client × T))
      → P r.1.1
      → P (with_stream aes connect conn r).1
  unfolding with_stream
  with_stream_keeps connect (ok stream, (c, t)) p = p
  with_stream_keeps connect (err e, (c, t)) p = p
  with_stream_keeps connect (panic, (c, t)) p = p

  with_login_keeps :
      (connect : ScanResult → T → Go (Connection T) × T) (r : Go Done × (Client × T))
      → P r.1.1
      → P (with_login aes connect conn r).1
  unfolding with_login
  with_login_keeps connect (ok done, (c, t)) p =
      with_stream_keeps connect (notifications (ble_transport conn) c t) (notifications_keeps c t p)
  with_login_keeps connect (err e, (c, t)) p = p
  with_login_keeps connect (panic, (c, t)) p = p

  -- With a password, an adapter, a scan, and a node that is picked and connected to over `conn`, what
  -- holds of the state then and what its calls keep holds of the state in which a program starts.
  pub start_keeps :
      (connector : Connector T) (rand_a salt name password : List ℕ) (now : ℕ)
      (new_adapter : T → Go (Adapter T) × T) (a : Adapter T) (results : List ScanResult)
      (r : ScanResult) (t t1 t2 t3 : T)
      → bytes_eq password [] ≡ false
      → new_adapter t ≡ (ok a, t1)
      → scan a (mesh_filter name) t1 ≡ (ok results, t2)
      → pick none results ≡ some r
      → connector a r t2 ≡ (ok conn, t3)
      → P t3
      → P (start aes connector (settings_of name password rand_a salt now) new_adapter t).1
  unfolding start with_adapter with_results open_session with_best with_conn
  start_keeps connector rand_a salt name password now new_adapter a results r t t1 t2 t3 given made
        scanned picked reached p =
      rw (given, made, with_adapter, scanned, with_results, picked, with_best, reached, with_conn)
        (with_login_keeps (connector a) _
          (login_keeps name password rand_a salt (new_client conn.gw_mac) t3 p))
