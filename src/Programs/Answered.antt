-- ===== src/Programs/Answered.antt =====
-- ble/cmd/smoke, ble/cmd/smoke-linux and ble/cmd/listen: runs with a node that answers.
use pigsydust.Prelude.{ℕ, ◌≤◌, true, List, [], ◌∷◌, ◌++◌, length, some, none, ◌≡◌, refl, ap, ◌∙◌}
use pigsydust.Prelude.Go.{Go, ok}
use pigsydust.Crypto.{Aes}
use pigsydust.Crypto.Login.{login_response_tag_byte, build_login_request, derive_session_key}
use pigsydust.Client.{Client, new_client, start_heartbeat, with_session, with_notify, login}
use pigsydust.Client.Login.{login_accepted}
use pigsydust.Ble.Link.{Connection, ble_transport, in_context, write_pair, read_pair}
use pigsydust.Ble.Link.Laws.{notifications-ble_transport}
use pigsydust.Ble.Discovery.{ScanResult}
use pigsydust.Prelude.{bytes_eq, false}
use pigsydust.Ble.Adapter.{Adapter, scan}
use pigsydust.Programs.Start.{Settings, Connector, mesh_filter, with_results, with_adapter, start}
use pigsydust.Programs.Pick.{pick}
use pigsydust.Programs.Session.{with_stream, with_login, with_conn, with_best, open_session}

-- The client behind a login with the two random values, and behind the subscription that follows.
abbrev pub paired : Aes → List ℕ → List ℕ → List ℕ → List ℕ → List ℕ → List ℕ → Client
paired aes gw_mac name password rand_a salt rand_b = start_heartbeat (
    with_session (new_client gw_mac) (record {
      key = derive_session_key aes name password rand_a rand_b;
      salt = salt;
      seq = 0;
      gw_mac = gw_mac;
      logged_in = true;
    }))

abbrev pub streaming : Aes → List ℕ → List ℕ → List ℕ → List ℕ → List ℕ → List ℕ → Client
streaming aes gw_mac name password rand_a salt rand_b =
    with_notify (paired aes gw_mac name password rand_a salt rand_b) true

abbrev pub settings_of : List ℕ → List ℕ → List ℕ → List ℕ → ℕ → Settings
settings_of name password rand_a salt now = record {
  mesh_name = name;
  password = password;
  rand_a = ok rand_a;
  salt = ok salt;
  now = now;
}

-- A node that accepts what is written to it and answers a login with `rand_b`.
module _ {T : Type 0} (aes : Aes) (conn : Connection T) (rand_b rest : List ℕ)
    (eight : length rand_b ≡ 8) (long : 8 ≤ length rest)
    (pairs : (b : List ℕ) (t : T) → (conn.char_pair.write_request b t).0 ≡ ok tt)
    (reads : (t : T) → (conn.char_pair.read t).0 ≡ ok (login_response_tag_byte ∷ (rand_b ++ rest)))
    (arms : (t : T) → (conn.char_notify.subscribe t).0 ≡ ok tt)
    (kicks : (b : List ℕ) (t : T) → (conn.char_notify.write_request b t).0 ≡ ok tt) where
  login_answered :
      (rand_a salt name password : List ℕ) (t : T)
      → (u : T) × (login aes
            (ble_transport conn)
            (ok rand_a)
            (ok salt)
            name
            password
            (new_client conn.gw_mac)
            t
          ≡ (ok tt, (paired aes conn.gw_mac name password rand_a salt rand_b, u)))
  unfolding ble_transport write_pair read_pair in_context new_client
  login_answered rand_a salt name password t = (
    _,
    login_accepted aes (ble_transport conn) rand_a salt rand_b rest name password
        (new_client conn.gw_mac) t (conn.char_pair.write_request request t).1 _
        (ap (λ g. (in_context g, (conn.char_pair.write_request request t).1)) (pairs request t))
        (ap (λ g. (in_context g, (conn.char_pair.read written).1)) (reads written)) eight long,
  )
    where
      request : List ℕ
      request = build_login_request aes name password rand_a

      written : T
      written = (conn.char_pair.write_request request t).1

  with_login_answered :
      (connect : ScanResult → T → Go (Connection T) × T) (rand_a salt name password : List ℕ)
      (t : T)
      → (u : T) × (with_login aes connect conn
            (ok tt, (paired aes conn.gw_mac name password rand_a salt rand_b, t))
          ≡ (ok (conn, streaming aes conn.gw_mac name password rand_a salt rand_b), u))
  unfolding with_login with_stream start_heartbeat new_client
  with_login_answered connect rand_a salt name password t = (
    _,
    ap (with_stream aes connect conn) (
        notifications-ble_transport conn (paired aes conn.gw_mac name password rand_a salt rand_b) t
          (conn.char_notify.subscribe t).1 _ refl refl
          (ap (λ g. (g, (conn.char_notify.subscribe t).1)) (arms t))
          (ap
            (λ g.
              (g, (conn.char_notify.write_request (0x01 ∷ []) (conn.char_notify.subscribe t).1).1))
            (kicks (0x01 ∷ []) (conn.char_notify.subscribe t).1))),
  )

  -- With such a node, and the random bytes at hand, the programs open a session: when a node is picked
  -- and connected to, they come to a client that is subscribed, under the key of both random values.
  pub open_session_answered :
      (connect : ScanResult → T → Go (Connection T) × T) (rand_a salt name password : List ℕ)
      (results : List ScanResult) (r : ScanResult) (t v : T)
      → pick none results ≡ some r
      → connect r t ≡ (ok conn, v)
      → (u : T) × (open_session aes connect (ok rand_a) (ok salt) name password results t
          ≡ (ok (conn, streaming aes conn.gw_mac name password rand_a salt rand_b), u))
  unfolding open_session with_best with_conn
  open_session_answered connect rand_a salt name password results r t v picked reached =
      let (w, logged) = login_answered rand_a salt name password v in
      let (u, subscribed) = with_login_answered connect rand_a salt name password w in
      (
        u,
        (rw (picked, with_best, reached, with_conn)
            (ap (with_login aes connect conn) logged ∙ subscribed)),
      )

  -- With such a node, a password, an adapter and a scan, the programs come to this client.
  pub start_answered :
      (connector : Connector T) (rand_a salt name password : List ℕ) (now : ℕ)
      (new_adapter : T → Go (Adapter T) × T) (a : Adapter T) (results : List ScanResult)
      (r : ScanResult) (t t1 t2 t3 : T)
      → bytes_eq password [] ≡ false
      → new_adapter t ≡ (ok a, t1)
      → scan a (mesh_filter name) t1 ≡ (ok results, t2)
      → pick none results ≡ some r
      → connector a r t2 ≡ (ok conn, t3)
      → (u : T) × (start aes connector (settings_of name password rand_a salt now) new_adapter t
          ≡ (ok (conn, streaming aes conn.gw_mac name password rand_a salt rand_b), u))
  unfolding start with_adapter with_results
  start_answered connector rand_a salt name password now new_adapter a results r t t1 t2 t3 given
        made scanned picked reached =
      let (u, opened) =
        open_session_answered (connector a) rand_a salt name password results r t2 t3 picked
          reached in
      (u, rw (given, made, with_adapter, scanned, with_results) opened)
