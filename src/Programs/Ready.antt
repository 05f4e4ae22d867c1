-- ===== src/Programs/Ready.antt =====
-- ble/cmd/smoke, ble/cmd/smoke-linux and ble/cmd/listen: the client of an opened session.
use pigsydust.Prelude.{
  ℕ, true, false, Bool-cases, inl, inr, List, Option, none, some, ◌≡◌, refl, sym, subst,
}
use pigsydust.Prelude.Go.{Go, ok, err, panic}
use pigsydust.Crypto.{Aes}
use pigsydust.Client.{Client, Transport, Done, notifications, subscribed}
use pigsydust.Client.Stream.{notifications_cases}
use pigsydust.Ble.Link.{Connection, ble_transport}
use pigsydust.Ble.Discovery.{ScanResult}
use pigsydust.Programs.Pick.{pick}
use pigsydust.Programs.Session.{with_stream, with_login, with_conn, with_best, open_session}

-- A client that can send, and has its one stream of notifications.
pub record IsReady (c : Client) : Type 0 where
  pub logged : c.session.logged_in ≡ true
  pub streaming : c.notify_active ≡ true

-- Nothing is claimed of a failure.
abbrev Holds : {A : Type 0} → (A → Type 0) → Go A → Type 0
Holds P (ok a) = P a
Holds P (err e) = Unit
Holds P panic = Unit

module _ {T : Type 0} (aes : Aes) (connect : ScanResult → T → Go (Connection T) × T) where
  abbrev Fine : Go (Connection T × Client) × T → Type 0
  Fine r = Holds (λ o. IsReady o.1) r.0

  subscribes :
      (transport : Transport T) (c : Client) (t : T)
      → c.notify_active ≡ false
      → c.session.logged_in ≡ true
      → notifications transport c t ≡ (
          let s = transport.subscribe_notify t in
          ((subscribed s.0 c).0, ((subscribed s.0 c).1, s.1)))
  unfolding notifications
  subscribes transport c t idle logged = simp (idle, logged) refl

  with_stream_ready :
      (conn : Connection T) (c : Client) (t : T)
      → Fine (with_stream aes connect conn (notifications (ble_transport conn) c t))
  with_stream_ready conn c t = elim (Bool-cases c.notify_active) [
    | inl active ↦
        subst Streamed (sym ((notifications_cases (ble_transport conn) c t t).0 active))
          (unfold with_stream in tt)
    | inr idle ↦ elim (Bool-cases c.session.logged_in) [
      | inr out ↦
          subst Streamed (sym ((notifications_cases (ble_transport conn) c t t).1 idle out))
            (unfold with_stream in tt)
      | inl logged ↦
          subst Streamed (sym (subscribes (ble_transport conn) c t idle logged))
            (by_answer logged ((ble_transport conn).subscribe_notify t))
    ]
  ]
    where
      Streamed : Go (List ℕ × List ℕ) × (Client × T) → Type 0
      Streamed r = Fine (with_stream aes connect conn r)

      by_answer :
          c.session.logged_in ≡ true
          → (r : Go Done × T) → Streamed ((subscribed r.0 c).0, ((subscribed r.0 c).1, r.1))
      by_answer logged (ok done, u) =
          unfold subscribed with_stream in record { logged = logged; streaming = refl }
      by_answer logged (err e, u) = unfold subscribed with_stream in tt
      by_answer logged (panic, u) = unfold subscribed with_stream in tt

  with_login_ready :
      (conn : Connection T) (r : Go Done × (Client × T)) → Fine (with_login aes connect conn r)
  unfolding with_login
  with_login_ready conn (ok done, (c, t)) = with_stream_ready conn c t
  with_login_ready conn (err e, (c, t)) = tt
  with_login_ready conn (panic, (c, t)) = tt

  with_conn_ready :
      (rand_a salt : Go (List ℕ)) (name password : List ℕ) (r : Go (Connection T) × T)
      → Fine (with_conn aes connect rand_a salt name password r)
  unfolding with_conn
  with_conn_ready rand_a salt name password (ok conn, t) = with_login_ready conn _
  with_conn_ready rand_a salt name password (err e, t) = tt
  with_conn_ready rand_a salt name password (panic, t) = tt

  with_best_ready :
      (rand_a salt : Go (List ℕ)) (name password : List ℕ) (best : Option ScanResult) (t : T)
      → Fine (with_best aes connect rand_a salt name password best t)
  unfolding with_best
  with_best_ready rand_a salt name password none t = tt
  with_best_ready rand_a salt name password (some r) t = with_conn_ready rand_a salt name password _

  -- A session that a program opened, whatever the scan found and whichever adapter connected, is
  -- logged in and subscribed, so that neither its commands nor its stream can be refused for that.
  pub open_session-IsReady :
      (rand_a salt : Go (List ℕ)) (name password : List ℕ) (results : List ScanResult)
      (conn : Connection T) (c : Client) (t u : T)
      → open_session aes connect rand_a salt name password results t ≡ (ok (conn, c), u)
      → IsReady c
  unfolding open_session
  open_session-IsReady rand_a salt name password results conn c t u e =
      subst Fine e (with_best_ready rand_a salt name password (pick none results) t)
