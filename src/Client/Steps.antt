-- ===== src/Client/Steps.antt =====
-- client.go: the life of a client as steps, and what a step can do to it.
use pigsydust.Prelude.{ℕ, ◌≡◌, inl, inr, refl, List, Bool, true, false}
use pigsydust.Prelude.{Bool-cases, subst, sym}
use pigsydust.Prelude.Go.{Go, ok, err, panic}
use pigsydust.Crypto.{Aes}
use pigsydust.Command.{Command}
use pigsydust.Client.{Session, Client, Transport, next_sno, start_heartbeat, close, login}
use pigsydust.Client.Login.{send_refused}
use pigsydust.Client.Stream.{notifications_cases}
use pigsydust.Client.{
  opened, pair, send, notifications, subscribed, stream_ended, with_session, with_notify,
}

module _ {T : Type 0} (aes : Aes) (transport : Transport T) where
  -- One call of the client's interface, at any state of the transport, or the end of its stream.
  pub data Step : Client → Client → Type 0 where
    logs_in :
        (rand_a salt : Go (List ℕ)) (name password : List ℕ) (c : Client) (t : T)
        → Step c (login aes transport rand_a salt name password c t).1.0
    sends : (cmd : Command) (c : Client) (t : T) → Step c (send aes transport cmd c t).1.0
    subscribes : (c : Client) (t : T) → Step c (notifications transport c t).1.0
    stream_ends : (c : Client) → Step c (stream_ended c)
    closes : (c : Client) → Step c (close c)

  pub data Reaches : Client → Client → Type 0 where
    here : (c : Client) → Reaches c c
    there : {c d e : Client} → Reaches c d → Step d e → Reaches c e

-- The session after a successful login.
abbrev pub new_session : Client → List ℕ → List ℕ → Session
new_session c sk salt = record {
  key = sk;
  salt = salt;
  seq = 0;
  gw_mac = c.session.gw_mac;
  logged_in = true;
}

-- What a step can do to the client.
pub data Effect : Client → Client → Type 0 where
  same : (c : Client) → Effect c c
  relogged :
      (c : Client) (sk salt : List ℕ)
      → Effect c (start_heartbeat (with_session c (new_session c sk salt)))
  counted :
      (c : Client) → c.session.logged_in ≡ true → Effect c (with_session c (next_sno c.session).1)
  notified : (c : Client) (b : Bool) → Effect c (with_notify c b)
  closed : (c : Client) → Effect c (close c)

opened-Effect : (salt : List ℕ) (key : Go (List ℕ)) (c : Client) → Effect c (opened salt key c).1
unfolding opened
opened-Effect salt (ok sk) c = relogged c sk salt
opened-Effect salt (err e) c = same c
opened-Effect salt panic c = same c

subscribed-Effect : (answer : Go (Unit {0})) (c : Client) → Effect c (subscribed answer c).1
unfolding subscribed
subscribed-Effect (ok done) c = notified c true
subscribed-Effect (err e) c = notified c false
subscribed-Effect panic c = notified c true

module _ {T : Type 0} (aes : Aes) (transport : Transport T) where
  login-Effect :
      (rand_a salt : Go (List ℕ)) (name password : List ℕ) (c : Client) (t : T)
      → Effect c (login aes transport rand_a salt name password c t).1.0
  unfolding login
  login-Effect (err e) salt name password c t = same c
  login-Effect panic salt name password c t = same c
  login-Effect (ok rand_a) (err e) name password c t = same c
  login-Effect (ok rand_a) panic name password c t = same c
  login-Effect (ok rand_a) (ok salt) name password c t =
      opened-Effect salt (pair aes transport name password rand_a t).0 c

  pub send_counts :
      (cmd : Command) (c : Client) (t : T)
      → c.session.logged_in ≡ true
      → (send aes transport cmd c t).1.0 ≡ with_session c (next_sno c.session).1
  unfolding send
  send_counts cmd c t logged = rw logged refl

  send-Effect : (cmd : Command) (c : Client) (t : T) → Effect c (send aes transport cmd c t).1.0
  send-Effect cmd c t = elim (Bool-cases c.session.logged_in) [
    | inl logged ↦ subst (Effect c) (sym (send_counts cmd c t logged)) (counted c logged)
    | inr none ↦
        subst (λ r. Effect c r.1.0) (sym (send_refused aes transport cmd c t none)) (same c)
  ]

  pub subscribed_after :
      (c : Client) (t : T)
      → c.notify_active ≡ false
      → c.session.logged_in ≡ true
      → (notifications transport c t).1.0 ≡ (subscribed (transport.subscribe_notify t).0 c).1
  unfolding notifications
  subscribed_after c t idle logged = rw (idle, logged) refl

  notifications-Effect : (c : Client) (t : T) → Effect c (notifications transport c t).1.0
  notifications-Effect c t =
      let cases = notifications_cases transport c t t in
      elim (Bool-cases c.notify_active) [
        | inl active ↦ subst (λ r. Effect c r.1.0) (sym (cases.0 active)) (same c)
        | inr idle ↦ elim (Bool-cases c.session.logged_in) [
          | inl logged ↦
              subst (Effect c) (sym (subscribed_after c t idle logged))
                (subscribed-Effect (transport.subscribe_notify t).0 c)
          | inr none ↦ subst (λ r. Effect c r.1.0) (sym (cases.1 idle none)) (notified c false)
        ]
      ]

  pub Step-Effect : {c d : Client} → Step aes transport c d → Effect c d
  Step-Effect (logs_in rand_a salt name password c t) = login-Effect rand_a salt name password c t
  Step-Effect (sends cmd c t) = send-Effect cmd c t
  Step-Effect (subscribes c t) = notifications-Effect c t
  Step-Effect (stream_ends c) = unfold stream_ended in notified c false
  Step-Effect (closes c) = closed c
