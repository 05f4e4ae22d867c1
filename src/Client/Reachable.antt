-- ===== src/Client/Reachable.antt =====
-- client.go, session.go: the arrays of every reachable session, and the packets sent.
use pigsydust.Prelude.{
  ℕ, ◌+◌, true, Bool-cases, inl, inr, List, All, ◌≡◌, refl, sym, ap, ◌∙◌, subst,
}
use pigsydust.Prelude.Go.{Go, ok}
use pigsydust.Byteutil.{IsByte, IsArray}
use pigsydust.Crypto.{Aes, IsCipher}
use pigsydust.Command.{Command, encode}
use pigsydust.Client.{
  Client, Transport, Done, new_client, next_sno, stream_ended, notifications, with_session, send,
}
use pigsydust.Client.Login.{send_refused}
use pigsydust.Client.Stream.{notifications_cases}
use pigsydust.Client.Steps.{
  Step, logs_in, sends, subscribes, stream_ends, closes, Reaches, here, there, send_counts,
  subscribed_after,
}
use pigsydust.Client.Sized.{sent_packet-IsArray, IsTyped, new_client-IsTyped}
use pigsydust.Client.Typed.{
  IsGiven, closed_session, subscribed_session, next_sno-IsTyped, login-IsTyped,
}

module _ {T : Type 0} (aes : Aes) (cipher : IsCipher aes) (transport : Transport T)
    (reads : (t : T) (b : List ℕ) → (transport.read_pair t).0 ≡ ok b → All IsByte b) where
  send-IsTyped :
      (cmd : Command) (c : Client) (t : T)
      → IsTyped c.session
      → IsTyped (send aes transport cmd c t).1.0.session
  send-IsTyped cmd c t h = elim (Bool-cases c.session.logged_in) [
    | inl logged ↦
        subst (λ (d : Client). IsTyped d.session) (sym (send_counts aes transport cmd c t logged))
          (next_sno-IsTyped c.session h)
    | inr none ↦
        subst (λ (r : Go Done × (Client × T)). IsTyped r.1.0.session)
          (sym (send_refused aes transport cmd c t none)) h
  ]

  notifications_session :
      (c : Client) (t : T) → (notifications transport c t).1.0.session ≡ c.session
  notifications_session c t =
      let cases = notifications_cases transport c t t in
      elim (Bool-cases c.notify_active) [
        | inl active ↦
            ap (λ (r : Go (List ℕ × List ℕ) × (Client × T)). r.1.0.session) (cases.0 active)
        | inr idle ↦ elim (Bool-cases c.session.logged_in) [
          | inl logged ↦
              ap (λ (d : Client). d.session) (subscribed_after aes transport c t idle logged)
              ∙ subscribed_session (transport.subscribe_notify t).0 c
          | inr none ↦
              ap (λ (r : Go (List ℕ × List ℕ) × (Client × T)). r.1.0.session) (cases.1 idle none)
        ]
      ]

  -- The logins of a run are given arrays and bytes.
  abbrev pub StepGiven : {c d : Client} → Step aes transport c d → Type 0
  StepGiven (logs_in rand_a salt name password c t) = IsGiven rand_a salt name password
  StepGiven (sends cmd c t) = Unit
  StepGiven (subscribes c t) = Unit
  StepGiven (stream_ends c) = Unit
  StepGiven (closes c) = Unit

  abbrev pub RunGiven : {c d : Client} → Reaches aes transport c d → Type 0
  RunGiven (here c) = Unit
  RunGiven (there run step) = RunGiven run × StepGiven step

  Step-IsTyped :
      {c d : Client} (step : Step aes transport c d)
      → StepGiven step
      → IsTyped c.session
      → IsTyped d.session
  Step-IsTyped (logs_in rand_a salt name password c t) g h =
      login-IsTyped aes cipher transport reads rand_a salt name password c t g h
  Step-IsTyped (sends cmd c t) g h = send-IsTyped cmd c t h
  Step-IsTyped (subscribes c t) g h = subst IsTyped (sym (notifications_session c t)) h
  Step-IsTyped (stream_ends c) g h = unfold stream_ended in h
  Step-IsTyped (closes c) g h = subst IsTyped (sym (closed_session c)) h

  -- Every session that any calls reach from a new client holds what its types say, 16 bytes of key,
  -- 2 of salt, a byte of counter and 6 of address: when AES takes 16 bytes to 16 bytes, the transport
  -- reads bytes, the gateway has six, and each login is given arrays of random bytes, and a name and a
  -- password of bytes.
  pub Reaches-IsTyped :
      (gw_mac : List ℕ) {d : Client}
      → IsArray 6 gw_mac
      → (run : Reaches aes transport (new_client gw_mac) d) → RunGiven run
      → IsTyped d.session
  Reaches-IsTyped gw_mac gw run = from run refl
    where
      from :
          {c d : Client} (run : Reaches aes transport c d)
          → c ≡ new_client gw_mac
          → RunGiven run
          → IsTyped d.session
      from (here c) e g =
          subst (λ (x : Client). IsTyped x.session) (sym e) (new_client-IsTyped gw_mac gw)
      from (there run step) e (before, now) = Step-IsTyped step now (from run e before)

  -- When AES takes 16 bytes to 16 bytes, the transport reads bytes, the gateway has six, and each login
  -- is given arrays of random bytes, and a name and a password of bytes: a client that any calls reach
  -- from a new one, and that is logged in, sends a command with an encoding, whose payload is bytes, as
  -- one packet, five bytes longer than the command's plaintext and all bytes.
  pub reachable_packet-IsArray :
      (gw_mac : List ℕ) {d : Client}
      → IsArray 6 gw_mac
      → (run : Reaches aes transport (new_client gw_mac) d) → RunGiven run
      → (cmd : Command) (t : T) (plaintext : List ℕ) → All IsByte cmd.payload
      → d.session.logged_in ≡ true
      → encode cmd ≡ ok plaintext
      → (packet : List ℕ) × (IsArray (5 + cmd.plaintext_len) packet
          × (send aes transport cmd d t ≡ (
            (transport.write_command packet t).0,
            (with_session d (next_sno d.session).1, (transport.write_command packet t).1),
          )))
  reachable_packet-IsArray gw_mac {d} gw run given cmd t plaintext bytes logged encoded =
      sent_packet-IsArray aes cipher transport cmd d t plaintext
        (Reaches-IsTyped gw_mac gw run given) bytes logged encoded
