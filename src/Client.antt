-- ===== src/Client.antt =====
-- client.go and session.go: the session of one client with one node. The transport is a parameter:
-- its state is `T`, and each call answers and gives its next state.
pub mod Serial
pub mod Sized
pub mod Typed
pub mod Reachable
pub mod Login
pub mod Stream
pub mod Steps
pub mod Run
pub mod Race
pub mod Senders
pub mod Delivery
pub mod Delivered
pub mod Drain
pub mod Options
pub mod Heartbeat
use pigsydust.Prelude.{ℕ, ◌+◌, ◌%◌, Bool, true, false, not, if◌then◌else◌, List, [], ◌∷◌}
use pigsydust.Prelude.Go.{
  Go, ok, err, panic, ◌>>=◌, Error, bare, wrapped_both, context, already_subscribed,
}
use pigsydust.Prelude.Go.{err_not_logged_in, err_login_failed}
use pigsydust.Byteutil.{byte_at, zeros}
use pigsydust.Crypto.{Aes, command_nonce, encrypt}
use pigsydust.Crypto.Login.{build_login_request, parse_login_response, derive_session_key}
use pigsydust.Command.{Command, encode}
use pigsydust.Notification.{Notification, decrypt_notification}

pub record Session : Type 0 where
  pub key : List ℕ
  pub salt : List ℕ
  pub seq : ℕ
  pub gw_mac : List ℕ
  pub logged_in : Bool

-- `hb_once` tells whether `hbOnce` has run (then `hbCancel` is set), `hb_running` whether the loop
-- that it started still runs.
pub record Client : Type 0 where
  pub session : Session
  pub hb_once : Bool
  pub hb_running : Bool
  pub notify_active : Bool

-- What a call that answers only with its error returns.
abbrev pub Done : Type 0
Done = Unit

pub record Transport (T : Type 0) : Type 0 where
  pub write_pair : List ℕ → T → Go Done × T
  pub read_pair : T → Go (List ℕ) × T
  pub write_command : List ℕ → T → Go Done × T
  pub subscribe_notify : T → Go Done × T
  pub gateway_mac : T → List ℕ

-- `NewClient`: the zero session with the MAC address of the gateway.
unfoldable pub new_client : List ℕ → Client
new_client gw_mac = record {
  session = record { key = zeros 16; salt = zeros 2; seq = 0; gw_mac = gw_mac; logged_in = false };
  hb_once = false;
  hb_running = false;
  notify_active = false;
}

-- The serial number of a command, and the session after it; `seq` is a byte that wraps.
unfoldable pub next_sno : Session → List ℕ × Session
next_sno s = (
  s.seq ∷ byte_at s.salt 0 ∷ byte_at s.salt 1 ∷ [],
  record {
    key = s.key;
    salt = s.salt;
    seq = (s.seq + 1) % 256;
    gw_mac = s.gw_mac;
    logged_in = s.logged_in;
  },
)

-- `hbOnce.Do`: only the first call of a client's life starts the loop.
unfoldable pub start_heartbeat : Client → Client
start_heartbeat c = if c.hb_once then c else record {
  session = c.session;
  hb_once = true;
  hb_running = true;
  notify_active = c.notify_active;
}

abbrev pub with_session : Client → Session → Client
with_session c s = record {
  session = s;
  hb_once = c.hb_once;
  hb_running = c.hb_running;
  notify_active = c.notify_active;
}

abbrev pub with_notify : Client → Bool → Client
with_notify c b = record {
  session = c.session;
  hb_once = c.hb_once;
  hb_running = c.hb_running;
  notify_active = b;
}

-- `Close`: the loop is cancelled and awaited when one was ever started.
unfoldable pub close : Client → Client
close c =
    if c.hb_once
    then record {
      session = c.session;
      hb_once = c.hb_once;
      hb_running = false;
      notify_active = c.notify_active;
    }
    else c

-- The goroutine of `Notifications` over the packets that the transport delivers: a packet that does
-- not decrypt is dropped.
unfoldable pub pump : Aes → List ℕ → List ℕ → List (List ℕ) → List Notification
pump aes sk gw_mac [] = []
pump aes sk gw_mac (pkt ∷ packets) = elim (decrypt_notification aes sk gw_mac pkt) [
  | ok n ↦ n ∷ pump aes sk gw_mac packets
  | err e ↦ pump aes sk gw_mac packets
  | panic ↦ []
]

-- An error of the pairing exchange: `fmt.Errorf("%w: …: %w", ErrLoginFailed, err)`.
unfoldable pub login_failed {ℓ} : {A : Type ℓ} → Go A → Go A
login_failed (ok a) = ok a
login_failed (err e) = err (wrapped_both err_login_failed e)
login_failed panic = panic

-- The session that a derived key opens.
unfoldable pub opened : List ℕ → Go (List ℕ) → Client → Go Done × Client
opened salt (ok sk) c = (
  ok tt,
  start_heartbeat (
      with_session c
        (record { key = sk; salt = salt; seq = 0; gw_mac = c.session.gw_mac; logged_in = true })),
)
opened salt (err e) c = (err e, c)
opened salt panic c = (panic, c)

-- The end of `Notifications`, by the answer of the subscription.
unfoldable pub subscribed : Go Done → Client → Go (List ℕ × List ℕ) × Client
subscribed (ok done) c = (ok (c.session.key, c.session.gw_mac), with_notify c true)
subscribed (err e) c = (err (context e), with_notify c false)
subscribed panic c = (panic, with_notify c true)

-- The goroutine's deferred reset, when the stream ends.
unfoldable pub stream_ended : Client → Client
stream_ended c = with_notify c false

module _ {T : Type 0} (aes : Aes) (transport : Transport T) where
  -- The exchange of `Login` up to the session key, with the bytes that `crypto/rand` gave.
  unfoldable pub pair : List ℕ → List ℕ → List ℕ → T → Go (List ℕ) × T
  pair name password rand_a t =
      let written = transport.write_pair (build_login_request aes name password rand_a) t in
      let answer = transport.read_pair written.1 in
      elim written.0 [
        | err e ↦ (err (wrapped_both err_login_failed e), written.1)
        | panic ↦ (panic, written.1)
        | ok done ↦ (
          do
            resp ← login_failed answer.0
            rand_b ← login_failed (parse_login_response resp)
            ok (derive_session_key aes name password rand_a rand_b),
          answer.1,
        )
      ]

  -- `rand_a` and `salt` are what the two reads of `crypto/rand` return.
  unfoldable pub login :
      Go (List ℕ) → Go (List ℕ) → List ℕ → List ℕ → Client → T → Go Done × (Client × T)
  login (err e) salt name password c t = (err (context e), (c, t))
  login panic salt name password c t = (panic, (c, t))
  login (ok rand_a) (err e) name password c t = (err (context e), (c, t))
  login (ok rand_a) panic name password c t = (panic, (c, t))
  login (ok rand_a) (ok salt) name password c t =
      let exchanged = pair name password rand_a t in
      let session' = opened salt exchanged.0 c in (session'.0, (session'.1, exchanged.1))

  -- The end of `Send`: `encoded` is `cmd.Encode()`, which panics on a buffer too small.
  unfoldable pub transmit : List ℕ → List ℕ → List ℕ → Go (List ℕ) → T → Go Done × T
  transmit sk gw_mac sno (ok plaintext) t =
      transport.write_command (encrypt aes sk (command_nonce gw_mac sno) sno plaintext) t
  transmit sk gw_mac sno (err e) t = (err e, t)
  transmit sk gw_mac sno panic t = (panic, t)

  unfoldable pub send : Command → Client → T → Go Done × (Client × T)
  send cmd c t =
      if not c.session.logged_in
      then (err (bare err_not_logged_in), (c, t))
      else let numbered = next_sno c.session in
        let written = transmit c.session.key c.session.gw_mac numbered.0 (encode cmd) t in
        (written.0, (with_session c numbered.1, written.1))

module _ {T : Type 0} (transport : Transport T) where
  -- `Notifications` up to the start of its goroutine: the answer is the key and the gateway that the
  -- goroutine decrypts with.
  unfoldable pub notifications : Client → T → Go (List ℕ × List ℕ) × (Client × T)
  notifications c t =
      if c.notify_active
      then (err already_subscribed, (c, t))
      else if not c.session.logged_in
      then (err (bare err_not_logged_in), (with_notify c false, t))
      else let subscription = transport.subscribe_notify t in
        let started = subscribed subscription.0 c in (started.0, (started.1, subscription.1))

  -- One tick of the heartbeat loop: the answer of the read is dropped.
  unfoldable pub heartbeat_tick : T → T
  heartbeat_tick t = (transport.read_pair t).1
