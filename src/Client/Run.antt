-- ===== src/Client/Run.antt =====
-- client.go: what every reachable client satisfies.
use pigsydust.Prelude.{ℕ, ◌<◌, ◌≡◌, refl, arith, List, Bool, true, false}
use pigsydust.Prelude.{subst, sym, ap, ◌∙◌}
use pigsydust.Crypto.{Aes}
use pigsydust.Client.{Session, Client, Transport, new_client, next_sno, start_heartbeat, close}
use pigsydust.Client.Steps.{Reaches, here, there, Effect, same, relogged, counted, notified}
use pigsydust.Client.Steps.{closed, new_session, Step-Effect}

-- The invariant of a client: the heartbeat runs only if it was started, a session is open only if
-- the heartbeat was started, and the counter is a byte.
pub record IsSound (c : Client) : Type 0 where
  pub running_once : c.hb_running ≡ true → c.hb_once ≡ true
  pub logged_once : c.session.logged_in ≡ true → c.hb_once ≡ true
  pub counter : c.session.seq < 256

-- A client by its four fields.
abbrev client_of : Session → Bool → Bool → Bool → Client
client_of s o r n = record { session = s; hb_once = o; hb_running = r; notify_active = n }

started-IsSound :
    (s : Session) (o r n : Bool) → s.seq < 256 → IsSound (start_heartbeat (client_of s o r n))
unfolding start_heartbeat
started-IsSound s true r n h = record {
  running_once = λ e. refl;
  logged_once = λ e. refl;
  counter = h;
}
started-IsSound s false r n h = record {
  running_once = λ e. refl;
  logged_once = λ e. refl;
  counter = h;
}

closed-IsSound :
    (s : Session) (o r n : Bool) → IsSound (client_of s o r n) → IsSound (close (client_of s o r n))
unfolding close
closed-IsSound s true r n h = record {
  running_once = λ e. refl;
  logged_once = λ e. refl;
  counter = h.counter;
}
closed-IsSound s false r n h = h

Effect-IsSound : {c d : Client} → Effect c d → IsSound c → IsSound d
Effect-IsSound (same c) s = s
Effect-IsSound (counted c logged) s = record {
  running_once = s.running_once;
  logged_once = unfold next_sno in s.logged_once;
  counter = unfold next_sno in omega arith;
}
Effect-IsSound (notified c b) s = record {
  running_once = s.running_once;
  logged_once = s.logged_once;
  counter = s.counter;
}
Effect-IsSound (relogged c sk salt) s =
    started-IsSound (new_session c sk salt) c.hb_once c.hb_running c.notify_active (omega arith)
Effect-IsSound (closed c) s = closed-IsSound c.session c.hb_once c.hb_running c.notify_active s

-- The heartbeat of a client has been started and does not run.
abbrev pub IsStopped : Client → Type 0
IsStopped c = (c.hb_once ≡ true) × (c.hb_running ≡ false)

started-IsStopped :
    (s : Session) (o r n : Bool)
    → o ≡ true
    → r ≡ false
    → IsStopped (start_heartbeat (client_of s o r n))
unfolding start_heartbeat
started-IsStopped s true r n ho hr = (refl, hr)
started-IsStopped s false r n ho hr = absurd (ground arith)

closed-IsStopped : (s : Session) (o r n : Bool) → o ≡ true → IsStopped (close (client_of s o r n))
unfolding close
closed-IsStopped s true r n ho = (refl, refl)
closed-IsStopped s false r n ho = absurd (ground arith)

Effect-IsStopped : {c d : Client} → Effect c d → IsStopped c → IsStopped d
Effect-IsStopped (same c) s = s
Effect-IsStopped (counted c logged) s = s
Effect-IsStopped (notified c b) s = s
Effect-IsStopped (relogged c sk salt) (o, r) =
    started-IsStopped (new_session c sk salt) c.hb_once c.hb_running c.notify_active o r
Effect-IsStopped (closed c) (o, r) =
    closed-IsStopped c.session c.hb_once c.hb_running c.notify_active o

Effect-gateway : {c d : Client} → Effect c d → d.session.gw_mac ≡ c.session.gw_mac
Effect-gateway (same c) = refl
Effect-gateway (counted c logged) = unfold next_sno in refl
Effect-gateway (notified c b) = refl
Effect-gateway (relogged c sk salt) = by_once c.hb_once
  where
    by_once :
        (o : Bool)
        → (start_heartbeat
            (client_of (new_session c sk salt) o c.hb_running c.notify_active)).session.gw_mac
          ≡ c.session.gw_mac
    by_once true = unfold start_heartbeat in refl
    by_once false = unfold start_heartbeat in refl
Effect-gateway (closed c) = by_once c.hb_once
  where
    by_once :
        (o : Bool)
        → (close (client_of c.session o c.hb_running c.notify_active)).session.gw_mac
          ≡ c.session.gw_mac
    by_once true = unfold close in refl
    by_once false = unfold close in refl

module _ {T : Type 0} (aes : Aes) (transport : Transport T) where
  -- Every client that any calls reach from a new one is sound: the heartbeat runs only if it was
  -- started, a session is open only if it was started, and the counter is a byte. And the gateway is
  -- the one that the client was made with.
  pub reachable-IsSound :
      (gw_mac : List ℕ) {c d : Client}
      → Reaches aes transport c d
      → c ≡ new_client gw_mac
      → IsSound d × (d.session.gw_mac ≡ gw_mac)
  reachable-IsSound gw_mac (here c) e = (
    subst IsSound (sym e) fresh,
    ap (λ (x : Client). x.session.gw_mac) e ∙ unfold new_client in refl,
  )
    where
      fresh : IsSound (new_client gw_mac)
      fresh =
          unfold new_client in
          record {
            running_once = λ h. absurd (ground arith);
            logged_once = λ h. absurd (ground arith);
            counter = omega arith;
          }
  reachable-IsSound gw_mac (there run step) e =
      let before = reachable-IsSound gw_mac run e in
      let effect = Step-Effect aes transport step in
      (Effect-IsSound effect before.0, Effect-gateway effect ∙ before.1)

  -- Once `close` has stopped the heartbeat of a client whose heartbeat was started, it does not run
  -- after any further calls, another successful `login` included.
  pub heartbeat_stays_stopped :
      (c : Client) {d : Client}
      → c.hb_once ≡ true
      → Reaches aes transport (close c) d
      → d.hb_running ≡ false
  heartbeat_stays_stopped c once run =
      (stays run (closed-IsStopped c.session c.hb_once c.hb_running c.notify_active once)).1
    where
      stays : {a b : Client} → Reaches aes transport a b → IsStopped a → IsStopped b
      stays (here c) s = s
      stays (there run step) s = Effect-IsStopped (Step-Effect aes transport step) (stays run s)
