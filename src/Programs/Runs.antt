-- ===== src/Programs/Runs.antt =====
-- ble/cmd/smoke, ble/cmd/smoke-linux and ble/cmd/listen: whole runs. The packets that a run is given
-- are those that the subscription delivers meanwhile. A run that returns closes the connection by its
-- deferred calls; one that ends in `log.Fatal` does not come to them.
use Prim.Native.String.{String}
use pigsydust.Prelude.{ℕ, Bool, true, false, List, [], ◌∷◌, map, length, Option, none, some}
use pigsydust.Prelude.Go.{Go, ok, err, panic}
use pigsydust.Prelude.Maps.{ℕ_key, get}
use pigsydust.Crypto.{Aes}
use pigsydust.Client.{Client, Done, pump}
use pigsydust.Client.Delivery.{decoded}
use pigsydust.Notification.{Notification}
use pigsydust.Ble.Link.{Connection, ble_transport, close}
use pigsydust.Ble.Adapter.{Adapter, connect}
use pigsydust.Programs.Session.{Opened, clock_sent}
use pigsydust.Programs.Start.{Settings, connect_stopped, start}
use pigsydust.Programs.Collect.{Statuses, collect}
use pigsydust.Programs.Smoke.{mudroom_addr, smoke}
use pigsydust.Programs.Report.{Line, device_lines, unchanged}
use pigsydust.Programs.Listen.{
  Heard, context_done, stream_closed, time_up, heard, listen_loop, opcode_name,
}

-- What the loop of `listen` meets: the context's end, that of the stream, the timer, or a packet, with
-- whether the deadline has passed behind its notification.
pub data Arrival : Type 0 where
  interrupted ended elapsed : Arrival
  arrives : List ℕ → Bool → Arrival

unfoldable pub hear : Option Notification → Bool → List Heard → List Heard
hear none late rounds = rounds
hear (some n) late rounds = heard n late ∷ rounds

-- A line of the summary.
unfoldable pub summary_line : ℕ × ℕ → ℕ × String × ℕ
summary_line (op, c) = (op, opcode_name op, c)

-- What the smoke test prints, if it comes to that: the devices, whether the lamp was among them, and
-- whether it warns that the toggle has not shown.
pub record SmokeReport : Type 0 where
  pub devices : List Line
  pub found : Bool
  pub warned : Bool

unfoldable pub is_found {ℓ} : {A : Type ℓ} → Option A → Bool
is_found none = false
is_found (some a) = true

-- The warning, by the statuses at the first look and after the toggle.
unfoldable pub warns : Statuses → Statuses → Bool
warns early late = elim (get mudroom_addr early) [
  | none ↦ false
  | some mudroom ↦ unchanged mudroom.on (get mudroom_addr late)
]

unfoldable pub hears : Aes → Client → List Arrival → List Heard
hears aes c [] = []
hears aes c (interrupted ∷ arrivals) = context_done ∷ hears aes c arrivals
hears aes c (ended ∷ arrivals) = stream_closed ∷ hears aes c arrivals
hears aes c (elapsed ∷ arrivals) = time_up ∷ hears aes c arrivals
hears aes c (arrives pkt late ∷ arrivals) =
    hear (decoded aes c.session.key c.session.gw_mac pkt) late (hears aes c arrivals)

-- The end of smoke, by the answer of its commands.
unfoldable pub smoke_end :
    {T : Type 0} → Connection T → Statuses → Statuses → Go Done × (Client × T) → Go SmokeReport × T
smoke_end conn early late (ok done, (c, t)) = (
  ok (record {
    devices = device_lines early;
    found = is_found (get mudroom_addr early);
    warned = warns early late;
  }),
  (close conn t).1,
)
smoke_end conn early late (err e, (c, t)) = (err e, t)
smoke_end conn early late (panic, (c, t)) = (panic, t)

module _ {T : Type 0} (aes : Aes) where
  -- The end of smoke-linux, from the answer of sending the time: the number of notifications.
  unfoldable pub observed : List (List ℕ) → Opened T → Go ℕ × T
  observed packets (ok (conn, c), t) =
      (ok (length (pump aes c.session.key c.session.gw_mac packets)), (close conn t).1)
  observed packets (err e, t) = (err e, t)
  observed packets (panic, t) = (panic, t)

  unfoldable pub smoke_linux : (T → Go (Adapter T) × T) → Settings → List (List ℕ) → T → Go ℕ × T
  smoke_linux new_adapter st packets t =
      observed packets (clock_sent aes st.now (start aes connect_stopped st new_adapter t))

  -- The end of listen: the summary.
  unfoldable pub listened : List Arrival → Opened T → Go (List (ℕ × String × ℕ)) × T
  listened arrivals (ok (conn, c), t) =
      (ok (map summary_line (listen_loop [] (hears aes c arrivals))), (close conn t).1)
  listened arrivals (err e, t) = (err e, t)
  listened arrivals (panic, t) = (panic, t)

  unfoldable pub listen :
      (T → Go (Adapter T) × T) → Settings → List Arrival → T → Go (List (ℕ × String × ℕ)) × T
  listen new_adapter st arrivals t =
      listened arrivals (clock_sent aes st.now (start aes connect st new_adapter t))

  -- `before` arrives until the statuses are listed, and `after` until the lamp is looked at again.
  unfoldable pub smoked : ℕ → List (List ℕ) → List (List ℕ) → Opened T → Go SmokeReport × T
  smoked now before after (ok (conn, c), t) =
      let early = collect [] (pump aes c.session.key c.session.gw_mac before) in
      let late = collect early (pump aes c.session.key c.session.gw_mac after) in
      smoke_end conn early late (smoke aes (ble_transport conn) now early c t)
  smoked now before after (err e, t) = (err e, t)
  smoked now before after (panic, t) = (panic, t)

  unfoldable pub smoke_test :
      (T → Go (Adapter T) × T) → Settings → List (List ℕ) → List (List ℕ) → T → Go SmokeReport × T
  smoke_test new_adapter st before after t =
      smoked st.now before after (start aes connect st new_adapter t)
