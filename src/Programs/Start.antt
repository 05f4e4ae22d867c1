-- ===== src/Programs/Start.antt =====
-- ble/cmd/smoke, ble/cmd/smoke-linux and ble/cmd/listen: the part that they share, from the test of
-- the password to a session. An error is what the program gives to `log.Fatal`, which ends it at once.
use pigsydust.Prelude.{ℕ, false, if◌then◌else◌, bytes_eq, List, []}
use pigsydust.Prelude.Go.{Go, ok, err, panic, no_password}
use pigsydust.Crypto.{Aes}
use pigsydust.Ble.Link.{Connection}
use pigsydust.Ble.Scan.{ScanFilter}
use pigsydust.Ble.Discovery.{ScanResult}
use pigsydust.Ble.Adapter.{Adapter, scan, stop_scan, connect}
use pigsydust.Programs.Session.{Opened, open_session}

-- The flags that are read, the two reads of `crypto/rand` by the login, and the clock.
pub record Settings : Type 0 where
  pub mesh_name : List ℕ
  pub password : List ℕ
  pub rand_a : Go (List ℕ)
  pub salt : Go (List ℕ)
  pub now : ℕ

-- How a program connects to the node that it picked: at once, or, as smoke-linux does, after it has
-- stopped the scan, whose error it drops.
abbrev pub Connector : Type 0 → Type 0
Connector T = Adapter T → ScanResult → T → Go (Connection T) × T

unfoldable pub connect_stopped : {T : Type 0} → Connector T
connect_stopped a r t = connect a r (stop_scan a t).1

abbrev pub mesh_filter : List ℕ → ScanFilter
mesh_filter name = record { mesh_name = name; network_id = 0; gateway_only = false }

-- `new_adapter` is the platform's `NewAdapter`.
module _ {T : Type 0} (aes : Aes) (connector : Connector T) (st : Settings) where
  unfoldable pub with_results : Adapter T → Go (List ScanResult) × T → Opened T
  with_results a (ok results, t) =
      open_session aes (connector a) st.rand_a st.salt st.mesh_name st.password results t
  with_results a (err e, t) = (err e, t)
  with_results a (panic, t) = (panic, t)

  unfoldable pub with_adapter : Go (Adapter T) × T → Opened T
  with_adapter (ok a, t) = with_results a (scan a (mesh_filter st.mesh_name) t)
  with_adapter (err e, t) = (err e, t)
  with_adapter (panic, t) = (panic, t)

  unfoldable pub start : (T → Go (Adapter T) × T) → T → Opened T
  start new_adapter t =
      if bytes_eq st.password [] then (err no_password, t) else with_adapter (new_adapter t)
