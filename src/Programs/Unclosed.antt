-- ===== src/Programs/Unclosed.antt =====
-- ble/cmd/smoke, ble/cmd/smoke-linux and ble/cmd/listen: runs that fail behind an opened session.
use pigsydust.Prelude.{ℕ, true, Bool-cases, inl, inr, bytes_eq, List, [], ◌≡◌, ap, ◌∙◌, arith}
use pigsydust.Prelude.Go.{Go, ok, err, panic, Error, context}
use pigsydust.Crypto.{Aes}
use pigsydust.Command.Build.{set_utc}
use pigsydust.Client.{Client, with_session, next_sno}
use pigsydust.Client.Login.{send-decrypt}
use pigsydust.Ble.Link.{Connection, ble_transport, write_command, in_context}
use pigsydust.Ble.Adapter.{Adapter, scan, connect}
use pigsydust.Ble.Discovery.{ScanResult}
use pigsydust.Programs.Session.{after_clock, clock_sent}
use pigsydust.Programs.Ready.{IsReady, open_session-IsReady}
use pigsydust.Programs.Start.{Settings, Connector, mesh_filter, with_results, with_adapter, start}
use pigsydust.Programs.Counted.{set_utc-encode}
use pigsydust.Programs.Runs.{Arrival, listened, listen}

module _ {T : Type 0} (aes : Aes) (connector : Connector T) (st : Settings) where
  with_results-IsReady :
      (a : Adapter T) (r : Go (List ScanResult) × T) (conn : Connection T) (c : Client) (u : T)
      → with_results aes connector st a r ≡ (ok (conn, c), u)
      → IsReady c
  unfolding with_results
  with_results-IsReady a (ok results, t) conn c u e =
      open_session-IsReady aes (connector a) st.rand_a st.salt st.mesh_name st.password results conn
        c t u e
  with_results-IsReady a (err x, t) conn c u e = absurd (ground arith)
  with_results-IsReady a (panic, t) conn c u e = absurd (ground arith)

  with_adapter-IsReady :
      (r : Go (Adapter T) × T) (conn : Connection T) (c : Client) (u : T)
      → with_adapter aes connector st r ≡ (ok (conn, c), u)
      → IsReady c
  unfolding with_adapter
  with_adapter-IsReady (ok a, t) conn c u e =
      with_results-IsReady a (scan a (mesh_filter st.mesh_name) t) conn c u e
  with_adapter-IsReady (err x, t) conn c u e = absurd (ground arith)
  with_adapter-IsReady (panic, t) conn c u e = absurd (ground arith)

  -- A session that a program opened, with a password, an adapter, a scan and a node of any kind, is
  -- logged in and subscribed.
  pub start-IsReady :
      (new_adapter : T → Go (Adapter T) × T) (conn : Connection T) (c : Client) (t u : T)
      → start aes connector st new_adapter t ≡ (ok (conn, c), u)
      → IsReady c
  unfolding start
  start-IsReady new_adapter conn c t u = elim (Bool-cases (bytes_eq st.password [])) [
    | inl e ↦ rw (e) (λ h. absurd (ground arith))
    | inr e ↦ rw (e) (with_adapter-IsReady (new_adapter t) conn c u)
  ]

module _ {T : Type 0} (aes : Aes) where
  clock_refused :
      (conn : Connection T) (now : ℕ) (c : Client) (e : Error) (t v : T)
      → c.session.logged_in ≡ true
      → ((b : List ℕ) → conn.char_cmd.write_command b t ≡ (err e, v))
      → clock_sent aes now (ok (conn, c), t) ≡ (err (context e), v)
  unfolding clock_sent after_clock ble_transport write_command in_context
  clock_refused conn now c e t v logged refuses =
      let (plaintext, encoded) = set_utc-encode now in
      let (packet, sent, first, read) =
        send-decrypt aes (ble_transport conn) (set_utc now) c t plaintext logged encoded in
      ap (after_clock conn) (
        sent
        ∙ ap (λ g. (in_context g.0, (with_session c (next_sno c.session).1, g.1))) (refuses packet))

  -- When listen has opened its session and the node refuses the packet with the time, the program ends
  -- in the state that the refused write left: the connection is not closed.
  pub listen_unclosed :
      (st : Settings) (new_adapter : T → Go (Adapter T) × T) (arrivals : List Arrival)
      (conn : Connection T) (c : Client) (e : Error) (t u v : T)
      → start aes connect st new_adapter t ≡ (ok (conn, c), u)
      → ((b : List ℕ) → conn.char_cmd.write_command b u ≡ (err e, v))
      → listen aes new_adapter st arrivals t ≡ (err (context e), v)
  unfolding listen listened
  listen_unclosed st new_adapter arrivals conn c e t u v opened refuses =
      ap (λ o. listened aes arrivals (clock_sent aes st.now o)) opened
      ∙ ap (listened aes arrivals) (
          clock_refused conn st.now c e u v
            (start-IsReady aes connect st new_adapter conn c t u opened).logged refuses)
