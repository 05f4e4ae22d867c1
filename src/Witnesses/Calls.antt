-- ===== src/Witnesses/Calls.antt =====
-- Two calls of `Send` at once.
use pigsydust.Prelude.{ℕ, ◌<◌, true, List, [], ◌∷◌, get_or, ◌≡◌, ◌≢◌, refl, arith}
use pigsydust.Prelude.Go.{ok}
use pigsydust.Command.{Command}
use pigsydust.Command.Build.{on_off}
use pigsydust.Client.{with_session, next_sno}
use pigsydust.Client.Race.{send_begin}
use pigsydust.Client.Serial.{serial}
use pigsydust.Client.Senders.{
  waiting, begun, numbered, Shared, fresh_calls, begins, numbers, here, there, drawn-serial,
}
use pigsydust.Witnesses.Data.{toy, node, open_client, key_bytes, gateway}

abbrev lamp_on : Command
lamp_on = on_off 0x0030 true

abbrev lamp_off : Command
lamp_off = on_off 0x0031 true

abbrev start : Shared (List (List ℕ))
start = fresh_calls open_client [] (waiting lamp_on ∷ waiting lamp_off ∷ [])

copied : send_begin open_client ≡ ok (key_bytes, gateway)
unfolding send_begin
copied = refl

-- The first call begins, the second begins and draws its number, and the first draws the next one.
abbrev one_begun : Shared (List (List ℕ))
one_begun = record start {
  senders = begun lamp_on (send_begin open_client) ∷ waiting lamp_off ∷ [];
}

abbrev both_begun : Shared (List (List ℕ))
both_begun = record start {
  senders = begun lamp_on (send_begin open_client) ∷ begun lamp_off (send_begin open_client) ∷ [];
}

abbrev one_drawn : Shared (List (List ℕ))
one_drawn = record start {
  client = with_session open_client (next_sno open_client.session).1;
  senders =
      begun lamp_on (send_begin open_client)
      ∷ numbered lamp_off key_bytes gateway (next_sno open_client.session).0
      ∷ [];
  drawn = (next_sno open_client.session).0 ∷ [];
}

abbrev both_drawn : Shared (List (List ℕ))
both_drawn = record start {
  client = with_session one_drawn.client (next_sno one_drawn.client.session).1;
  senders =
      numbered lamp_on key_bytes gateway (next_sno one_drawn.client.session).0
      ∷ numbered lamp_off key_bytes gateway (next_sno open_client.session).0
      ∷ [];
  drawn = (next_sno open_client.session).0 ∷ (next_sno one_drawn.client.session).0 ∷ [];
}

drawn-serial_example :
    ((i : ℕ) → i < 2 → get_or both_drawn.drawn i [] ≡ serial i open_client.session)
    × ((i j : ℕ)
        → i < j
        → j < 2
        → j < 256
        → get_or both_drawn.drawn i [] ≢ get_or both_drawn.drawn j [])
unfolding send_begin
drawn-serial_example =
    drawn-serial toy node open_client [] (waiting lamp_on ∷ waiting lamp_off ∷ []) {s = both_drawn}
      (omega arith)
      (there
        (there
          (there (there (here start) (begins start [] (waiting lamp_off ∷ []) lamp_on refl))
            (begins one_begun (begun lamp_on (send_begin open_client) ∷ []) [] lamp_off refl))
          (numbers both_begun (begun lamp_on (send_begin open_client) ∷ []) [] lamp_off key_bytes
            gateway refl))
        (numbers one_drawn []
          (numbered lamp_off key_bytes gateway (next_sno open_client.session).0 ∷ []) lamp_on
          key_bytes gateway refl))
