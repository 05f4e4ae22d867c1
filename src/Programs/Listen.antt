-- ===== src/Programs/Listen.antt =====
-- ble/cmd/listen: counting the notifications by their opcodes.
use Prim.Native.String.{String}
use pigsydust.Prelude.{
  ℕ, ◌+◌, Bool, false, ◌==◌, if◌then◌else◌, List, [], ◌∷◌, ◌++◌, map, Option, none, some,
}
use pigsydust.Prelude.{Bool-cases, inl, inr, ==_iff, ◌≡◌, ap, arith}
use pigsydust.Prelude.Maps.{ℕ_key, get, put, get-put}
use pigsydust.Protocol.{op_notify_status_poll, op_notify_status_broadcast}
use pigsydust.Notification.{Notification}

-- What a round of the loop takes: the context's end, the end of the stream, or the timer, which all
-- leave it; or a notification, with whether the deadline has passed behind it.
pub data Heard : Type 0 where
  context_done stream_closed time_up : Heard
  heard : Notification → Bool → Heard

abbrev or_zero : Option ℕ → ℕ
or_zero none = 0
or_zero (some n) = n

unfoldable pub count_of : List (ℕ × ℕ) → ℕ → ℕ
count_of counts op = or_zero (get op counts)

-- `counts[n.Opcode]++`
unfoldable pub count : Notification → List (ℕ × ℕ) → List (ℕ × ℕ)
count n counts = put n.opcode (count_of counts n.opcode + 1) counts

unfoldable pub listen_loop : List (ℕ × ℕ) → List Heard → List (ℕ × ℕ)
listen_loop counts [] = counts
listen_loop counts (context_done ∷ rounds) = counts
listen_loop counts (stream_closed ∷ rounds) = counts
listen_loop counts (time_up ∷ rounds) = counts
listen_loop counts (heard n late ∷ rounds) =
    let rest = listen_loop (count n counts) rounds in if late then count n counts else rest

unfoldable pub opcode_name : ℕ → String
opcode_name op =
    if op == op_notify_status_poll
    then "status-poll"
    else if op == op_notify_status_broadcast
    then "status-broadcast"
    else "?"

abbrev pub occurrences : ℕ → List Notification → ℕ
occurrences op [] = 0
occurrences op (n ∷ ns) = (if n.opcode == op then 1 else 0) + occurrences op ns

count_of-count :
    (op : ℕ) (n : Notification) (counts : List (ℕ × ℕ))
    → count_of (count n counts) op ≡ count_of counts op + (if n.opcode == op then 1 else 0)
unfolding count_of count
count_of-count op n counts = elim (Bool-cases (n.opcode == op)) [
  | inl e ↦
      rw (get-put op n.opcode (count_of counts n.opcode + 1) counts, e)
        (ap (λ k. count_of counts k + 1) ((==_iff n.opcode op).0 e))
  | inr e ↦ rw (get-put op n.opcode (count_of counts n.opcode + 1) counts, e) (omega arith)
]

count_of-listen_loop_from :
    (op : ℕ) (ns : List Notification) (rounds : List Heard) (counts : List (ℕ × ℕ))
    → count_of (listen_loop counts (map (λ n. heard n false) ns ++ (time_up ∷ rounds))) op
      ≡ count_of counts op + occurrences op ns
unfolding listen_loop
count_of-listen_loop_from op [] rounds counts = omega arith
count_of-listen_loop_from op (n ∷ ns) rounds counts =
    omega
      (arith, count_of-listen_loop_from op ns rounds (count n counts), count_of-count op n counts)

-- When the time is up the summary has, for every opcode, the number of notifications with it that were
-- heard before, if the deadline had not passed behind one of them.
pub count_of-listen_loop :
    (op : ℕ) (ns : List Notification) (rounds : List Heard)
    → count_of (listen_loop [] (map (λ n. heard n false) ns ++ (time_up ∷ rounds))) op
      ≡ occurrences op ns
unfolding count_of get
count_of-listen_loop op ns rounds = omega (arith, count_of-listen_loop_from op ns rounds [])
