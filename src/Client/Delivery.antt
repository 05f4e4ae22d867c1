-- ===== src/Client/Delivery.antt =====
-- client.go: the goroutine of `Notifications` between the transport's channel and its own, with its
-- context, as a step relation.
use pigsydust.Prelude.{ℕ, ◌<◌, ◌⊎◌, ◌≡◌, Bool, true, false, List, [], ◌∷◌, ◌++◌, length}
use pigsydust.Prelude.{Option, none, some}
use pigsydust.Prelude.Go.{Go, ok, err, panic}
use pigsydust.Crypto.{Aes}
use pigsydust.Notification.{Notification, decrypt_notification}

-- `raw` are the packets in the transport's channel and `queue` the notifications in the channel `out`;
-- `pending` is one that the goroutine waits to send. `taken` and `received` record what the goroutine
-- has taken from the one, and the client's user from the other.
pub record Pipe : Type 0 where
  pub raw : List (List ℕ)
  pub raw_closed : Bool
  pub cancelled : Bool
  pub pending : Option Notification
  pub queue : List Notification
  pub running : Bool
  pub notify_active : Bool
  pub taken : List (List ℕ)
  pub received : List Notification

-- `make(chan Notification, 64)`
abbrev pub out_size : ℕ
out_size = 64

-- Decrypting does not panic; an error is logged and the packet dropped.
unfoldable pub kept : Go Notification → Option Notification
kept (ok n) = some n
kept (err e) = none
kept panic = none

module _ (aes : Aes) (sk gw_mac : List ℕ) where
  unfoldable pub decoded : List ℕ → Option Notification
  decoded pkt = kept (decrypt_notification aes sk gw_mac pkt)

  pub data Step : Pipe → Pipe → Type 0 where
    -- the transport
    delivers :
        (s : Pipe) (pkt : List ℕ)
        → s.raw_closed ≡ false
        → Step s (record s { raw = s.raw ++ (pkt ∷ []) })
    closes : (s : Pipe) → s.raw_closed ≡ false → Step s (record s { raw_closed = true })
    -- the context
    cancels : (s : Pipe) → Step s (record s { cancelled = true })
    -- the goroutine: a packet, a send when there is room, and the return, behind the context's end or
    -- that of the transport's channel
    takes :
        (s : Pipe) (pkt : List ℕ) (rest : List (List ℕ))
        → s.running ≡ true
        → s.pending ≡ none
        → s.raw ≡ pkt ∷ rest
        → Step s (record s { raw = rest; pending = decoded pkt; taken = s.taken ++ (pkt ∷ []) })
    hands_on :
        (s : Pipe) (n : Notification)
        → s.running ≡ true
        → s.pending ≡ some n
        → length s.queue < out_size
        → Step s (record s { pending = none; queue = s.queue ++ (n ∷ []) })
    returns :
        (s : Pipe)
        → s.running ≡ true
        → (s.cancelled ≡ true) ⊎ ((s.pending ≡ none) × ((s.raw ≡ []) × (s.raw_closed ≡ true)))
        → Step s (record s { pending = none; running = false; notify_active = false })
    -- the client's user
    receives :
        (s : Pipe) (n : Notification) (rest : List Notification)
        → s.queue ≡ n ∷ rest
        → Step s (record s { queue = rest; received = s.received ++ (n ∷ []) })

  -- What follows by any number of steps.
  pub data Reaches : Pipe → Pipe → Type 0 where
    here : (s : Pipe) → Reaches s s
    there : {s t u : Pipe} → Step s t → Reaches t u → Reaches s u

-- A subscription that has just been made.
abbrev pub fresh_pipe : Pipe
fresh_pipe = record {
  raw = [];
  raw_closed = false;
  cancelled = false;
  pending = none;
  queue = [];
  running = true;
  notify_active = true;
  taken = [];
  received = [];
}
