-- ===== src/Client/Heartbeat.antt =====
-- client.go, heartbeatLoop: the reads that keep a connection alive.
use pigsydust.Prelude.{
  ℕ, zero, suc, Bool, true, false, if◌then◌else◌, List, [], ◌∷◌, ◌++◌, replicate, ◌≡◌, refl,
}
use pigsydust.Prelude.Int.{ℤ, pos, ltb_ℤ}
use pigsydust.Prelude.Go.{Go, ok, panic}
use pigsydust.Client.{Transport, heartbeat_tick}

-- What a round of the loop takes: the context's end or the ticker.
pub data Beat : Type 0 where
  stopped tick : Beat

module _ {T : Type 0} (transport : Transport T) where
  -- The loop over what its rounds take, and whether it has returned.
  unfoldable pub beat : List Beat → T → Bool × T
  beat [] t = (false, t)
  beat (stopped ∷ beats) t = (true, t)
  beat (tick ∷ beats) t = beat beats (heartbeat_tick transport t)

  -- `time.NewTicker` panics on an interval that is not positive.
  unfoldable pub heartbeat_loop : ℤ → List Beat → T → Go (Bool × T)
  heartbeat_loop interval beats t = if ltb_ℤ (pos 0) interval then ok (beat beats t) else panic

  abbrev pub ticked : ℕ → T → T
  ticked zero t = t
  ticked (suc n) t = ticked n (heartbeat_tick transport t)

  beat-stopped :
      (n : ℕ) (after : List Beat) (t : T)
      → beat (replicate n tick ++ (stopped ∷ after)) t ≡ (true, ticked n t)
  unfolding beat
  beat-stopped zero after t = refl
  beat-stopped (suc n) after t = beat-stopped n after (heartbeat_tick transport t)

  -- With a positive interval the loop returns once its context is done, which is what `Close` waits
  -- for, whatever the reads answered, and it has read once for each tick before.
  pub heartbeat_loop-stopped :
      (interval : ℤ) (n : ℕ) (after : List Beat) (t : T)
      → ltb_ℤ (pos 0) interval ≡ true
      → heartbeat_loop interval (replicate n tick ++ (stopped ∷ after)) t ≡ ok (true, ticked n t)
  unfolding heartbeat_loop
  heartbeat_loop-stopped interval n after t positive = rw (positive, beat-stopped n after t) refl
