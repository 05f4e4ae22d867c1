-- ===== src/Schedule/Countdown.antt =====
-- The countdown timer of schedule/alarm.go.
use pigsydust.Prelude.{ℕ, ◌/◌, ◌%◌, ◌^◌, ◌<◌, ◌≡◌, ◌≢◌, refl, arith, List, [], ◌∷◌, ==_false}
use pigsydust.Prelude.Go.{ok}
use pigsydust.Schedule.{
  id, repeat_mask, hour, minute, kind, duration, active, target, action, countdown,
}
use pigsydust.Schedule.Laws.{Reads}

-- For a duration that is not zero, the countdown reads back with the duration, its own identifier, no
-- fire time and the action OFF.
pub countdown-Reads :
    (tgt minutes : ℕ)
    → tgt < 2 ^ 16
    → minutes < 256
    → minutes ≢ 0
    → (r : List ℕ) × (countdown tgt minutes ≡ ok r)
      × Reads r (record {
        ident = 0xC9;
        repeat = 0;
        at_hour = 0;
        at_minute = 0;
        of_kind = 3;
        minutes = minutes;
        on_target = tgt;
        does = 0;
      })
unfolding countdown id repeat_mask hour minute kind duration action active
countdown-Reads tgt minutes ht hm ne = (_, rw (==_false minutes 0 ne) refl, fields)
  where
    fields :
        Reads
          (0xC9
            ∷ 0
            ∷ 0
            ∷ 0
            ∷ 3
            ∷ 0
            ∷ minutes
            ∷ 1
            ∷ tgt % 256
            ∷ tgt / 256 % 256
            ∷ 0
            ∷ 0
            ∷ 0
            ∷ 0
            ∷ 0
            ∷ 0
            ∷ [])
          (record {
            ident = 0xC9;
            repeat = 0;
            at_hour = 0;
            at_minute = 0;
            of_kind = 3;
            minutes = minutes;
            on_target = tgt;
            does = 0;
          })
    fields = record {
      shape = (refl, omega arith);
      id_read = refl;
      repeat_read = refl;
      hour_read = refl;
      minute_read = refl;
      kind_read = refl;
      duration_read = refl;
      target_read = unfold target in omega arith;
      action_read = refl;
      active_read = refl;
    }
