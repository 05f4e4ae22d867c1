-- ===== src/Schedule/Outcomes.antt =====
-- schedule/alarm.go: exactly when the builders return which error.
use pigsydust.Prelude.{ℕ, ◌<◌, ◌≤◌, ◌≡◌, ◌≢◌, ◌↔◌, ◌⊎◌, arith}
use pigsydust.Prelude.Go.{err, no_weekday, transition_kind, hour_range, minute_range}
use pigsydust.Schedule.{kind_flick, kind_gradual, build, recurring, transition}

-- A recurring alarm fails with the missing weekday exactly for a zero mask, else with the hour
-- exactly when it is above 23, else with the minute exactly when it is above 59.
pub recurring_errors :
    (ident tgt h m repeat act : ℕ)
    → ((recurring ident tgt h m repeat act ≡ err no_weekday) ↔ (repeat ≡ 0))
      × ((recurring ident tgt h m repeat act ≡ err (hour_range h)) ↔ ((repeat ≢ 0) × (23 < h)))
      × ((recurring ident tgt h m repeat act ≡ err (minute_range m))
          ↔ ((repeat ≢ 0) × (h ≤ 23) × (59 < m)))
unfolding recurring build
recurring_errors ident tgt h m repeat act = ground arith

-- A transition fails with its kind exactly when that is neither flick nor gradual, else with the hour
-- exactly when it is above 23, else with the minute exactly when it is above 59.
pub transition_errors :
    (ident tgt h m repeat k speed act : ℕ)
    → ((transition ident tgt h m repeat k speed act ≡ err (transition_kind k))
        ↔ ((k ≢ kind_flick) × (k ≢ kind_gradual)))
      × ((transition ident tgt h m repeat k speed act ≡ err (hour_range h))
          ↔ (((k ≡ kind_flick) ⊎ (k ≡ kind_gradual)) × (23 < h)))
      × ((transition ident tgt h m repeat k speed act ≡ err (minute_range m))
          ↔ (((k ≡ kind_flick) ⊎ (k ≡ kind_gradual)) × (h ≤ 23) × (59 < m)))
unfolding transition build
transition_errors ident tgt h m repeat k speed act = ground arith
