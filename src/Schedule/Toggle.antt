-- ===== src/Schedule/Toggle.antt =====
-- The enable toggle of schedule/alarm.go.
use pigsydust.Prelude.{ℕ, zero, suc, ◌≡◌, ◌≢◌, refl, sym, ap, Bool, true, false, not, List, [], ◌∷◌}
use pigsydust.Prelude.{length, set, subst, eq-tabulate, tabulate, ◌==◌, if◌then◌else◌}
use pigsydust.Byteutil.{byte_at}
use pigsydust.Schedule.{active, set_active}

-- On a 16-byte record, enabling or disabling answers to `active` with the new state, changes no other
-- byte than byte 7, and the last write counts.
pub set_active_lem :
    (r : List ℕ) (on off : Bool) (i : ℕ)
    → length r ≡ 16
    → i ≢ 7
    → (active (set_active r on) ≡ on)
      × (byte_at (set_active r on) i ≡ byte_at r i)
      × (set_active (set_active r off) on ≡ set_active r on)
unfolding set_active active
set_active_lem r on off i h ne =
    subst
      (λ r.
        (active (set_active r on) ≡ on)
        × (byte_at (set_active r on) i ≡ byte_at r i)
        × (set_active (set_active r off) on ≡ set_active r on))
      (sym (eq-tabulate 0 16 r h))
      (state on, other (tabulate 16 (byte_at r)) 7 (if on then 0x01 else 0x00) i ne, refl)
  where
    state : (on : Bool) → not ((if on then 0x01 else 0x00) == 0) ≡ on
    state true = refl
    state false = refl

    other : (r : List ℕ) (j v : ℕ) (i : ℕ) → i ≢ j → byte_at (set r j v) i ≡ byte_at r i
    other [] j v i ne = refl
    other (x ∷ r) zero v zero ne = absurd (ne refl)
    other (x ∷ r) zero v (suc i) ne = refl
    other (x ∷ r) (suc j) v zero ne = refl
    other (x ∷ r) (suc j) v (suc i) ne = other r j v i (λ e. ne (ap suc e))
