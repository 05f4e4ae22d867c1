-- ===== src/Schedule/Laws.antt =====
-- The alarm builders: what a built record reads back as, the errors, and the enable toggle.
use pigsydust.Prelude.{ℕ, ◌/◌, ◌%◌, ◌^◌, ◌<◌, ◌≤◌, ◌≡◌, ◌≢◌, ◌⊎◌, refl, ◌∙◌}
use pigsydust.Prelude.{arith, true, false, not, ◌&&◌, List, [], ◌∷◌}
use pigsydust.Prelude.{ltb, ==_false, ◌==◌}
use pigsydust.Prelude.Go.{ok}
use pigsydust.Bits.{and_mask}
use pigsydust.Byteutil.{IsArray, byte_at}
use pigsydust.Schedule.{id, repeat_mask, hour, minute, kind, duration, active, target, action}
use pigsydust.Schedule.{build, one_shot, recurring, transition}
use pigsydust.Schedule.{kind_flick, kind_gradual}

-- The fields that an alarm is made of.
pub record Alarm : Type 0 where
  pub ident : ℕ
  pub repeat : ℕ
  pub at_hour : ℕ
  pub at_minute : ℕ
  pub of_kind : ℕ
  pub minutes : ℕ
  pub on_target : ℕ
  pub does : ℕ

-- A 16-byte record whose accessors answer with the fields of the alarm, and which is enabled.
pub record Reads (r : List ℕ) (a : Alarm) : Type 0 where
  pub shape : IsArray 16 r
  pub id_read : id r ≡ a.ident
  pub repeat_read : repeat_mask r ≡ a.repeat
  pub hour_read : hour r ≡ a.at_hour
  pub minute_read : minute r ≡ a.at_minute
  pub kind_read : kind r ≡ a.of_kind
  pub duration_read : duration r ≡ a.minutes
  pub target_read : target r ≡ a.on_target
  pub action_read : action r ≡ a.does
  pub active_read : active r ≡ true

-- The built record, written out.
abbrev laid_out : ℕ → ℕ → ℕ → ℕ → ℕ → ℕ → ℕ → ℕ → List ℕ
laid_out ident repeat h m k speed tgt act =
    ident
    ∷ repeat
    ∷ h
    ∷ m
    ∷ k
    ∷ speed
    ∷ 0
    ∷ 1
    ∷ tgt % 256
    ∷ tgt / 256 % 256
    ∷ 0
    ∷ 0
    ∷ 0xFF
    ∷ 0xFF
    ∷ 0xFF
    ∷ act
    ∷ []

build_ok :
    (ident repeat h m k speed tgt act : ℕ)
    → h ≤ 23
    → m ≤ 59
    → build ident repeat h m k speed tgt act ≡ ok (laid_out ident repeat h m k speed tgt act)
unfolding build
build_ok ident repeat h m k speed tgt act hh hm = rw (not_lt 23 h hh, not_lt 59 m hm) refl
  where
    not_lt : (b x : ℕ) → x ≤ b → ltb b x ≡ false
    not_lt b x le = ground arith

laid_out-Reads :
    (ident repeat h m k speed tgt act : ℕ)
    → ident < 256
    → repeat < 256
    → h ≤ 23
    → m ≤ 59
    → k < 256
    → speed < 256
    → tgt < 2 ^ 16
    → act < 256
    → Reads (laid_out ident repeat h m k speed tgt act) (record {
      ident = ident;
      repeat = repeat;
      at_hour = h;
      at_minute = m;
      of_kind = k;
      minutes = 0;
      on_target = tgt;
      does = act;
    })
unfolding id repeat_mask hour minute kind duration active target action
laid_out-Reads ident repeat h m k speed tgt act b0 b1 b2 b3 b4 b5 b8 b15 = record {
  shape = (refl, omega arith);
  id_read = refl;
  repeat_read = refl;
  hour_read = refl;
  minute_read = refl;
  kind_read = refl;
  duration_read = refl;
  target_read = omega arith;
  action_read = refl;
  active_read = refl;
}

module _ (ident tgt h m act : ℕ) where
  -- The arguments that are in range: a fire time, and bytes or a uint16 elsewhere.
  abbrev pub InRange : Type 0
  InRange = (ident < 256) × (tgt < 2 ^ 16) × (h ≤ 23) × (m ≤ 59) × (act < 256)

  -- A one-shot alarm reads back with its own fields and no weekday.
  pub one_shot-Reads :
      InRange
      → (r : List ℕ) × (one_shot ident tgt h m act ≡ ok r)
        × Reads r (record {
          ident = ident;
          repeat = 0;
          at_hour = h;
          at_minute = m;
          of_kind = 0;
          minutes = 0;
          on_target = tgt;
          does = act;
        })
  unfolding one_shot
  one_shot-Reads (b0, b8, b2, b3, b15) = (
    laid_out ident 0 h m 0 0 tgt act,
    build_ok ident 0 h m 0 0 tgt act b2 b3,
    laid_out-Reads ident 0 h m 0 0 tgt act b0 (omega arith) b2 b3 (omega arith) (omega arith) b8
        b15,
  )

  -- For fields in range (hour at most 23, minute at most 59) and a mask that is not zero, a recurring
  -- alarm is built and reads back with its own fields; the mask keeps its seven low bits.
  pub recurring-Reads :
      (repeat : ℕ)
      → InRange
      → repeat ≢ 0
      → (r : List ℕ) × (recurring ident tgt h m repeat act ≡ ok r)
        × Reads r (record {
          ident = ident;
          repeat = repeat % 128;
          at_hour = h;
          at_minute = m;
          of_kind = 0;
          minutes = 0;
          on_target = tgt;
          does = act;
        })
  unfolding recurring
  recurring-Reads repeat (b0, b8, b2, b3, b15) ne = (
    laid_out ident (repeat % 128) h m 0 0 tgt act,
    rw (==_false repeat 0 ne, and_mask 7 repeat)
        (build_ok ident (repeat % 128) h m 0 0 tgt act b2 b3),
    laid_out-Reads ident (repeat % 128) h m 0 0 tgt act b0 (omega arith) b2 b3 (omega arith)
        (omega arith) b8 b15,
  )

  -- For fields in range and the kind flick or gradual, a transition is built and reads back with its
  -- own fields, its kind, the seven low bits of its mask, and its speed in byte 5.
  pub transition-Reads :
      (repeat k speed : ℕ)
      → InRange
      → (k ≡ kind_flick) ⊎ (k ≡ kind_gradual)
      → speed < 256
      → (r : List ℕ) × (transition ident tgt h m repeat k speed act ≡ ok r)
        × Reads r (record {
          ident = ident;
          repeat = repeat % 128;
          at_hour = h;
          at_minute = m;
          of_kind = k;
          minutes = 0;
          on_target = tgt;
          does = act;
        })
        × (byte_at r 5 ≡ speed)
  unfolding transition
  transition-Reads repeat k speed (b0, b8, b2, b3, b15) is_kind b5 = (
    laid_out ident (repeat % 128) h m k speed tgt act,
    rw (allowed is_kind, and_mask 7 repeat)
        (build_ok ident (repeat % 128) h m k speed tgt act b2 b3),
    laid_out-Reads ident (repeat % 128) h m k speed tgt act b0 (omega arith) b2 b3 (small is_kind)
        b5 b8 b15,
    refl,
  )
    where
      allowed :
          (k ≡ kind_flick) ⊎ (k ≡ kind_gradual)
          → (not (k == kind_flick) && not (k == kind_gradual)) ≡ false
      allowed c = ground arith

      small : (k ≡ kind_flick) ⊎ (k ≡ kind_gradual) → k < 256
      small c = omega arith

-- For fields in range, a mask that is not zero and has none of its seven low bits, such as 0x80,
-- passes the weekday test and makes a record with no weekday.
pub recurring_no_weekday :
    (ident tgt h m act repeat : ℕ)
    → InRange ident tgt h m act
    → repeat ≢ 0
    → repeat % 128 ≡ 0
    → (r : List ℕ) × (recurring ident tgt h m repeat act ≡ ok r) × (repeat_mask r ≡ 0)
recurring_no_weekday ident tgt h m act repeat range ne top =
    let (r, e, reads) = recurring-Reads ident tgt h m act repeat range ne in
    (r, e, reads.repeat_read ∙ top)
