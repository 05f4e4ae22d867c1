-- ===== src/Schedule/Timezone/Laws.antt =====
-- The conversion keeps the weekly fire times, and the two directions are inverse.
use pigsydust.Prelude.{
  ℕ, zero, suc, ◌+◌, ◌-◌, ◌*◌, ◌/◌, ◌%◌, ◌^◌, ◌<◌, ◌≤◌, ◌≡◌, refl, ap, ◌∙◌, arith,
}
use pigsydust.Prelude.{
  Bool, true, false, not, ltb→lt, ◌&&◌, ◌==◌, ==_iff, bit_and, ltb, if◌then◌else◌,
}
use pigsydust.Prelude.Int.{
  ℤ, pos, ◌+ℤ◌, ◌-ℤ◌, ◌%ℤ◌, byte_ℤ, pos_part, neg_part, sub_ℕ, eq_of_parts, int_laws,
}
use native.Mathlib.Decide.{dec_lt}
use pigsydust.Prelude.{◌⊎◌, inl, inr, ap₂, lt→ltb}
use pigsydust.Bits.{and_mask}
use pigsydust.Schedule.Timezone.{rotate_right, rotate_left, rotate_for, local_to_utc, utc_to_local}

-- Whether the mask names weekday `d`, 0 for Monday to 6 for Sunday.
abbrev pub day_bit : ℕ → ℕ → ℕ
day_bit r d = r / 2 ^ d % 2

-- A check of every value below a bound by evaluation.
&&-parts :
    (a b c d e f : Bool)
    → (a && b && c && d && e && f) ≡ true
    → (a ≡ true) × (b ≡ true) × (c ≡ true) × (d ≡ true) × (e ≡ true) × (f ≡ true)
&&-parts a b c d e f h = ground arith

every : (ℕ → Bool) → ℕ → Bool
every ok zero = true
every ok (suc n) = every ok n && ok n

every-true : (ok : ℕ → Bool) {n : ℕ} (i : ℕ) → i < n → every ok n ≡ true → ok i ≡ true
unfolding every
every-true ok {n = zero} i below e = absurd (omega arith)
every-true ok {n = suc n} i below e = ground (arith, every-true ok {n = n} i)

-- One entry of the table: both rotations stay in seven bits, undo each other, and move weekday `d`
-- one day back or one day on.
abbrev rotations_ok : ℕ → Bool
rotations_ok r =
    ltb (rotate_right r) 128
    && ltb (rotate_left r) 128
    && rotate_left (rotate_right r) == r
    && rotate_right (rotate_left r) == r
    && every (λ d. day_bit (rotate_right r) ((d + 6) % 7) == day_bit r d) 7
    && every (λ d. day_bit (rotate_left r) ((d + 1) % 7) == day_bit r d) 7

rotations_table : every rotations_ok 128 ≡ true
unfolding every rotate_right rotate_left
rotations_table = refl

record Rotations (r : ℕ) : Type 0 where
  right_range : rotate_right r < 128
  left_range : rotate_left r < 128
  left-right : rotate_left (rotate_right r) ≡ r
  right-left : rotate_right (rotate_left r) ≡ r
  right_day : (d : ℕ) → d < 7 → day_bit (rotate_right r) ((d + 6) % 7) ≡ day_bit r d
  left_day : (d : ℕ) → d < 7 → day_bit (rotate_left r) ((d + 1) % 7) ≡ day_bit r d

rotations : (r : ℕ) → r < 128 → Rotations r
rotations r h = from (every-true rotations_ok r h rotations_table)
  where
    from : rotations_ok r ≡ true → Rotations r
    from e =
        let (a, b, c, d, f, g) = &&-parts _ _ _ _ _ _ e in
        record {
          right_range = ltb→lt _ _ a;
          left_range = ltb→lt _ _ b;
          left-right = (==_iff _ _).0 c;
          right-left = (==_iff _ _).0 d;
          right_day = λ k lt. (==_iff _ _).0 (every-true _ k lt f);
          left_day = λ k lt. (==_iff _ _).0 (every-true _ k lt g);
        }

-- The rotation by the day on which `x`, an hour counted from two days before, falls.
abbrev rotate_at : ℕ → ℕ → ℕ
rotate_at x r = if ltb x 48 then rotate_right r else if not (ltb x 72) then rotate_left r else r

hour_byte : (x : ℕ) → byte_ℤ (pos x %ℤ 24) ≡ x % 24
unfolding byte_ℤ ◌%ℤ◌
hour_byte x = omega arith

rotate_for_shifted : (x r : ℕ) → rotate_for (sub_ℕ x 24) r ≡ rotate_at x r
unfolding rotate_for
rotate_for_shifted x r = ground arith

sub_parts : (x : ℕ) → pos_part (sub_ℕ x 24) + 24 ≡ x + neg_part (sub_ℕ x 24)
sub_parts x = ground arith

-- Both functions in natural numbers: `x` is the shifted hour plus 48.
local_to_utc_shape :
    (h r : ℕ) (tz : ℤ) (x : ℕ)
    → x + pos_part tz ≡ h + 48 + neg_part tz
    → local_to_utc h r tz ≡ (x % 24, rotate_at x (bit_and r 0x7F))
unfolding local_to_utc
local_to_utc_shape h r tz x e =
    rw (shifted, adjusted, hour_byte x, rotate_for_shifted x (bit_and r 0x7F)) refl
  where
    shifted : pos h -ℤ tz +ℤ pos 48 ≡ pos x
    shifted = omega int_laws

    adjusted : pos h -ℤ tz +ℤ pos 24 ≡ sub_ℕ x 24
    adjusted = eq_of_parts _ _ (omega (int_laws, sub_parts x))

utc_to_local_shape :
    (u r : ℕ) (tz : ℤ) (y : ℕ)
    → y + neg_part tz ≡ u + 48 + pos_part tz
    → utc_to_local u r tz ≡ (y % 24, rotate_at y (bit_and r 0x7F))
unfolding utc_to_local
utc_to_local_shape u r tz y e =
    rw (shifted, adjusted, hour_byte y, rotate_for_shifted y (bit_and r 0x7F)) refl
  where
    shifted : pos u +ℤ tz +ℤ pos 48 ≡ pos y
    shifted = omega int_laws

    adjusted : pos u +ℤ tz +ℤ pos 24 ≡ sub_ℕ y 24
    adjusted = eq_of_parts _ _ (omega (int_laws, sub_parts y))

-- A time zone at most a day away from UTC on either side.
abbrev pub IsOffset : ℤ → Type 0
IsOffset tz = (pos_part tz ≤ 24) × (neg_part tz ≤ 24)

rotate_at-range : (x r : ℕ) → r < 128 → rotate_at x r < 128
rotate_at-range x r h = ground (arith, (rotations r h).right_range, (rotations r h).left_range)

seven_bits : (r : ℕ) → r < 128 → bit_and r 0x7F ≡ r
seven_bits r h = omega (arith, and_mask 7 r)

rotate_back :
    (x y r : ℕ)
    → r < 128
    → 24 ≤ x
    → x < 96
    → ((x < 48) × (72 ≤ y)) ⊎ ((48 ≤ x) × (x < 72) × (48 ≤ y) × (y < 72)) ⊎ ((72 ≤ x) × (y < 48))
    → rotate_at y (rotate_at x r) ≡ r
rotate_back x y r h lo hi c = ground (arith, (rotations r h).left-right, (rotations r h).right-left)

-- The day of the shifted hour is undone by the day of the hour shifted back.
opposite_days :
    (h x y p n : ℕ)
    → h < 24
    → p ≤ 24
    → n ≤ 24
    → x + p ≡ h + 48 + n
    → y + n ≡ x % 24 + 48 + p
    → ((x < 48) × (72 ≤ y)) ⊎ ((48 ≤ x) × (x < 72) × (48 ≤ y) × (y < 72)) ⊎ ((72 ≤ x) × (y < 48))
opposite_days h x y p n hh hp hn ex ey = elim (dec_lt x 48) [
  | yes a ↦ inl (a, omega arith)
  | no a ↦ elim (dec_lt x 72) [
    | yes b ↦ inr (inl (omega arith, b, omega arith, omega arith))
    | no b ↦ inr (inr (omega arith, omega arith))
  ]
]

-- Converting to UTC and back gives the hour and the mask that one started with, for an hour of the
-- day, a seven-bit mask and an offset of at most 24 hours either way.
pub utc_to_local-local_to_utc :
    (h r : ℕ) (tz : ℤ)
    → h < 24
    → r < 128
    → IsOffset tz
    → utc_to_local (local_to_utc h r tz).0 (local_to_utc h r tz).1 tz ≡ (h, r)
utc_to_local-local_to_utc h r tz hh hr o =
    rw
      (
        local_to_utc_shape h r tz x xe,
        utc_to_local_shape (x % 24) (rotate_at x (bit_and r 0x7F)) tz y ye,
      )
      (ap₂ (λ (a b : ℕ). (a, b)) hour_back
        (ap (λ (t : ℕ). rotate_at y (bit_and (rotate_at x t) 0x7F)) (seven_bits r hr)
          ∙ ap (rotate_at y) (seven_bits (rotate_at x r) (rotate_at-range x r hr))
          ∙ rotate_back x y r hr (omega arith) (omega arith)
              (opposite_days h x y (pos_part tz) (neg_part tz) hh o.0 o.1 xe ye)))
  where
    x : ℕ
    x = h + 48 + neg_part tz - pos_part tz

    xe : x + pos_part tz ≡ h + 48 + neg_part tz
    xe = omega arith

    y : ℕ
    y = x % 24 + 48 + pos_part tz - neg_part tz

    ye : y + neg_part tz ≡ x % 24 + 48 + pos_part tz
    ye = omega arith

    hour_back : y % 24 ≡ h
    hour_back = omega arith

-- What weekday `d` of the mask becomes.
rotated_day :
    (x r d : ℕ)
    → r < 128
    → d < 7
    → 24 ≤ x
    → x < 96
    → day_bit (rotate_at x r) ((d + x / 24 + 5) % 7) ≡ day_bit r d
rotated_day x r d hr hd lo hi = elim (dec_lt x 48) [
  | yes a ↦ rw (lt→ltb x 48 a) (
      ap (day_bit (rotate_right r)) {y = (d + 6) % 7} (omega arith)
      ∙ (rotations r hr).right_day d hd)
  | no a ↦ elim (dec_lt x 72) [
    | yes b ↦ rw (not_lt x 48 a, lt→ltb x 72 b) (ap (day_bit r) {y = d} (omega arith))
    | no b ↦
        rw (not_lt x 48 a, not_lt x 72 b)
          (ap (day_bit (rotate_left r)) {y = (d + 1) % 7} (omega arith)
            ∙ (rotations r hr).left_day d hd)
  ]
]
  where
    not_lt : (a b : ℕ) → ¬ (a < b) → ltb a b ≡ false
    not_lt a b h = ground arith

-- For an hour of the day, a seven-bit mask, a weekday and an offset of at most 24 hours either way,
-- the weekly instant is kept: `t` counts the hours from Monday 0:00 to that hour of that weekday, a
-- week added and the offset taken off; the UTC hour is that of `t`, and its weekday is in the UTC mask
-- exactly when the local weekday was in the local mask.
pub local_to_utc_instant :
    (h r d t : ℕ) (tz : ℤ)
    → h < 24
    → r < 128
    → d < 7
    → IsOffset tz
    → t + pos_part tz ≡ 24 * d + h + 168 + neg_part tz
    → ((local_to_utc h r tz).0 ≡ t % 24)
      × (day_bit (local_to_utc h r tz).1 (t / 24 % 7) ≡ day_bit r d)
local_to_utc_instant h r d t tz hh hr hd o e =
    rw (local_to_utc_shape h r tz x xe, seven_bits r hr)
      (
        omega arith,
        ap (day_bit (rotate_at x r)) {y = (d + x / 24 + 5) % 7} (omega arith)
            ∙ rotated_day x r d hr hd (omega arith) (omega arith),
      )
  where
    x : ℕ
    x = h + 48 + neg_part tz - pos_part tz

    xe : x + pos_part tz ≡ h + 48 + neg_part tz
    xe = omega arith
