-- ===== src/Ble/Uuid/Laws.antt =====
-- Printing a UUID and parsing it gives it back, and the printed form.
use pigsydust.Prelude.{ℕ, ◌+◌, ◌*◌, ◌/◌, ◌%◌, ◌<◌, ◌≡◌, refl, ap, ◌∙◌, arith, ◌==◌, ==_true}
use pigsydust.Prelude.{false, List, [], ◌∷◌, ◌++◌, length, All, Bool-cases, inl, inr, ◌||◌}
use pigsydust.Prelude.Go.{ok}
use pigsydust.Byteutil.{IsByte, IsArray}
use pigsydust.Ble.Uuid.{lower_digit, dash_before, uuid_loop, uuid_string, hex_byte, without_dashes}
use pigsydust.Ble.Uuid.{digit_pairs, parse_uuid_string}

-- The digits of the bytes, without dashes.
abbrev digits_of : List ℕ → List ℕ
digits_of [] = []
digits_of (b ∷ u) = lower_digit (b / 16) ∷ lower_digit (b % 16) ∷ digits_of u

hex_byte-lower_digit : (n : ℕ) → n < 16 → hex_byte (lower_digit n) ≡ ok n
unfolding hex_byte lower_digit
hex_byte-lower_digit n h = ground arith

lower_digit_plain : (n : ℕ) → n < 16 → (lower_digit n == b'-') ≡ false
unfolding lower_digit
lower_digit_plain n h = ground arith

without_dash_before : (i : ℕ) (s : List ℕ) → without_dashes (dash_before i ++ s) ≡ without_dashes s
unfolding dash_before without_dashes
without_dash_before i s = elim (Bool-cases (i == 4 || i == 6 || i == 8 || i == 10)) [
  | inl dash ↦ rw (dash_before, dash) (unfold without_dashes in refl)
  | inr none ↦ rw (dash_before, none) refl
]

kept : (c : ℕ) (s : List ℕ) → (c == b'-') ≡ false → without_dashes (c ∷ s) ≡ c ∷ without_dashes s
unfolding without_dashes
kept c s h = rw (without_dashes, h) refl

without_dashes-uuid_loop :
    (i : ℕ) (u : List ℕ) → All IsByte u → without_dashes (uuid_loop i u) ≡ digits_of u
unfolding uuid_loop
without_dashes-uuid_loop i [] h = unfold without_dashes in refl
without_dashes-uuid_loop i (b ∷ u) h =
    without_dash_before i _
    ∙ kept _ _ (lower_digit_plain (b / 16) (omega (arith, h.0)))
    ∙ ap (λ (t : List ℕ). lower_digit (b / 16) ∷ t)
        (kept _ _ (lower_digit_plain (b % 16) (omega arith))
          ∙ ap (λ (t : List ℕ). lower_digit (b % 16) ∷ t) (without_dashes-uuid_loop (i + 1) u h.1))

length-digits_of : (u : List ℕ) → length (digits_of u) ≡ 2 * length u
length-digits_of [] = omega arith
length-digits_of (b ∷ u) = omega (arith, length-digits_of u)

digit_pairs-digits_of : (u : List ℕ) → All IsByte u → digit_pairs (digits_of u) ≡ ok u
unfolding digit_pairs
digit_pairs-digits_of [] h = refl
digit_pairs-digits_of (b ∷ u) h =
    rw
      (
        hex_byte-lower_digit (b / 16) (omega (arith, h.0)),
        hex_byte-lower_digit (b % 16) (omega arith),
        digit_pairs-digits_of u h.1,
      )
      (ap (λ (x : ℕ). ok (x ∷ u)) (omega arith))

-- Parsing what `String` prints for a UUID of sixteen bytes gives the UUID back.
pub parse_uuid_string-uuid_string :
    (u : List ℕ) → IsArray 16 u → parse_uuid_string (uuid_string u) ≡ ok u
unfolding parse_uuid_string uuid_string
parse_uuid_string-uuid_string u h =
    rw
      (
        without_dashes-uuid_loop 0 u h.1,
        ==_true (length (digits_of u)) 32 (length-digits_of u ∙ omega (arith, h.0)),
      )
      (digit_pairs-digits_of u h.1)
