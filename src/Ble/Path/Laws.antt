-- ===== src/Ble/Path/Laws.antt =====
-- ble/scanner_linux.go, macFromPath: the address in the path of a device.
use pigsydust.Prelude.{ℕ, ◌/◌, ◌%◌, ◌<◌, ◌≡◌, ◌≢◌, refl, sym, ◌∙◌, arith, map}
use pigsydust.Prelude.{==_false}
use pigsydust.Prelude.{List, [], ◌∷◌, ◌++◌, All, some, none}
use pigsydust.Byteutil.{IsByte, IsArray}
use pigsydust.Mac.{upper_digit, format_byte, mac_string}
use pigsydust.Mac.Laws.{joined_by, mac_string-joined_by}
use pigsydust.Ble.Path.{has_prefix, after_last, dev_marker, colon_for, mac_from_path}

-- A byte of a path's last element.
abbrev Inner : ℕ → Type 0
Inner c = c ≢ b'/'

after_last-Inner : (s : List ℕ) → All Inner s → after_last s dev_marker ≡ none
unfolding after_last has_prefix
after_last-Inner [] h = refl
after_last-Inner (c ∷ s) h = rw (after_last-Inner s h.1, ==_false c b'/' h.0) refl

-- Whatever stands before it, the marker with no slash behind it is the last.
after_last-append :
    (dir s rest sep : List ℕ) → after_last s sep ≡ some rest → after_last (dir ++ s) sep ≡ some rest
unfolding after_last
after_last-append [] s rest sep e = e
after_last-append (c ∷ dir) s rest sep e = rw (after_last-append dir s rest sep e) refl

after_last-dev_marker :
    (s : List ℕ) → All Inner s → after_last (dev_marker ++ s) dev_marker ≡ some s
unfolding after_last has_prefix
after_last-dev_marker s h = rw (after_last-Inner s h) refl

digit_cases :
    (n : ℕ) → n < 16 → (Inner (upper_digit n)) × (colon_for (upper_digit n) ≡ upper_digit n)
unfolding upper_digit
digit_cases n h = ground arith

joined_by-Inner : (m : List ℕ) → All IsByte m → All Inner (joined_by b'_' m)
unfolding format_byte
joined_by-Inner [] h = tt
joined_by-Inner (b ∷ []) (lt, h) =
    ((digit_cases (b / 16) (omega arith)).0, ((digit_cases (b % 16) (omega arith)).0, tt))
joined_by-Inner (b ∷ c ∷ m) (lt, h) = (
  (digit_cases (b / 16) (omega arith)).0,
  ((digit_cases (b % 16) (omega arith)).0, (omega arith, joined_by-Inner (c ∷ m) h)),
)

map-joined_by : (m : List ℕ) → All IsByte m → map colon_for (joined_by b'_' m) ≡ joined_by b':' m
unfolding format_byte
map-joined_by [] h = refl
map-joined_by (b ∷ []) (lt, h) =
    rw ((digit_cases (b / 16) (omega arith)).1, (digit_cases (b % 16) (omega arith)).1) refl
map-joined_by (b ∷ c ∷ m) (lt, h) =
    rw
      (
        (digit_cases (b / 16) (omega arith)).1,
        (digit_cases (b % 16) (omega arith)).1,
        map-joined_by (c ∷ m) h,
      )
      refl

-- A path that ends in "/dev_" and an address with underscores between its bytes gives the text that
-- the address prints as, whatever stands before.
pub mac_from_path-joined_by :
    (dir m : List ℕ)
    → IsArray 6 m
    → mac_from_path (dir ++ (dev_marker ++ joined_by b'_' m)) ≡ mac_string m
unfolding mac_from_path
mac_from_path-joined_by dir m h =
    rw
      (
        mac_from_path,
        after_last-append dir (dev_marker ++ joined_by b'_' m) (joined_by b'_' m) dev_marker
            (after_last-dev_marker (joined_by b'_' m) (joined_by-Inner m h.1)),
      )
      (map-joined_by m h.1 ∙ sym (mac_string-joined_by m h))
