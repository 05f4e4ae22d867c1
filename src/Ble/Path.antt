-- ===== src/Ble/Path.antt =====
-- ble/scanner_linux.go, macFromPath: the MAC address in the path of a BlueZ object.
pub mod Laws
use pigsydust.Prelude.{
  ℕ, Bool, true, false, ◌==◌, ◌&&◌, if◌then◌else◌, List, [], ◌∷◌, ◌++◌, length, drop, map,
}
use pigsydust.Prelude.{Option, none, some}

-- `strings.HasPrefix`, with the prefix second as in Go.
unfoldable pub has_prefix : List ℕ → List ℕ → Bool
has_prefix s [] = true
has_prefix [] (p ∷ prefix) = false
has_prefix (c ∷ s) (p ∷ prefix) = c == p && has_prefix s prefix

-- What follows the last place where a text occurs: `strings.LastIndex`, and the slice behind it.
unfoldable pub after_last : List ℕ → List ℕ → Option (List ℕ)
after_last [] sep = none
after_last (c ∷ s) sep = elim (after_last s sep) [
  | some rest ↦ some rest
  | none ↦ if has_prefix (c ∷ s) sep then some (drop (length sep) (c ∷ s)) else none
]

-- "/dev_"
abbrev pub dev_marker : List ℕ
dev_marker = b'/' ∷ b'd' ∷ b'e' ∷ b'v' ∷ b'_' ∷ []

abbrev pub colon_for : ℕ → ℕ
colon_for c = if c == b'_' then b':' else c

unfoldable pub mac_from_path : List ℕ → List ℕ
mac_from_path p = elim (after_last p dev_marker) [ none ↦ [] | some rest ↦ map colon_for rest ]
