-- ===== src/Byteutil.antt =====
-- internal/byteutil/byteutil.go. A byte is a number below 256; slices and fixed arrays of bytes are
-- lists, and an array's length is a property (`IsArray`).
pub mod Laws
use pigsydust.Prelude.{ℕ, zero, suc, ◌+◌, ◌-◌, ◌*◌, ◌/◌, ◌%◌, ◌^◌, ◌<◌, bit_xor, ◌≡◌}
use pigsydust.Prelude.{List, [], ◌∷◌, ◌++◌, length, get_or, take, drop, replicate, All}

abbrev pub IsByte : ℕ → Type 0
IsByte b = b < 256

-- The type `[n]byte`.
abbrev pub IsArray : ℕ → List ℕ → Type 0
IsArray n b = (length b ≡ n) × All IsByte b

-- `b[i]` on a fixed array, at a constant index in range.
abbrev pub byte_at : List ℕ → ℕ → ℕ
byte_at b i = get_or b i 0

-- `make([]byte, n)` and the zero array.
abbrev pub zeros : ℕ → List ℕ
zeros n = replicate n 0

-- `copy(dst, src)`: the common length is copied, and the rest of `dst` stays.
unfoldable pub copy : List ℕ → List ℕ → List ℕ
copy [] src = []
copy (d ∷ dst) [] = d ∷ dst
copy (d ∷ dst) (s ∷ src) = s ∷ copy dst src

-- `copy(dst[lo:hi], src)`.
unfoldable pub copy_slice : ℕ → ℕ → List ℕ → List ℕ → List ℕ
unfolding copy
copy_slice lo hi dst src = take lo dst ++ (copy (take (hi - lo) (drop lo dst)) src ++ drop hi dst)

unfoldable pub pad16 : List ℕ → List ℕ
unfolding copy
pad16 s = copy (zeros 16) s

-- The loop of `XOR16` over the positions of both arrays.
unfoldable pub xor_bytes : List ℕ → List ℕ → List ℕ
xor_bytes [] b = []
xor_bytes (x ∷ a) [] = x ∷ a
xor_bytes (x ∷ a) (y ∷ b) = bit_xor x y ∷ xor_bytes a b

unfoldable pub xor16 : List ℕ → List ℕ → List ℕ
unfolding xor_bytes
xor16 a b = xor_bytes a b

-- `out[i] = b[15-i]` for i in range 16.
unfoldable pub reverse16 : List ℕ → List ℕ
reverse16 b =
    byte_at b 15
    ∷ byte_at b 14
    ∷ byte_at b 13
    ∷ byte_at b 12
    ∷ byte_at b 11
    ∷ byte_at b 10
    ∷ byte_at b 9
    ∷ byte_at b 8
    ∷ byte_at b 7
    ∷ byte_at b 6
    ∷ byte_at b 5
    ∷ byte_at b 4
    ∷ byte_at b 3
    ∷ byte_at b 2
    ∷ byte_at b 1
    ∷ byte_at b 0
    ∷ []

-- The bytes that `PutLE16` stores, lowest first; `byte(v)` and `byte(v >> 8)`.
unfoldable pub put_le16 : ℕ → List ℕ
put_le16 v = v % 256 ∷ v / 256 % 256 ∷ []

-- `binary.LittleEndian.Uint16`; every caller passes a slice of two bytes at least.
unfoldable pub le16 : List ℕ → ℕ
le16 b = byte_at b 0 + byte_at b 1 * 256

unfoldable pub put_le32 : ℕ → List ℕ
put_le32 v = v % 256 ∷ v / 256 % 256 ∷ v / 2 ^ 16 % 256 ∷ v / 2 ^ 24 % 256 ∷ []

unfoldable pub le32 : List ℕ → ℕ
le32 b = byte_at b 0 + byte_at b 1 * 256 + byte_at b 2 * 2 ^ 16 + byte_at b 3 * 2 ^ 24

-- `x ^= v` over the slice.
unfoldable pub xor_fold_from : ℕ → List ℕ → ℕ
xor_fold_from x [] = x
xor_fold_from x (v ∷ b) = xor_fold_from (bit_xor x v) b

unfoldable pub xor_fold : List ℕ → ℕ
unfolding xor_fold_from
xor_fold b = xor_fold_from 0 b
