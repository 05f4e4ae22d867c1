-- ===== src/Byteutil/Laws.antt =====
-- What the byte helpers guarantee: widths, inverses and the checksum law.
use pigsydust.Prelude.{ℕ, zero, suc, ◌^◌, ◌≤◌, ◌<◌, bit_xor, ◌≡◌}
use pigsydust.Prelude.{refl, sym, ap, ap₂, ◌∙◌, arith, List, [], ◌∷◌, ◌++◌, length, All}
use pigsydust.Prelude.{eq-tabulate}
use pigsydust.Prelude.{drop, take, ◌+◌}
use Prim.Native.Nat.add
use pigsydust.Bits.{xor_comm, xor_assoc, xor_self, xor-zero, xor_cancel, xor-lt-256}
use pigsydust.Byteutil.{IsByte, IsArray, byte_at, zeros, copy, pad16, xor_bytes, xor16}
use pigsydust.Byteutil.{reverse16, put_le16, le16, put_le32, le32, xor_fold_from, xor_fold}

pub byte_at-IsByte : (b : List ℕ) (i : ℕ) → All IsByte b → byte_at b i < 256
byte_at-IsByte [] i h = omega arith
byte_at-IsByte (x ∷ b) zero h = h.0
byte_at-IsByte (x ∷ b) (suc i) h = byte_at-IsByte b i h.1

pub All-append-IsByte : (a b : List ℕ) → All IsByte a → All IsByte b → All IsByte (a ++ b)
All-append-IsByte [] b ha hb = hb
All-append-IsByte (x ∷ a) b ha hb = (ha.0, All-append-IsByte a b ha.1 hb)

pub All-take-IsByte : (n : ℕ) (b : List ℕ) → All IsByte b → All IsByte (take n b)
All-take-IsByte zero b h = tt
All-take-IsByte (suc n) [] h = tt
All-take-IsByte (suc n) (x ∷ b) h = (h.0, All-take-IsByte n b h.1)

pub All-drop-IsByte : (n : ℕ) (b : List ℕ) → All IsByte b → All IsByte (drop n b)
All-drop-IsByte zero b h = h
All-drop-IsByte (suc n) [] h = tt
All-drop-IsByte (suc n) (x ∷ b) h = All-drop-IsByte n b h.1

pub zeros-IsByte : (n : ℕ) → All IsByte (zeros n)
zeros-IsByte zero = tt
zeros-IsByte (suc n) = (omega arith, zeros-IsByte n)

-- Reversing a 16-byte block twice gives it back.
pub reverse16-reverse16 : (b : List ℕ) → length b ≡ 16 → reverse16 (reverse16 b) ≡ b
unfolding reverse16
reverse16-reverse16 b h = sym (eq-tabulate 0 16 b h)

pub reverse16-IsArray : (b : List ℕ) → All IsByte b → IsArray 16 (reverse16 b)
unfolding reverse16
reverse16-IsArray b h = (refl, grind (arith, byte_at-IsByte))

pub length-copy : (dst src : List ℕ) → length (copy dst src) ≡ length dst
unfolding copy
length-copy [] src = refl
length-copy (d ∷ dst) [] = refl
length-copy (d ∷ dst) (s ∷ src) = ap suc (length-copy dst src)

pub copy-IsByte : (dst src : List ℕ) → All IsByte dst → All IsByte src → All IsByte (copy dst src)
unfolding copy
copy-IsByte [] src hd hs = tt
copy-IsByte (d ∷ dst) [] hd hs = hd
copy-IsByte (d ∷ dst) (s ∷ src) hd hs = (hs.0, copy-IsByte dst src hd.1 hs.1)

-- What `copy` leaves at each index: the source where it reaches, else the destination.
pub byte_at-copy_inside :
    (dst src : List ℕ) (i : ℕ)
    → i < length src
    → i < length dst
    → byte_at (copy dst src) i ≡ byte_at src i
unfolding copy
byte_at-copy_inside [] src i h k = absurd (omega arith)
byte_at-copy_inside (d ∷ dst) [] i h k = absurd (omega arith)
byte_at-copy_inside (d ∷ dst) (s ∷ src) zero h k = refl
byte_at-copy_inside (d ∷ dst) (s ∷ src) (suc i) h k =
    byte_at-copy_inside dst src i (omega arith) (omega arith)

pub byte_at-copy_outside :
    (dst src : List ℕ) (i : ℕ) → length src ≤ i → byte_at (copy dst src) i ≡ byte_at dst i
unfolding copy
byte_at-copy_outside [] src i h = refl
byte_at-copy_outside (d ∷ dst) [] i h = refl
byte_at-copy_outside (d ∷ dst) (s ∷ src) zero h = absurd (omega arith)
byte_at-copy_outside (d ∷ dst) (s ∷ src) (suc i) h = byte_at-copy_outside dst src i (omega arith)

-- Copying over zeros pads a source that fits, and cuts off one that does not.
pub copy-zeros_pad : (src : List ℕ) (k : ℕ) → copy (zeros (length src + k)) src ≡ src ++ zeros k
unfolding copy
copy-zeros_pad [] k = start k
  where
    start : (k : ℕ) → copy (zeros (0 + k)) [] ≡ zeros k
    start k = rw add.zero (done k)
      where
        done : (k : ℕ) → copy (zeros k) [] ≡ zeros k
        done zero = refl
        done (suc k) = refl
copy-zeros_pad (s ∷ src) k = rw add.suc (ap (λ (t : List ℕ). s ∷ t) (copy-zeros_pad src k))

pub copy-zeros_cut : (n : ℕ) (src : List ℕ) → n ≤ length src → copy (zeros n) src ≡ take n src
unfolding copy
copy-zeros_cut zero src h = refl
copy-zeros_cut (suc n) [] h = absurd (omega arith)
copy-zeros_cut (suc n) (s ∷ src) h = ap (λ (t : List ℕ). s ∷ t) (copy-zeros_cut n src (omega arith))

pub pad16-IsArray : (s : List ℕ) → All IsByte s → IsArray 16 (pad16 s)
unfolding pad16
pad16-IsArray s h = (length-copy (zeros 16) s, copy-IsByte (zeros 16) s (zeros-IsByte 16) h)

pub length-pad16 : (s : List ℕ) → length (pad16 s) ≡ 16
unfolding pad16
length-pad16 s = length-copy (zeros 16) s

pub xor16_comm : (a b : List ℕ) → length a ≡ length b → xor16 a b ≡ xor16 b a
unfolding xor16
xor16_comm [] [] h = refl
xor16_comm [] (y ∷ b) h = absurd (omega arith)
xor16_comm (x ∷ a) [] h = absurd (omega arith)
xor16_comm (x ∷ a) (y ∷ b) h = ap₂ ◌∷◌ (xor_comm x y) (xor16_comm a b (omega arith))

pub length-xor_bytes : (a b : List ℕ) → length (xor_bytes a b) ≡ length a
unfolding xor_bytes
length-xor_bytes [] b = refl
length-xor_bytes (x ∷ a) [] = refl
length-xor_bytes (x ∷ a) (y ∷ b) = ap suc (length-xor_bytes a b)

pub xor_bytes-IsByte : (a b : List ℕ) → All IsByte a → All IsByte b → All IsByte (xor_bytes a b)
unfolding xor_bytes
xor_bytes-IsByte [] b ha hb = tt
xor_bytes-IsByte (x ∷ a) [] ha hb = ha
xor_bytes-IsByte (x ∷ a) (y ∷ b) ha hb = (xor-lt-256 x y ha.0 hb.0, xor_bytes-IsByte a b ha.1 hb.1)

pub xor16-IsArray : (a b : List ℕ) → IsArray 16 a → IsArray 16 b → IsArray 16 (xor16 a b)
unfolding xor16
xor16-IsArray a b ha hb = (length-xor_bytes a b ∙ ha.0, xor_bytes-IsByte a b ha.1 hb.1)

-- Masking twice with the same array is the identity.
pub xor_bytes_cancel : (a b : List ℕ) → xor_bytes (xor_bytes a b) b ≡ a
unfolding xor_bytes
xor_bytes_cancel [] b = refl
xor_bytes_cancel (x ∷ a) [] = refl
xor_bytes_cancel (x ∷ a) (y ∷ b) = ap₂ ◌∷◌ (xor_cancel x y) (xor_bytes_cancel a b)

-- A uint16 survives the little-endian encoding, and so do two bytes.
pub le16-put_le16 : (v : ℕ) → v < 2 ^ 16 → le16 (put_le16 v) ≡ v
unfolding le16 put_le16
le16-put_le16 v h = omega arith

pub put_le16-le16 :
    (b0 b1 : ℕ) → b0 < 256 → b1 < 256 → put_le16 (le16 (b0 ∷ b1 ∷ [])) ≡ b0 ∷ b1 ∷ []
unfolding le16 put_le16
put_le16-le16 b0 b1 h0 h1 = ap₂ (λ (x y : ℕ). x ∷ y ∷ []) (omega arith) (omega arith)

pub put_le16-IsByte : (v : ℕ) → All IsByte (put_le16 v)
unfolding put_le16
put_le16-IsByte v = (omega arith, (omega arith, tt))

pub le32-put_le32 : (v : ℕ) → v < 2 ^ 32 → le32 (put_le32 v) ≡ v
unfolding le32 put_le32
le32-put_le32 v h = omega arith

pub le16-lt : (b : List ℕ) → All IsByte b → le16 b < 2 ^ 16
unfolding le16
le16-lt b h = omega (arith, byte_at-IsByte b 0 h, byte_at-IsByte b 1 h)

-- The fold from any start is the start masked with the fold from zero.
fold_start_below :
    (x y : ℕ) (b : List ℕ) → xor_fold_from (bit_xor x y) b ≡ bit_xor x (xor_fold_from y b)
unfolding xor_fold_from
fold_start_below x y [] = refl
fold_start_below x y (v ∷ b) =
    ap (λ (t : ℕ). xor_fold_from t b) (xor_assoc x y v) ∙ fold_start_below x (bit_xor y v) b

pub xor_fold_from_start : (x : ℕ) (b : List ℕ) → xor_fold_from x b ≡ bit_xor x (xor_fold b)
unfolding xor_fold
xor_fold_from_start x b =
    ap (λ (t : ℕ). xor_fold_from t b) (sym (xor-zero x)) ∙ fold_start_below x 0 b

fold_append_from :
    (x : ℕ) (a b : List ℕ) → xor_fold_from x (a ++ b) ≡ bit_xor (xor_fold_from x a) (xor_fold b)
unfolding xor_fold_from
fold_append_from x [] b = xor_fold_from_start x b
fold_append_from x (v ∷ a) b = fold_append_from (bit_xor x v) a b

-- The fold of a concatenation is the exclusive or of the folds.
pub xor_fold-append : (a b : List ℕ) → xor_fold (a ++ b) ≡ bit_xor (xor_fold a) (xor_fold b)
xor_fold-append a b = unfold xor_fold in fold_append_from 0 a b

pub xor_fold_one : (x : ℕ) → xor_fold (x ∷ []) ≡ x
unfolding xor_fold
xor_fold_one x = xor_comm 0 x ∙ xor-zero x

-- With its checksum appended, a message folds to zero.
pub xor_fold_checksum : (b : List ℕ) → xor_fold (b ++ (xor_fold b ∷ [])) ≡ 0
xor_fold_checksum b =
    xor_fold-append b (xor_fold b ∷ [])
    ∙ ap (bit_xor (xor_fold b)) (xor_fold_one (xor_fold b))
    ∙ xor_self (xor_fold b)

-- The fold of bytes is a byte.
pub xor_fold-IsByte : (b : List ℕ) → All IsByte b → xor_fold b < 256
unfolding xor_fold
xor_fold-IsByte b h = go 0 b (omega arith) h
  where
    go : (x : ℕ) (b : List ℕ) → x < 256 → All IsByte b → xor_fold_from x b < 256
    go x [] hx hb = hx
    go x (v ∷ b) hx hb = go (bit_xor x v) b (xor-lt-256 x v hx hb.0) hb.1
