-- ===== src/Command/Fragments.antt =====
-- The commands that are sent in fragments: the alarm record in two, the sun data in three.
use pigsydust.Prelude.{ℕ, ◌≡◌, ◌<◌, refl, sym, ap, ◌∙◌, arith, subst, List, [], ◌∷◌, ◌++◌, length}
use pigsydust.Prelude.{
  take, drop, All, eq-tabulate, append_assoc, append-nil, bit_xor, length-append, length-take,
  length-drop, ◌^◌, ◌≤◌,
}
use pigsydust.Bits.{xor_assoc}
use pigsydust.Byteutil.{IsByte, IsArray, xor_fold, xor_fold_from}
use pigsydust.Byteutil.Laws.{
  All-append-IsByte, All-take-IsByte, All-drop-IsByte, xor_fold-IsByte, xor_fold_checksum,
  xor_fold-append, xor_fold_from_start,
}
use pigsydust.Command.{Command}
use pigsydust.Command.Encode.{IsWellFormed}
use pigsydust.Command.Build.{sunrise_frame, sunrise_sunset}
use pigsydust.Command.Schedule.{write_alarm}

-- The coordinator's view of the two fragments: the bytes behind the two index bytes.
abbrev pub joined : Command × Command → List ℕ
joined (a, b) = drop 1 a.payload ++ drop 1 b.payload

joined-write_alarm :
    (alarm : List ℕ)
    → length alarm ≡ 16
    → joined (write_alarm alarm) ≡ alarm ++ (xor_fold alarm ∷ [])
unfolding write_alarm
joined-write_alarm alarm h =
    subst (λ r. joined (write_alarm r) ≡ r ++ (xor_fold r ∷ [])) (sym (eq-tabulate 0 16 alarm h))
      refl

module _ (alarm : List ℕ) (h : IsArray 16 alarm) where
  first-IsWellFormed : IsWellFormed (write_alarm alarm).0
  unfolding write_alarm
  first-IsWellFormed = record {
    destination_range = omega arith;
    vendor_range = omega arith;
    client_opcode = omega arith;
    opcode_range = omega arith;
    payload_fits = omega (arith, h.0, length-take 9 alarm (omega (arith, h.0)));
    payload_bytes = (omega arith, All-take-IsByte 9 alarm h.1);
  }

  second-IsWellFormed : IsWellFormed (write_alarm alarm).1
  unfolding write_alarm
  second-IsWellFormed = record {
    destination_range = omega arith;
    vendor_range = omega arith;
    client_opcode = omega arith;
    opcode_range = omega arith;
    payload_fits = omega (
      arith,
      h.0,
      length-append (take 7 (drop 9 alarm)) (xor_fold alarm ∷ []),
      length-take 7 (drop 9 alarm) (omega (arith, h.0, length-drop 9 alarm)),
    );
    payload_bytes = (
      omega arith,
      All-append-IsByte (take 7 (drop 9 alarm)) (xor_fold alarm ∷ [])
          (All-take-IsByte 7 (drop 9 alarm) (All-drop-IsByte 9 alarm h.1))
          (xor_fold-IsByte alarm h.1, tt),
    );
  }

-- The two fragments of a 16-byte record are numbered 0 and 1, together carry the record and its
-- checksum, which fold to zero, and are well-formed commands.
pub write_alarm_fragments :
    (alarm : List ℕ)
    → IsArray 16 alarm
    → (joined (write_alarm alarm) ≡ alarm ++ (xor_fold alarm ∷ []))
      × (xor_fold (joined (write_alarm alarm)) ≡ 0)
      × (take 1 (write_alarm alarm).0.payload ≡ 0 ∷ [])
      × (take 1 (write_alarm alarm).1.payload ≡ 1 ∷ [])
      × IsWellFormed (write_alarm alarm).0
      × IsWellFormed (write_alarm alarm).1
unfolding write_alarm
write_alarm_fragments alarm h = (
  joined-write_alarm alarm h.0,
  ap xor_fold (joined-write_alarm alarm h.0) ∙ xor_fold_checksum alarm,
  refl,
  refl,
  first-IsWellFormed alarm h,
  second-IsWellFormed alarm h,
)

sunrise_frame-IsWellFormed :
    (dst i : ℕ) (fragment tail : List ℕ)
    → dst < 2 ^ 16
    → i < 256
    → IsArray 8 fragment
    → All IsByte tail
    → length tail ≤ 1
    → IsWellFormed (sunrise_frame dst i fragment tail)
unfolding sunrise_frame
sunrise_frame-IsWellFormed dst i fragment tail hd hi hf ht n = record {
  destination_range = hd;
  vendor_range = omega arith;
  client_opcode = omega arith;
  opcode_range = omega arith;
  payload_fits = omega (arith, hf.0, length-append fragment tail);
  payload_bytes = (hi, All-append-IsByte fragment tail hf.1 ht);
}

-- The payload bytes of the three frames, behind the index bytes.
abbrev pub sun_bytes : Command × Command × Command → List ℕ
sun_bytes (a, b, c) = drop 1 a.payload ++ (drop 1 b.payload ++ drop 1 c.payload)

-- For a 16-bit destination and three fragments of eight bytes, the three frames are well-formed,
-- carry the 24 bytes in order and a last byte that makes the whole fold to zero.
pub sunrise_sunset_frames :
    (dst : ℕ) (f0 f1 f2 : List ℕ)
    → dst < 2 ^ 16
    → IsArray 8 f0
    → IsArray 8 f1
    → IsArray 8 f2
    → (sun_bytes (sunrise_sunset dst f0 f1 f2)
        ≡ (f0 ++ (f1 ++ f2)) ++ (xor_fold (f0 ++ (f1 ++ f2)) ∷ []))
      × (xor_fold (sun_bytes (sunrise_sunset dst f0 f1 f2)) ≡ 0)
      × IsWellFormed (sunrise_sunset dst f0 f1 f2).0
      × IsWellFormed (sunrise_sunset dst f0 f1 f2).1
      × IsWellFormed (sunrise_sunset dst f0 f1 f2).2
unfolding xor_fold
sunrise_sunset_frames dst f0 f1 f2 hd h0 h1 h2 = (
  layout,
  ap xor_fold layout ∙ xor_fold_checksum (f0 ++ (f1 ++ f2)),
  unfold sunrise_sunset in
      sunrise_frame-IsWellFormed dst 0 f0 [] hd (omega arith) h0 tt (omega arith),
  unfold sunrise_sunset in
      sunrise_frame-IsWellFormed dst 1 f1 [] hd (omega arith) h1 tt (omega arith),
  unfold sunrise_sunset in
      sunrise_frame-IsWellFormed dst 2 f2 _ hd (omega arith) h2 (last_byte, tt) (omega arith),
)
  where
    folded : xor_fold_from (xor_fold_from (xor_fold_from 0 f0) f1) f2 ≡ xor_fold (f0 ++ (f1 ++ f2))
    folded =
        xor_fold_from_start _ f2
        ∙ ap (λ (t : ℕ). bit_xor t (xor_fold f2)) (xor_fold_from_start _ f1)
        ∙ xor_assoc (xor_fold f0) (xor_fold f1) (xor_fold f2)
        ∙ ap (bit_xor (xor_fold f0)) (sym (xor_fold-append f1 f2))
        ∙ sym (xor_fold-append f0 (f1 ++ f2))

    last_byte : xor_fold_from (xor_fold_from (xor_fold_from 0 f0) f1) f2 < 256
    last_byte = rw folded (
        xor_fold-IsByte _
          (All-append-IsByte f0 (f1 ++ f2) h0.1 (All-append-IsByte f1 f2 h1.1 h2.1)))

    layout :
        sun_bytes (sunrise_sunset dst f0 f1 f2)
        ≡ (f0 ++ (f1 ++ f2)) ++ (xor_fold (f0 ++ (f1 ++ f2)) ∷ [])
    layout =
        unfold sunrise_sunset in
        rw (folded, append-nil f0, append-nil f1)
          (sym (append_assoc f0 (f1 ++ f2) _ ∙ ap (λ (t : List ℕ). f0 ++ t) (append_assoc f1 f2 _)))
