-- ===== src/Notification/Groups.antt =====
-- notification.go: what the parsers of lists return, the group list and the broadcast burst.
use pigsydust.Prelude.{ℕ, suc, ◌+◌, ◌≡◌, ◌≢◌, refl, ap, sym, ◌∙◌, arith, false, not, ltb, ◌==◌}
use pigsydust.Prelude.{
  ◌||◌, if◌then◌else◌, List, [], ◌∷◌, ◌++◌, length, All, Bool-cases, append_assoc, append-nil, inl,
  inr,
}
use pigsydust.Prelude.{==_true, ==_false}
use pigsydust.Prelude.Go.{ok, index}
use pigsydust.Byteutil.{zeros}
use pigsydust.Protocol.{op_notify_group_response, op_notify_status_broadcast}
use pigsydust.Notification.{Notification, parse_status_flags}
use pigsydust.Notification.Payload.{DeviceStatus, checked, groups_loop, parse_group_membership}
use pigsydust.Notification.Payload.{broadcast_slot, broadcast_loop, parse_device_status_broadcast}

-- A group number that a response can list.
abbrev pub IsListed : ℕ → Type 0
IsListed g = (g ≢ 0x00) × (g ≢ 0xFF)

-- What follows the listed groups: nothing, or a padding byte and anything.
pub data Padding : List ℕ → Type 0 where
  none_left : Padding []
  zero_byte : (rest : List ℕ) → Padding (0x00 ∷ rest)
  ff_byte : (rest : List ℕ) → Padding (0xFF ∷ rest)

listed_false : (g : ℕ) → IsListed g → (g == 0x00 || g == 0xFF) ≡ false
listed_false g (z, f) = rw (==_false g 0x00 z, ==_false g 0xFF f) refl

loop_listed :
    (done gs rest : List ℕ)
    → All IsListed gs
    → Padding rest
    → groups_loop done (gs ++ rest) ≡ done ++ gs
unfolding groups_loop
loop_listed done [] rest h none_left = sym (append-nil done)
loop_listed done [] rest h (zero_byte tail) = sym (append-nil done)
loop_listed done [] rest h (ff_byte tail) = sym (append-nil done)
loop_listed done (g ∷ gs) rest (h, hs) p =
    rw (groups_loop, listed_false g h)
      (loop_listed (done ++ (g ∷ [])) gs rest hs p ∙ append_assoc done (g ∷ []) gs)

-- The parser of a group response, given that opcode, returns the groups up to the first 0x00 or 0xFF
-- of the payload, or up to its end, in order.
pub parse_group_membership_listed :
    (n : Notification) (gs rest : List ℕ)
    → n.opcode ≡ op_notify_group_response
    → n.payload ≡ gs ++ rest
    → All IsListed gs
    → Padding rest
    → parse_group_membership n ≡ ok gs
unfolding parse_group_membership checked
parse_group_membership_listed n gs rest op payload listed padding =
    rw (==_true _ _ op, payload, not_short (length (gs ++ rest)))
      (ap (λ (xs : List ℕ). ok xs) (loop_listed [] gs rest listed padding))
  where
    not_short : (k : ℕ) → ltb k 0 ≡ false
    not_short k = ground arith

-- What one slot of a broadcast reports: a zero address reports nothing.
abbrev pub reported : ℕ → ℕ → ℕ → ℕ → List DeviceStatus
reported addr metric level flags =
    if addr == 0
    then []
    else (record {
      address = addr;
      on = not (level == 0);
      mac = zeros 6;
      routing_metric = metric;
      device_type = 0;
      device_subtype = 0;
      status_byte = flags;
      status_flags = parse_status_flags flags;
    }
        ∷ [])

slot_reported :
    (payload : List ℕ) (offset a m l f : ℕ)
    → index payload offset ≡ ok a
    → index payload (offset + 1) ≡ ok m
    → index payload (offset + 2) ≡ ok l
    → index payload (offset + 3) ≡ ok f
    → broadcast_slot payload offset ≡ ok (reported a m l f)
unfolding broadcast_slot
slot_reported payload offset a m l f ha hm hl hf = elim (Bool-cases (a == 0)) [
  | inl free ↦ rw (broadcast_slot, ha, free) refl
  | inr used ↦ rw (broadcast_slot, ha, used, hf, hm, hl) refl
]

-- The parser of a broadcast, given that opcode and eight payload bytes at least, returns what its two
-- slots of four bytes report, the first slot first; the bytes after the slots are ignored.
pub parse_device_status_broadcast_slots :
    (n : Notification) (a0 m0 l0 f0 a1 m1 l1 f1 : ℕ) (rest : List ℕ)
    → n.opcode ≡ op_notify_status_broadcast
    → n.payload ≡ a0 ∷ m0 ∷ l0 ∷ f0 ∷ a1 ∷ m1 ∷ l1 ∷ f1 ∷ rest
    → parse_device_status_broadcast n ≡ ok (reported a0 m0 l0 f0 ++ reported a1 m1 l1 f1)
unfolding parse_device_status_broadcast checked
parse_device_status_broadcast_slots n a0 m0 l0 f0 a1 m1 l1 f1 rest op payload =
    rw (==_true _ _ op, payload, not_short (length rest))
      (loops (a0 ∷ m0 ∷ l0 ∷ f0 ∷ a1 ∷ m1 ∷ l1 ∷ f1 ∷ rest) first second)
  where
    not_short : (k : ℕ) → ltb (suc (suc (suc (suc (suc (suc (suc (suc k)))))))) 8 ≡ false
    not_short k = ground arith

    all : List ℕ
    all = a0 ∷ m0 ∷ l0 ∷ f0 ∷ a1 ∷ m1 ∷ l1 ∷ f1 ∷ rest

    first : broadcast_slot all 0 ≡ ok (reported a0 m0 l0 f0)
    first =
        slot_reported all 0 a0 m0 l0 f0 (unfold index in refl) (unfold index in refl)
          (unfold index in refl) (unfold index in refl)

    second : broadcast_slot all 4 ≡ ok (reported a1 m1 l1 f1)
    second =
        slot_reported all 4 a1 m1 l1 f1 (unfold index in refl) (unfold index in refl)
          (unfold index in refl) (unfold index in refl)

    loops :
        (bytes : List ℕ)
        → broadcast_slot bytes 0 ≡ ok (reported a0 m0 l0 f0)
        → broadcast_slot bytes 4 ≡ ok (reported a1 m1 l1 f1)
        → broadcast_loop bytes [] (0 ∷ 4 ∷ []) ≡ ok (reported a0 m0 l0 f0 ++ reported a1 m1 l1 f1)
    loops bytes s0 s4 = unfold broadcast_loop in rw (s0, s4) refl
