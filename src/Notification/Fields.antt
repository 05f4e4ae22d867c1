-- ===== src/Notification/Fields.antt =====
-- notification.go: the outcome of every parser on every notification, and the fields they read.
use pigsydust.Prelude.{
  ℕ, ◌+◌, ◌*◌, ◌/◌, ◌%◌, ◌^◌, ◌≤◌, ◌<◌, ◌≡◌, ◌≢◌, ◌⊎◌, inl, inr, refl, ap, sym, ◌∙◌, arith,
}
use pigsydust.Prelude.{not, ltb, ◌==◌, if◌then◌else◌, bit_and, List, [], ◌∷◌, length, drop}
use pigsydust.Prelude.{==_true, ==_iff, Bool-cases, ltb→lt}
use pigsydust.Prelude.Go.{
  Error, Go, ok, err, index_ok, wrapped, err_short_packet, err_unexpected_opcode,
}
use pigsydust.Prelude.{le_of_ltb, refuted, ltb-false}
use pigsydust.Bits.{and_mask, and_bit_split}
use pigsydust.Byteutil.{byte_at}
use pigsydust.Protocol.{op_notify_status_poll, op_notify_led_or_slot, op_notify_alarm_fragment}
use pigsydust.Notification.{Notification, parse_status_flags}
use pigsydust.Notification.Payload.{DeviceStatus, LedState, checked, device_status_body}
use pigsydust.Notification.Payload.{
  parse_device_status, led_state_body, parse_led_state, parse_slot_assignment,
}
use pigsydust.Notification.Payload.{alarm_fragment_body, parse_alarm_fragment}

-- What a parser of the notifications of one opcode with `need` payload bytes may do: refuse another
-- opcode, refuse a short payload, or return a value that satisfies `P`.
pub Outcome {ℓ κ} : {A : Type ℓ} → ℕ → ℕ → Notification → (A → Type κ) → Go A → Type (ℓ ⊔ κ)
Outcome {A = A} opcode need n P r =
    ((n.opcode ≢ opcode) × (r ≡ err (wrapped err_unexpected_opcode n.opcode)))
    ⊎ ((n.opcode ≡ opcode)
        × ((length n.payload < need) × (r ≡ err (wrapped err_short_packet (length n.payload)))))
    ⊎ ((n.opcode ≡ opcode) × ((need ≤ length n.payload) × ((a : A) × ((r ≡ ok a) × P a))))

checked-Outcome {ℓ κ} :
    {A : Type ℓ} (P : A → Type κ) (opcode need : ℕ) (n : Notification) (body : Go A)
    → (need ≤ length n.payload → (a : A) × ((body ≡ ok a) × P a))
    → Outcome opcode need n P (checked opcode need n body)
unfolding checked Outcome
checked-Outcome P opcode need n body good = elim (Bool-cases (n.opcode == opcode)) [
  | inr other ↦ inl (refuted _ _ other, rw (checked, other) refl)
  | inl same ↦ elim (Bool-cases (ltb (length n.payload) need)) [
    | inl short ↦
        inr (inl ((==_iff _ _).0 same, (ltb→lt _ _ short, rw (checked, same, short) refl)))
    | inr long ↦ inr (
        inr (
          (==_iff _ _).0 same,
          (le_of_ltb _ _ long, rw (checked, same, long) (good (le_of_ltb _ _ long))),
        ))
  ]
]

-- The status that a payload of ten bytes at least spells.
abbrev pub spelled_status : Notification → DeviceStatus
spelled_status n = record {
  address = n.source;
  on = not (byte_at n.payload 9 == 0);
  mac =
      0
      ∷ 0
      ∷ byte_at n.payload 7
      ∷ byte_at n.payload 6
      ∷ byte_at n.payload 5
      ∷ byte_at n.payload 4
      ∷ [];
  routing_metric = byte_at n.payload 8;
  device_type = byte_at n.payload 1;
  device_subtype = byte_at n.payload 2;
  status_byte = byte_at n.payload 3;
  status_flags = parse_status_flags (byte_at n.payload 3);
}

-- The parser of a status response refuses another opcode and a payload of fewer than ten bytes, and
-- otherwise reads every field at its offset; it never panics.
pub parse_device_status-Outcome :
    (n : Notification)
    → Outcome op_notify_status_poll 10 n (λ d. d ≡ spelled_status n) (parse_device_status n)
unfolding parse_device_status
parse_device_status-Outcome n =
    checked-Outcome _ op_notify_status_poll 10 n _ (λ h. (_, (read n.payload h, refl)))
  where
    read :
        (b : List ℕ)
        → 10 ≤ length b
        → device_status_body n.source b
          ≡ ok (
              spelled_status
                (record { source = n.source; opcode = n.opcode; vendor = n.vendor; payload = b }))
    read b h =
        unfold device_status_body in
        rw
          (
            index_ok b 1 0 (omega arith),
            index_ok b 2 0 (omega arith),
            index_ok b 3 0 (omega arith),
            index_ok b 8 0 (omega arith),
            index_ok b 9 0 (omega arith),
            index_ok b 4 0 (omega arith),
            index_ok b 5 0 (omega arith),
            index_ok b 6 0 (omega arith),
            index_ok b 7 0 (omega arith),
          )
          refl

-- The parser of an LED state refuses another opcode and a payload of fewer than six bytes, and
-- otherwise reads the two channels and levels at offsets 2 to 5; it never panics.
pub parse_led_state-Outcome :
    (n : Notification)
    → Outcome op_notify_led_or_slot 6 n
        (λ s. s ≡ record {
          blue_channel = byte_at n.payload 2;
          blue_level = byte_at n.payload 3;
          orange_channel = byte_at n.payload 4;
          orange_level = byte_at n.payload 5;
        })
        (parse_led_state n)
unfolding parse_led_state led_state_body
parse_led_state-Outcome n = checked-Outcome _ op_notify_led_or_slot 6 n _ (λ h. (
  _,
  (
    rw
        (
          index_ok n.payload 2 0 (omega arith),
          index_ok n.payload 3 0 (omega arith),
          index_ok n.payload 4 0 (omega arith),
          index_ok n.payload 5 0 (omega arith),
        )
        refl,
    refl,
  ),
))

slot_read :
    (n : Notification)
    → n.opcode ≡ op_notify_led_or_slot
    → 4 ≤ length n.payload
    → parse_slot_assignment n ≡ ok (byte_at n.payload 3)
unfolding parse_slot_assignment checked
slot_read n op long = rw (==_true _ _ op, ltb-false _ _ long) (index_ok n.payload 3 0 (omega arith))

-- The parser of an alarm fragment refuses another opcode and an empty payload; otherwise the slot is
-- the first byte, the data are the others, and the index is 0, whatever fragment arrived.
pub parse_alarm_fragment-Outcome :
    (n : Notification)
    → Outcome op_notify_alarm_fragment 1 n
        (λ f. f ≡ record { slot = byte_at n.payload 0; part = 0; fragment = drop 1 n.payload })
        (parse_alarm_fragment n)
unfolding parse_alarm_fragment alarm_fragment_body
parse_alarm_fragment-Outcome n =
    checked-Outcome _ op_notify_alarm_fragment 1 n _
      (λ h. (_, (rw (index_ok n.payload 0 0 (omega arith)) refl, refl)))

-- An LED state and a slot assignment share their opcode: whenever a notification parses as an LED
-- state, it also parses as a slot assignment, whose slot is the blue level.
pub parse_slot_assignment-parse_led_state :
    (n : Notification) (s : LedState)
    → parse_led_state n ≡ ok s
    → parse_slot_assignment n ≡ ok s.blue_level
unfolding Outcome
parse_slot_assignment-parse_led_state n s e = elim (parse_led_state-Outcome n) [
  | inl (other, r) ↦ absurd (no_value (sym r ∙ e))
  | inr (inl (op, (short, r))) ↦ absurd (no_value (sym r ∙ e))
  | inr (inr (op, (long, (v, (r, is))))) ↦
      let same : v ≡ s = ok_injective (sym r ∙ e) in
      slot_read n op (omega arith) ∙ ap (λ (x : LedState). ok x.blue_level) (sym is ∙ same)
]
  where
    no_value : {x : Error} {y : LedState} → ◌≡◌ {A = Go LedState} (err x) (ok y) → ⊥
    no_value h = cc

    ok_injective : {x y : LedState} → ◌≡◌ {A = Go LedState} (ok x) (ok y) → x ≡ y
    ok_injective h = cc

alarm_bit : (b : ℕ) → bit_and b 2 ≡ b / 2 % 2 * 2
alarm_bit b =
    ap (λ (x : ℕ). bit_and x 2) {x = b} {y = b / 4 * 2 ^ 2 + (b / 2 % 2 * 2 ^ 1 + b % 2)}
      (omega arith)
    ∙ and_bit_split 1 (b / 4) (b / 2 % 2) (b % 2) (omega arith) (omega arith)
    ∙ omega arith

-- The flags of a status byte spell the byte: the online bit, twice the alarm bit and four times the
-- version.
pub parse_status_flags_sum :
    (b : ℕ)
    → let f = parse_status_flags b in
      b ≡ (if f.online then 1 else 0) + 2 * (if f.alarm_dev then 1 else 0) + 4 * f.version
unfolding parse_status_flags
parse_status_flags_sum b = rw (and_mask 1 b, alarm_bit b) (ground arith)
