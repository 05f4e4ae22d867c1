-- ===== src/Ble/Bluez/Heard.antt =====
-- ble/chario_linux.go: what the read loop forwards, and what a client makes of it.
use pigsydust.Prelude.{ℕ, ◌/◌, ◌%◌, ◌≡◌, refl, ap, ◌∙◌, arith, map}
use pigsydust.Prelude.{true, false, List, [], ◌∷◌, ◌++◌, Option, none, some}
use pigsydust.Crypto.{Aes}
use pigsydust.Client.{pump}
use pigsydust.Client.Stream.{Report, Traffic, delivered, pump-Traffic}
use pigsydust.Byteutil.{le16}
use pigsydust.Ble.Scan.{hci_notification}
use pigsydust.Ble.Bluez.Hci.{
  Sending, room, full, done, Round, context_done, interrupted, poll_failed, no_input, read_again,
  read_failed, frame, Forwarded, forward, hci_loop,
}

-- A value notification as the host's socket delivers it: `link` and `sizes` are the connection and
-- the two lengths in the header.
abbrev pub att_frame : ℕ × ℕ → (ℕ × ℕ) × (ℕ × ℕ) → ℕ → List ℕ → List ℕ
att_frame (link_low, link_high) ((a, b), (c, d)) value_handle packet =
    2
    ∷ link_low
    ∷ link_high
    ∷ a
    ∷ b
    ∷ c
    ∷ d
    ∷ 4
    ∷ 0
    ∷ 0x1B
    ∷ value_handle % 256
    ∷ value_handle / 256
    ∷ packet

hci_notification-att_frame :
    (link : ℕ × ℕ) (sizes : (ℕ × ℕ) × (ℕ × ℕ)) (value_handle : ℕ) (packet : List ℕ)
    → hci_notification value_handle (att_frame link sizes value_handle packet) ≡ some packet
unfolding hci_notification le16
hci_notification-att_frame (l, h) ((a, b), (c, d)) value_handle packet = ground arith

-- Rounds of the loop that go on, and the packets that the node sent in them: rounds without a frame,
-- frames that are no notifications of the characteristic, and its notifications, with room for them.
pub data Heard (value_handle : ℕ) : List Round → List (List ℕ) → Type 0 where
  silence : Heard value_handle [] []
  woken :
      {rounds : List Round} {packets : List (List ℕ)}
      → Heard value_handle rounds packets
      → Heard value_handle (interrupted ∷ rounds) packets
  timed_out :
      {rounds : List Round} {packets : List (List ℕ)}
      → Heard value_handle rounds packets
      → Heard value_handle (no_input ∷ rounds) packets
  put_off :
      {rounds : List Round} {packets : List (List ℕ)}
      → Heard value_handle rounds packets
      → Heard value_handle (read_again ∷ rounds) packets
  other :
      {rounds : List Round} {packets : List (List ℕ)} (buf : List ℕ) (sending : Sending)
      → hci_notification value_handle buf ≡ none
      → Heard value_handle rounds packets
      → Heard value_handle (frame buf sending ∷ rounds) packets
  sent :
      {rounds : List Round} {packets : List (List ℕ)} (link : ℕ × ℕ) (sizes : (ℕ × ℕ) × (ℕ × ℕ))
      (packet : List ℕ)
      → Heard value_handle rounds packets
      → Heard value_handle
          (frame (att_frame link sizes value_handle packet) room ∷ rounds)
          (packet ∷ packets)

hci_loop-Heard :
    (value_handle : ℕ) {rounds : List Round} {packets : List (List ℕ)}
    → Heard value_handle rounds packets
    → hci_loop value_handle rounds ≡ record { packets = packets; ended = false }
unfolding hci_loop forward
hci_loop-Heard vh silence = refl
hci_loop-Heard vh (woken h) = hci_loop-Heard vh h
hci_loop-Heard vh (timed_out h) = hci_loop-Heard vh h
hci_loop-Heard vh (put_off h) = hci_loop-Heard vh h
hci_loop-Heard vh (other buf sending e h) = rw (e) (hci_loop-Heard vh h)
hci_loop-Heard vh (sent link sizes packet h) =
    rw (hci_notification-att_frame link sizes vh packet, forward, hci_loop-Heard vh h) refl

-- From the host's socket to the reports: of the rounds that the read loop goes through, a client that
-- decrypts what the loop forwards gets exactly the notifications that nodes sealed for its session,
-- in order, when the notifications of the characteristic always find room in the channel.
pub pump-hci_loop :
    (aes : Aes) (sk gw_mac : List ℕ) (value_handle : ℕ) {rounds : List Round}
    {packets : List (List ℕ)} {reports : List Report}
    → Heard value_handle rounds packets
    → Traffic aes sk gw_mac packets reports
    → pump aes sk gw_mac (hci_loop value_handle rounds).packets ≡ map delivered reports
pump-hci_loop aes sk gw_mac value_handle heard traffic =
    ap (λ r. pump aes sk gw_mac (Forwarded.packets r)) (hci_loop-Heard value_handle heard)
    ∙ pump-Traffic aes sk gw_mac traffic

-- Once the context is done the loop ends, and it has forwarded exactly what it forwards of the rounds
-- before that.
pub hci_loop-context_done :
    (value_handle : ℕ) (before after : List Round)
    → hci_loop value_handle (before ++ (context_done ∷ after))
      ≡ record { packets = (hci_loop value_handle before).packets; ended = true }
unfolding hci_loop forward
hci_loop-context_done vh [] after = refl
hci_loop-context_done vh (context_done ∷ before) after = refl
hci_loop-context_done vh (interrupted ∷ before) after = hci_loop-context_done vh before after
hci_loop-context_done vh (poll_failed ∷ before) after = refl
hci_loop-context_done vh (no_input ∷ before) after = hci_loop-context_done vh before after
hci_loop-context_done vh (read_again ∷ before) after = hci_loop-context_done vh before after
hci_loop-context_done vh (read_failed ∷ before) after = refl
hci_loop-context_done vh (frame buf sending ∷ before) after =
    ap (forward (hci_notification vh buf) sending) (hci_loop-context_done vh before after)
    ∙ ends (hci_notification vh buf) sending (hci_loop vh before)
  where
    ends :
        (o : Option (List ℕ)) (sending : Sending) (r : Forwarded)
        → forward o sending (record { packets = r.packets; ended = true })
          ≡ record { packets = (forward o sending r).packets; ended = true }
    ends none sending r = refl
    ends (some packet) room r = refl
    ends (some packet) full r = refl
    ends (some packet) done r = refl
