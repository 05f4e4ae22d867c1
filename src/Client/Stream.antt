-- ===== src/Client/Stream.antt =====
-- client.go: `Notifications` and the goroutine that decrypts its packets.
use pigsydust.Prelude.{ℕ, ◌^◌, ◌<◌, ◌≡◌, inl, inr, refl, ap, ◌∙◌, List, [], ◌∷◌}
use pigsydust.Prelude.{length, true, false, map, All}
use pigsydust.Prelude.Go.{ok, err, Error, bare, context, err_not_logged_in, already_subscribed}
use pigsydust.Byteutil.{le16}
use pigsydust.Crypto.{Aes}
use pigsydust.Notification.{Notification, decrypt_notification}
use pigsydust.Notification.Decrypt.{sealed, decrypt_notification-sealed, decrypt_notification_cases}
use pigsydust.Client.{Client, Transport, with_notify, pump, subscribed, notifications}

-- A notification as a node makes it, before it is sealed.
pub record Report : Type 0 where
  pub sno : List ℕ
  pub origin : ℕ
  pub opcode : ℕ
  pub vendor_low : ℕ
  pub vendor_high : ℕ
  pub payload : List ℕ
  pub sno_length : length sno ≡ 3
  pub payload_length : length payload ≡ 10
  pub origin_range : origin < 2 ^ 16

abbrev pub packet_of : Aes → List ℕ → List ℕ → Report → List ℕ
packet_of aes sk gw_mac r =
    sealed aes sk gw_mac r.sno r.origin (r.opcode ∷ r.vendor_low ∷ r.vendor_high ∷ r.payload)

abbrev pub delivered : Report → Notification
delivered r = record {
  source = r.origin;
  opcode = r.opcode;
  vendor = le16 (r.vendor_low ∷ r.vendor_high ∷ []);
  payload = r.payload;
}

-- What the transport delivers: packets that nodes sealed for this session, and packets that do not
-- decrypt under its key.
pub data Traffic (aes : Aes) (sk gw_mac : List ℕ) : List (List ℕ) → List Report → Type 0 where
  quiet : Traffic aes sk gw_mac [] []
  genuine :
      {packets : List (List ℕ)} {reports : List Report} (r : Report)
      → Traffic aes sk gw_mac packets reports
      → Traffic aes sk gw_mac (packet_of aes sk gw_mac r ∷ packets) (r ∷ reports)
  alien :
      {packets : List (List ℕ)} {reports : List Report} (pkt : List ℕ) (e : Error)
      → decrypt_notification aes sk gw_mac pkt ≡ err e
      → Traffic aes sk gw_mac packets reports
      → Traffic aes sk gw_mac (pkt ∷ packets) reports

pub pump_ok :
    (aes : Aes) (sk gw_mac pkt : List ℕ) (packets : List (List ℕ)) (n : Notification)
    → decrypt_notification aes sk gw_mac pkt ≡ ok n
    → pump aes sk gw_mac (pkt ∷ packets) ≡ n ∷ pump aes sk gw_mac packets
unfolding pump
pump_ok aes sk gw_mac pkt packets n e = rw (pump, e) refl

pub pump_err :
    (aes : Aes) (sk gw_mac pkt : List ℕ) (packets : List (List ℕ)) (e : Error)
    → decrypt_notification aes sk gw_mac pkt ≡ err e
    → pump aes sk gw_mac (pkt ∷ packets) ≡ pump aes sk gw_mac packets
unfolding pump
pump_err aes sk gw_mac pkt packets e refused = rw (pump, refused) refl

-- The stream hands on exactly the notifications that nodes sealed for the session, in the order of
-- arrival, however many packets that do not decrypt stand between them.
pub pump-Traffic :
    (aes : Aes) (sk gw_mac : List ℕ) {packets : List (List ℕ)} {reports : List Report}
    → Traffic aes sk gw_mac packets reports
    → pump aes sk gw_mac packets ≡ map delivered reports
pump-Traffic aes sk gw_mac quiet = unfold pump in refl
pump-Traffic aes sk gw_mac (genuine {packets = packets} r rest) =
    pump_ok aes sk gw_mac _ packets (delivered r) (
      decrypt_notification-sealed aes sk gw_mac r.sno r.payload r.origin r.opcode r.vendor_low
        r.vendor_high r.sno_length r.payload_length r.origin_range)
    ∙ ap (λ (ns : List Notification). delivered r ∷ ns) (pump-Traffic aes sk gw_mac rest)
pump-Traffic aes sk gw_mac (alien {packets = packets} pkt e refused rest) =
    pump_err aes sk gw_mac pkt packets e refused ∙ pump-Traffic aes sk gw_mac rest

-- Every notification of the stream has ten payload bytes, whatever packets arrive.
pub pump_payloads :
    (aes : Aes) (sk gw_mac : List ℕ) (packets : List (List ℕ))
    → All (λ n. length n.payload ≡ 10) (pump aes sk gw_mac packets)
pump_payloads aes sk gw_mac [] = unfold pump in tt
pump_payloads aes sk gw_mac (pkt ∷ packets) = elim (decrypt_notification_cases aes sk gw_mac pkt) [
  | inl (h, e) ↦ rw (pump_err aes sk gw_mac pkt packets _ e) (pump_payloads aes sk gw_mac packets)
  | inr (inl (h, e)) ↦
      rw (pump_err aes sk gw_mac pkt packets _ e) (pump_payloads aes sk gw_mac packets)
  | inr (inr (h, (n, e, ten))) ↦
      rw (pump_ok aes sk gw_mac pkt packets n e) (ten, pump_payloads aes sk gw_mac packets)
]

module _ {T : Type 0} (transport : Transport T) where
  -- A second subscription is refused and nothing changes; without a login the subscription is refused
  -- and none is active afterwards; after a failed call of the transport none is active either; and a
  -- successful one is active and decrypts with the session's key and gateway. The session itself is
  -- the same in all cases.
  pub notifications_cases :
      (c : Client) (t t1 : T)
      → ((c.notify_active ≡ true) → notifications transport c t ≡ (err already_subscribed, (c, t)))
        × ((c.notify_active ≡ false)
            → c.session.logged_in ≡ false
            → notifications transport c t
              ≡ (err (bare err_not_logged_in), (with_notify c false, t)))
        × ((e : Error)
            → c.notify_active ≡ false
            → c.session.logged_in ≡ true
            → transport.subscribe_notify t ≡ (err e, t1)
            → notifications transport c t ≡ (err (context e), (with_notify c false, t1)))
        × (c.notify_active ≡ false
            → c.session.logged_in ≡ true
            → transport.subscribe_notify t ≡ (ok tt, t1)
            → notifications transport c t
              ≡ (ok (c.session.key, c.session.gw_mac), (with_notify c true, t1)))
  unfolding notifications subscribed
  notifications_cases c t t1 = (
    λ a. rw a refl,
    λ a l. rw (a, l) refl,
    λ e a l s. rw (a, l, s) refl,
    λ a l s. rw (a, l, s) refl,
  )
