-- ===== src/Programs/Intime.antt =====
-- ble/cmd/listen: what the loop hears of packets that come in time.
use pigsydust.Prelude.{ℕ, false, List, [], ◌∷◌, ◌++◌, map, ◌≡◌, refl, sym, ap, ◌∙◌}
use pigsydust.Prelude.Go.{err, Error}
use pigsydust.Crypto.{Aes}
use pigsydust.Client.{Client, pump}
use pigsydust.Client.Delivery.{decoded, kept}
use pigsydust.Client.Stream.{pump_ok, pump_err}
use pigsydust.Notification.{decrypt_notification}
use pigsydust.Notification.Decrypt.{decrypt_notification_cases}
use pigsydust.Prelude.{inl, inr}
use pigsydust.Programs.Listen.{Heard, heard, time_up}
use pigsydust.Programs.Runs.{Arrival, elapsed, arrives, hear, hears}

-- Packets that come in time, and the end of the time behind them.
abbrev pub in_time : List (List ℕ) → List Arrival → List Arrival
in_time packets later = map (λ p. arrives p false) packets ++ (elapsed ∷ later)

hear-kept :
    (aes : Aes) (c : Client) (pkt : List ℕ) (packets : List (List ℕ)) (rounds : List Heard)
    → hear
        (decoded aes c.session.key c.session.gw_mac pkt)
        false
        (map (λ n. heard n false) (pump aes c.session.key c.session.gw_mac packets) ++ rounds)
      ≡ map (λ n. heard n false) (pump aes c.session.key c.session.gw_mac (pkt ∷ packets)) ++ rounds
unfolding hear decoded kept
hear-kept aes c pkt packets rounds =
    elim (decrypt_notification_cases aes c.session.key c.session.gw_mac pkt) [
      | inl (h, e) ↦ dropped _ e
      | inr (inl (h, e)) ↦ dropped _ e
      | inr (inr (h, (n, e, ten))) ↦
          ap (λ g. hear (kept g) false (after packets)) e
          ∙ ap (λ ns. map (λ n. heard n false) ns ++ rounds)
              (sym (pump_ok aes c.session.key c.session.gw_mac pkt packets n e))
    ]
  where
    after : List (List ℕ) → List Heard
    after pkts = map (λ n. heard n false) (pump aes c.session.key c.session.gw_mac pkts) ++ rounds

    dropped :
        (x : Error)
        → decrypt_notification aes c.session.key c.session.gw_mac pkt ≡ err x
        → hear
            (kept (decrypt_notification aes c.session.key c.session.gw_mac pkt))
            false
            (after packets)
          ≡ after (pkt ∷ packets)
    dropped x e =
        ap (λ g. hear (kept g) false (after packets)) e
        ∙ ap (λ ns. map (λ n. heard n false) ns ++ rounds)
            (sym (pump_err aes c.session.key c.session.gw_mac pkt packets x e))

-- The rounds of the listener's loop are the notifications of the stream.
pub hears-in_time :
    (aes : Aes) (c : Client) (packets : List (List ℕ)) (later : List Arrival)
    → hears aes c (in_time packets later)
      ≡ map (λ n. heard n false) (pump aes c.session.key c.session.gw_mac packets)
        ++ (time_up ∷ hears aes c later)
unfolding hears pump
hears-in_time aes c [] later = refl
hears-in_time aes c (pkt ∷ packets) later =
    ap (hear (decoded aes c.session.key c.session.gw_mac pkt) false)
      (hears-in_time aes c packets later)
    ∙ hear-kept aes c pkt packets (time_up ∷ hears aes c later)
