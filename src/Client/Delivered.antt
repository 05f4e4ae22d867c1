-- ===== src/Client/Delivered.antt =====
-- client.go: what a subscription hands on, in any order of its steps.
use pigsydust.Prelude.{◌⊎◌, inl, inr, ℕ, ◌≤◌, ◌≡◌, refl, sym, ap, ◌∙◌, arith, false}
use pigsydust.Prelude.{true, List, [], ◌∷◌, ◌++◌, length, length-append, append-nil, append_assoc}
use pigsydust.Prelude.{Option, as_list}
use pigsydust.Crypto.{Aes}
use pigsydust.Notification.{Notification}
use pigsydust.Notification.Decrypt.{decrypt_notification_cases}
use pigsydust.Client.{pump}
use pigsydust.Client.Delivery.{
  Pipe, out_size, kept, decoded, Step, delivers, closes, cancels, takes, hands_on, returns,
  receives, Reaches, here, there, fresh_pipe,
}

module _ (aes : Aes) (sk gw_mac : List ℕ) where
  pub pump-cons :
      (pkt : List ℕ) (packets : List (List ℕ))
      → pump aes sk gw_mac (pkt ∷ packets)
        ≡ as_list (decoded aes sk gw_mac pkt) ++ pump aes sk gw_mac packets
  unfolding pump decoded kept
  pump-cons pkt packets = elim (decrypt_notification_cases aes sk gw_mac pkt) [
    | inl (h, e) ↦ rw (pump, e) refl
    | inr (inl (h, e)) ↦ rw (pump, e) refl
    | inr (inr (h, (n, e, ten))) ↦ rw (pump, e) refl
  ]

  pump-snoc :
      (packets : List (List ℕ)) (pkt : List ℕ)
      → pump aes sk gw_mac (packets ++ (pkt ∷ []))
        ≡ pump aes sk gw_mac packets ++ as_list (decoded aes sk gw_mac pkt)
  pump-snoc [] pkt = pump-cons pkt [] ∙ (unfold pump in append-nil _)
  pump-snoc (p ∷ packets) pkt =
      pump-cons p (packets ++ (pkt ∷ []))
      ∙ ap (λ (t : List Notification). as_list (decoded aes sk gw_mac p) ++ t)
          (pump-snoc packets pkt)
      ∙ sym (append_assoc (as_list (decoded aes sk gw_mac p)) (pump aes sk gw_mac packets) _)
      ∙ ap (λ (t : List Notification). t ++ as_list (decoded aes sk gw_mac pkt))
          (sym (pump-cons p packets))

  -- What the invariant says of a subscription: while the goroutine runs, what was received, what the
  -- channel holds and what waits to be sent are together what the packets that it took decrypt to, in
  -- order; later that begins with what was received and what the channel holds. The channel is never
  -- over its size, and the client counts as subscribed just while the goroutine runs.
  pub record IsFaithful (s : Pipe) : Type 0 where
    pub whole :
        (s.running ≡ false)
        ⊎ (s.received ++ (s.queue ++ as_list s.pending) ≡ pump aes sk gw_mac s.taken)
    pub prefix :
        (lost : List Notification) × (s.received ++ (s.queue ++ lost) ≡ pump aes sk gw_mac s.taken)
    pub room : length s.queue ≤ out_size
    pub flag : s.notify_active ≡ s.running

  while_running :
      (s : Pipe)
      → IsFaithful s
      → s.running ≡ true
      → s.received ++ (s.queue ++ as_list s.pending) ≡ pump aes sk gw_mac s.taken
  while_running s f running = elim f.whole [ inl over ↦ absurd (ground arith) | inr whole ↦ whole ]

  fresh_pipe-IsFaithful : IsFaithful fresh_pipe
  fresh_pipe-IsFaithful = record {
    whole = inr (unfold pump in refl);
    prefix = ([], unfold pump in refl);
    room = omega arith;
    flag = refl;
  }

  Step-IsFaithful : {s t : Pipe} → Step aes sk gw_mac s t → IsFaithful s → IsFaithful t
  Step-IsFaithful (delivers s pkt o) f = record {
    whole = f.whole;
    prefix = f.prefix;
    room = f.room;
    flag = f.flag;
  }
  Step-IsFaithful (closes s o) f = record {
    whole = f.whole;
    prefix = f.prefix;
    room = f.room;
    flag = f.flag;
  }
  Step-IsFaithful (cancels s) f = record {
    whole = f.whole;
    prefix = f.prefix;
    room = f.room;
    flag = f.flag;
  }
  Step-IsFaithful (takes s pkt rest running idle raw) f = record {
    whole = inr kept_whole;
    prefix = (new, kept_whole);
    room = f.room;
    flag = f.flag;
  }
    where
      new : List Notification
      new = as_list (decoded aes sk gw_mac pkt)

      before : s.received ++ s.queue ≡ pump aes sk gw_mac s.taken
      before =
          ap (λ (t : List Notification). s.received ++ t)
            (sym (append-nil s.queue)
              ∙ ap (λ (o : Option Notification). s.queue ++ as_list o) (sym idle))
          ∙ while_running s f running

      kept_whole : s.received ++ (s.queue ++ new) ≡ pump aes sk gw_mac (s.taken ++ (pkt ∷ []))
      kept_whole =
          sym (append_assoc s.received s.queue new)
          ∙ ap (λ (t : List Notification). t ++ new) before
          ∙ sym (pump-snoc s.taken pkt)
  Step-IsFaithful (hands_on s n running waits room) f = record {
    whole = inr kept_whole;
    prefix = ([], kept_whole);
    room = omega (arith, length-append s.queue (n ∷ []));
    flag = f.flag;
  }
    where
      kept_whole : s.received ++ ((s.queue ++ (n ∷ [])) ++ []) ≡ pump aes sk gw_mac s.taken
      kept_whole =
          ap (λ (t : List Notification). s.received ++ t)
            (append-nil (s.queue ++ (n ∷ []))
              ∙ ap (λ (o : Option Notification). s.queue ++ as_list o) (sym waits))
          ∙ while_running s f running
  Step-IsFaithful (returns s running done) f = record {
    whole = inl refl;
    prefix = f.prefix;
    room = f.room;
    flag = refl;
  }
  Step-IsFaithful (receives s n rest queue) f = record {
    whole = elim f.whole [
      | inl over ↦ inl over
      | inr whole ↦ inr (moved (as_list s.pending) ∙ whole)
    ];
    prefix = (f.prefix.0, moved f.prefix.0 ∙ f.prefix.1);
    room = omega (arith, f.room, ap length queue);
    flag = f.flag;
  }
    where
      moved :
          (later : List Notification)
          → (s.received ++ (n ∷ [])) ++ (rest ++ later) ≡ s.received ++ (s.queue ++ later)
      moved later =
          append_assoc s.received (n ∷ []) (rest ++ later)
          ∙ ap (λ (t : List Notification). s.received ++ (t ++ later)) (sym queue)

  -- Whatever the transport, the context and the client's user do, in any order, from the start of a
  -- subscription on: as long as its goroutine runs, what was received, what the channel holds and what
  -- waits to be sent are together what the packets that were taken decrypt to, in order, and later
  -- what was received and what the channel holds are a beginning of that; the channel never holds more
  -- than 64, and the client counts as subscribed just while the goroutine runs.
  pub Reaches-IsFaithful : {s : Pipe} → Reaches aes sk gw_mac fresh_pipe s → IsFaithful s
  Reaches-IsFaithful path = from path fresh_pipe-IsFaithful
    where
      from : {s t : Pipe} → Reaches aes sk gw_mac s t → IsFaithful s → IsFaithful t
      from (here s) f = f
      from (there step path) f = from path (Step-IsFaithful step f)
