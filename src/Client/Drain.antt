-- ===== src/Client/Drain.antt =====
-- client.go: the end of a subscription whose transport has closed its channel.
use pigsydust.Prelude.{ℕ, ◌+◌, ◌*◌, ◌≤◌, ◌⊎◌, inl, inr, ◌≡◌, refl, sym, ap, ◌∙◌, arith}
use pigsydust.Prelude.{true, false, if◌then◌else◌, Bool-cases, List, [], ◌∷◌, ◌++◌, length}
use pigsydust.Prelude.{append-nil, append_assoc, length-append, Option, none, some, as_list}
use pigsydust.Crypto.{Aes}
use pigsydust.Notification.{Notification}
use pigsydust.Client.{pump}
use pigsydust.Client.Delivery.{
  Pipe, decoded, Step, delivers, closes, cancels, takes, hands_on, returns, receives, Reaches, here,
  there,
}
use pigsydust.Client.Delivered.{pump-cons}

module _ (aes : Aes) (sk gw_mac : List ℕ) where
  -- What the user has got, what the channel holds, what waits to be sent, and what the packets that
  -- are left decrypt to.
  abbrev pub due : Pipe → List Notification
  due s = ((s.received ++ s.queue) ++ as_list s.pending) ++ pump aes sk gw_mac s.raw

  -- A bound for the steps to come.
  abbrev pub work : Pipe → ℕ
  work s =
      3 * length s.raw
      + (2 * length (as_list s.pending) + (length s.queue + (if s.running then 1 else 0)))

  -- The number of steps.
  unfoldable pub steps : {s t : Pipe} → Reaches aes sk gw_mac s t → ℕ
  steps (here s) = 0
  steps (there step path) = 1 + steps path

  -- The goroutine has returned, with nothing left to take or to send.
  abbrev pub IsOver : Pipe → Type 0
  IsOver s = (s.running ≡ false) × ((s.notify_active ≡ false) × ((s.pending ≡ none) × (s.raw ≡ [])))

  -- A subscription whose transport has closed its channel, and which was not cancelled.
  record IsDraining (s : Pipe) : Type 0 where
    shut : s.raw_closed ≡ true
    stage : (s.running ≡ true) ⊎ IsOver s

  -- What one step does to such a subscription.
  record Drains (s t : Pipe) : Type 0 where
    after : IsDraining t
    less : 1 + work t ≤ work s
    same : due t ≡ due s

  pump-nil : pump aes sk gw_mac [] ≡ []
  pump-nil = unfold pump in refl

  takes-due :
      (s : Pipe) (pkt : List ℕ) (rest : List (List ℕ))
      → s.pending ≡ none
      → s.raw ≡ pkt ∷ rest
      → ((s.received ++ s.queue) ++ as_list (decoded aes sk gw_mac pkt)) ++ pump aes sk gw_mac rest
        ≡ due s
  takes-due s pkt rest idle raw =
      append_assoc (s.received ++ s.queue) (as_list (decoded aes sk gw_mac pkt)) _
      ∙ ap (λ (t : List Notification). (s.received ++ s.queue) ++ t)
          (sym (pump-cons aes sk gw_mac pkt rest))
      ∙ ap (λ (r : List (List ℕ)). (s.received ++ s.queue) ++ pump aes sk gw_mac r) (sym raw)
      ∙ ap (λ (t : List Notification). t ++ pump aes sk gw_mac s.raw)
          (sym (append-nil (s.received ++ s.queue))
            ∙ ap (λ (o : Option Notification). (s.received ++ s.queue) ++ as_list o) (sym idle))

  hands_on-due :
      (s : Pipe) (n : Notification)
      → s.pending ≡ some n
      → ((s.received ++ (s.queue ++ (n ∷ []))) ++ []) ++ pump aes sk gw_mac s.raw ≡ due s
  hands_on-due s n waits =
      ap (λ (t : List Notification). t ++ pump aes sk gw_mac s.raw)
        (append-nil (s.received ++ (s.queue ++ (n ∷ [])))
          ∙ sym (append_assoc s.received s.queue (n ∷ []))
          ∙ ap (λ (o : Option Notification). (s.received ++ s.queue) ++ as_list o) (sym waits))

  receives-due :
      (s : Pipe) (n : Notification) (rest : List Notification)
      → s.queue ≡ n ∷ rest
      → (((s.received ++ (n ∷ [])) ++ rest) ++ as_list s.pending) ++ pump aes sk gw_mac s.raw
        ≡ due s
  receives-due s n rest queue =
      ap (λ (t : List Notification). (t ++ as_list s.pending) ++ pump aes sk gw_mac s.raw)
        (append_assoc s.received (n ∷ []) rest
          ∙ ap (λ (t : List Notification). s.received ++ t) (sym queue))

  length-decoded : (o : Option Notification) → length (as_list o) ≤ 1
  length-decoded none = omega arith
  length-decoded (some n) = omega arith

  Step-Drains :
      {s t : Pipe} → Step aes sk gw_mac s t → IsDraining s → t.cancelled ≡ false → Drains s t
  Step-Drains (delivers s pkt o) d calm = absurd (ground (arith, d.shut))
  Step-Drains (closes s o) d calm = absurd (ground (arith, d.shut))
  Step-Drains (cancels s) d calm = absurd (ground arith)
  Step-Drains (takes s pkt rest running idle raw) d calm = record {
    after = record { shut = d.shut; stage = inl running };
    less = omega (
      arith,
      ap length raw,
      length-decoded (decoded aes sk gw_mac pkt),
      ap (λ (o : Option Notification). length (as_list o)) idle,
    );
    same = takes-due s pkt rest idle raw;
  }
  Step-Drains (hands_on s n running waits room) d calm = record {
    after = record { shut = d.shut; stage = inl running };
    less = omega (
      arith,
      length-append s.queue (n ∷ []),
      ap (λ (o : Option Notification). length (as_list o)) waits,
    );
    same = hands_on-due s n waits;
  }
  Step-Drains (returns s running (inl cancelled)) d calm = absurd (ground arith)
  Step-Drains (returns s running (inr (idle, (raw, shut)))) d calm = record {
    after = record { shut = d.shut; stage = inr (refl, (refl, (refl, raw))) };
    less = ground arith;
    same =
        ap
          (λ (o : Option Notification).
            ((s.received ++ s.queue) ++ as_list o) ++ pump aes sk gw_mac s.raw)
          (sym idle);
  }
  Step-Drains (receives s n rest queue) d calm = record {
    after = record { shut = d.shut; stage = d.stage };
    less = omega (arith, ap length queue);
    same = receives-due s n rest queue;
  }

  -- A cancelled context stays cancelled.
  Step-cancelled : {s t : Pipe} → Step aes sk gw_mac s t → s.cancelled ≡ true → t.cancelled ≡ true
  Step-cancelled (delivers s pkt o) c = c
  Step-cancelled (closes s o) c = c
  Step-cancelled (cancels s) c = refl
  Step-cancelled (takes s pkt rest running idle raw) c = c
  Step-cancelled (hands_on s n running waits room) c = c
  Step-cancelled (returns s running done) c = c
  Step-cancelled (receives s n rest queue) c = c

  Reaches-cancelled :
      {s t : Pipe} → Reaches aes sk gw_mac s t → s.cancelled ≡ true → t.cancelled ≡ true
  Reaches-cancelled (here s) c = c
  Reaches-cancelled (there step path) c = Reaches-cancelled path (Step-cancelled step c)

  not_cancelled :
      {s t : Pipe} → Reaches aes sk gw_mac s t → t.cancelled ≡ false → s.cancelled ≡ false
  not_cancelled {s} {t} path calm = elim (Bool-cases s.cancelled) [
    | inl c ↦ absurd (ground (arith, Reaches-cancelled path c))
    | inr c ↦ c
  ]

  -- A step that need not wait for the transport or the context.
  abbrev pub CanGoOn : Pipe → Type 0
  CanGoOn t = (u : Pipe) × (Step aes sk gw_mac t u × (u.cancelled ≡ false))

  abbrev pub IsDone : Pipe → List Notification → Type 0
  IsDone t all = IsOver t × ((t.queue ≡ []) × (t.received ≡ all))

  goes_on :
      (t : Pipe) (pending : Option Notification) (raw : List (List ℕ))
      → t.pending ≡ pending
      → t.raw ≡ raw
      → t.queue ≡ []
      → t.running ≡ true
      → t.raw_closed ≡ true
      → t.cancelled ≡ false
      → CanGoOn t
  goes_on t none [] idle raw queue running shut calm =
      (_, (returns t running (inr (idle, (raw, shut))), calm))
  goes_on t none (pkt ∷ rest) idle raw queue running shut calm =
      (_, (takes t pkt rest running idle raw, calm))
  goes_on t (some n) raw waits _ queue running shut calm =
      (_, (hands_on t n running waits (omega (arith, ap length queue)), calm))

  done : (t : Pipe) → IsOver t → t.queue ≡ [] → IsDone t (due t)
  done t over queue = (
    over,
    (
      queue,
      sym (
          ap
            (λ (r : List (List ℕ)).
              ((t.received ++ t.queue) ++ as_list t.pending) ++ pump aes sk gw_mac r)
            over.1.1.1
          ∙ ap (λ (l : List Notification). ((t.received ++ t.queue) ++ as_list t.pending) ++ l)
              pump-nil
          ∙ append-nil _
          ∙ ap (λ (o : Option Notification). (t.received ++ t.queue) ++ as_list o) over.1.1.0
          ∙ append-nil _
          ∙ ap (λ (q : List Notification). t.received ++ q) queue
          ∙ append-nil t.received),
    ),
  )

  progress :
      (t : Pipe) (queue : List Notification)
      → t.queue ≡ queue
      → IsDraining t
      → t.cancelled ≡ false
      → CanGoOn t ⊎ IsDone t (due t)
  progress t (n ∷ rest) queue d calm = inl (_, (receives t n rest queue, calm))
  progress t [] queue d calm = elim d.stage [
    | inl running ↦ inl (goes_on t t.pending t.raw refl refl queue running d.shut calm)
    | inr over ↦ inr (done t over queue)
  ]

  -- Once the transport has closed its channel, and as long as nobody cancels the context, a
  -- subscription whose goroutine runs drains on every schedule of the goroutine and a user who
  -- receives: no run has more steps than the amount of work at its start; none loses, adds or
  -- reorders what is due, which is what the user has got, what the channel holds, what waits to be
  -- sent and what the packets that are left decrypt to; and where a run can go on no further, the
  -- subscription is over, the client can subscribe again, and the user has got all that was due.
  pub closed_drains :
      {s t : Pipe} (path : Reaches aes sk gw_mac s t)
      → s.running ≡ true
      → s.raw_closed ≡ true
      → t.cancelled ≡ false
      → (steps path + work t ≤ work s) × ((due t ≡ due s) × (CanGoOn t ⊎ IsDone t (due s)))
  unfolding steps
  closed_drains path running shut calm =
      from path (record { shut = shut; stage = inl running }) calm
    where
      from :
          {s t : Pipe} (path : Reaches aes sk gw_mac s t)
          → IsDraining s
          → t.cancelled ≡ false
          → (steps path + work t ≤ work s) × ((due t ≡ due s) × (CanGoOn t ⊎ IsDone t (due s)))
      from (here s) d calm = (omega arith, (refl, progress s s.queue refl d calm))
      from (there {s} {t} {u} step path) d calm =
          let one = Step-Drains step d (not_cancelled path calm) in
          let (few, (same, next)) = from path one.after calm in
          (
            omega (arith, few, one.less),
            (
              same ∙ one.same,
              elim next [
                | inl on ↦ inl on
                | inr ended ↦ inr (ended.0, (ended.1.0, ended.1.1 ∙ one.same))
              ],
            ),
          )
