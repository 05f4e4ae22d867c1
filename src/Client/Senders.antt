-- ===== src/Client/Senders.antt =====
-- client.go, session.go, ble/transport.go: goroutines that call `Send` of one client at once. A call has
-- three parts that the locks make atomic: the copying of the key, the drawing of a serial number, and the
-- write of the packet.
use pigsydust.Prelude.{
  ℕ, suc, ◌<◌, ◌%◌, List, [], ◌∷◌, ◌++◌, length, length-append, get_or, ◌≡◌, ◌≢◌, refl, sym, ap,
  ◌∙◌, arith, zero,
}
use native.Mathlib.Decide.{dec_le}
use pigsydust.Prelude.Go.{Go, ok, err, Error}
use pigsydust.Crypto.{Aes}
use pigsydust.Command.{Command, encode}
use pigsydust.Client.{Session, Client, Transport, Done, with_session, next_sno, transmit}
use pigsydust.Client.Race.{send_begin}
use pigsydust.Client.Serial.{after, serial, serial-eq_iff}

-- Where a call of `Send` stands.
pub data Sender : Type 0 where
  waiting : Command → Sender
  begun : Command → Go (List ℕ × List ℕ) → Sender
  numbered : Command → List ℕ → List ℕ → List ℕ → Sender
  finished : Go Done → Sender

-- The client, the transport, the calls, and the serial numbers drawn so far.
pub record Shared (T : Type 0) : Type 0 where
  pub client : Client
  pub transport_state : T
  pub senders : List Sender
  pub drawn : List (List ℕ)

module _ {T : Type 0} (aes : Aes) (transport : Transport T) where
  -- One part of one of the calls.
  pub data Step : Shared T → Shared T → Type 0 where
    begins :
        (s : Shared T) (before rest : List Sender) (cmd : Command)
        → s.senders ≡ before ++ (waiting cmd ∷ rest)
        → Step s (record s { senders = before ++ (begun cmd (send_begin s.client) ∷ rest) })
    refuses :
        (s : Shared T) (before rest : List Sender) (cmd : Command) (e : Error)
        → s.senders ≡ before ++ (begun cmd (err e) ∷ rest)
        → Step s (record s { senders = before ++ (finished (err e) ∷ rest) })
    numbers :
        (s : Shared T) (before rest : List Sender) (cmd : Command) (sk gw_mac : List ℕ)
        → s.senders ≡ before ++ (begun cmd (ok (sk, gw_mac)) ∷ rest)
        → Step s (record s {
          client = with_session s.client (next_sno s.client.session).1;
          senders = before ++ (numbered cmd sk gw_mac (next_sno s.client.session).0 ∷ rest);
          drawn = s.drawn ++ ((next_sno s.client.session).0 ∷ []);
        })
    writes :
        (s : Shared T) (before rest : List Sender) (cmd : Command) (sk gw_mac sno : List ℕ)
        → s.senders ≡ before ++ (numbered cmd sk gw_mac sno ∷ rest)
        → Step s (
            let written = transmit aes transport sk gw_mac sno (encode cmd) s.transport_state in
            record s {
              transport_state = written.1;
              senders = before ++ (finished written.0 ∷ rest);
            })

  pub data Reaches : Shared T → Shared T → Type 0 where
    here : (s : Shared T) → Reaches s s
    there : {s t u : Shared T} → Reaches s t → Step t u → Reaches s u

-- A client with calls of `Send` that have not begun.
abbrev pub fresh_calls : {T : Type 0} → Client → T → List Sender → Shared T
fresh_calls c t senders = record { client = c; transport_state = t; senders = senders; drawn = [] }

after-suc : (n : ℕ) (s : Session) → after (suc n) s ≡ (next_sno (after n s)).1
after-suc zero s = refl
after-suc (suc n) s = after-suc n (next_sno s).1

get_or-append_one :
    (xs : List (List ℕ)) (x : List ℕ) (i : ℕ)
    → i < length xs
    → get_or (xs ++ (x ∷ [])) i [] ≡ get_or xs i []
get_or-append_one [] x i h = absurd (omega arith)
get_or-append_one (y ∷ xs) x zero h = refl
get_or-append_one (y ∷ xs) x (suc i) h = get_or-append_one xs x i (omega arith)

get_or_last : (xs : List (List ℕ)) (x : List ℕ) → get_or (xs ++ (x ∷ [])) (length xs) [] ≡ x
get_or_last [] x = refl
get_or_last (y ∷ xs) x = get_or_last xs x

module _ {T : Type 0} (aes : Aes) (transport : Transport T) (origin : Session) where
  -- The numbers drawn are those of the session, in order, and the session has counted them.
  record IsCounted (s : Shared T) : Type 0 where
    pub counted : s.client.session ≡ after (length s.drawn) origin
    pub in_order : (i : ℕ) → i < length s.drawn → get_or s.drawn i [] ≡ serial i origin

  Step-IsCounted : {s t : Shared T} → Step aes transport s t → IsCounted s → IsCounted t
  Step-IsCounted (begins s before rest cmd e) h = record {
    counted = h.counted;
    in_order = h.in_order;
  }
  Step-IsCounted (refuses s before rest cmd x e) h = record {
    counted = h.counted;
    in_order = h.in_order;
  }
  Step-IsCounted (numbers s before rest cmd sk gw_mac e) h = record {
    counted =
        ap (λ x. (next_sno x).1) h.counted
        ∙ sym (after-suc (length s.drawn) origin)
        ∙ ap (λ n. after n origin) (sym grown);
    in_order = λ i less. elim (dec_le (suc i) (length s.drawn)) [
      | yes old ↦ get_or-append_one s.drawn fresh i (omega arith) ∙ h.in_order i (omega arith)
      | no new ↦
          let last : i ≡ length s.drawn = omega (arith, grown) in
          ap (λ k. get_or (s.drawn ++ (fresh ∷ [])) k []) last
          ∙ get_or_last s.drawn fresh
          ∙ ap (λ x. (next_sno x).0) h.counted
          ∙ ap (λ k. serial k origin) (sym last)
    ];
  }
    where
      fresh : List ℕ
      fresh = (next_sno s.client.session).0

      grown : length (s.drawn ++ ((next_sno s.client.session).0 ∷ [])) ≡ suc (length s.drawn)
      grown = length-append s.drawn _ ∙ omega arith
  Step-IsCounted (writes s before rest cmd sk gw_mac sno e) h = record {
    counted = h.counted;
    in_order = h.in_order;
  }

  Reaches-IsCounted : {s t : Shared T} → Reaches aes transport s t → IsCounted s → IsCounted t
  Reaches-IsCounted (here s) h = h
  Reaches-IsCounted (there run step) h = Step-IsCounted step (Reaches-IsCounted run h)

-- However the parts of any number of calls of `Send` interleave on one client whose counter is a byte:
-- the n-th serial number that is drawn is the session's n-th, whichever call draws it; and no two of the
-- first 256 are the same.
pub drawn-serial :
    {T : Type 0} (aes : Aes) (transport : Transport T) (c : Client) (t : T) (senders : List Sender)
    {s : Shared T}
    → c.session.seq < 256
    → Reaches aes transport (fresh_calls c t senders) s
    → ((i : ℕ) → i < length s.drawn → get_or s.drawn i [] ≡ serial i c.session)
      × ((i j : ℕ)
          → i < j
          → j < length s.drawn
          → j < 256
          → get_or s.drawn i [] ≢ get_or s.drawn j [])
drawn-serial aes transport c t senders {s} byte run = (counts.in_order, differ)
  where
    counts : IsCounted aes transport c.session s
    counts =
        Reaches-IsCounted aes transport c.session run
          (record { counted = refl; in_order = λ i less. absurd (omega arith) })

    differ :
        (i j : ℕ) → i < j → j < length s.drawn → j < 256 → get_or s.drawn i [] ≢ get_or s.drawn j []
    differ i j less drawn few same =
        let equal : i % 256 ≡ j % 256 =
          (serial-eq_iff i j c.session byte).0
            (sym (counts.in_order i (omega arith)) ∙ same ∙ counts.in_order j drawn) in
        omega arith
