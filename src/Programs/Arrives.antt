-- ===== src/Programs/Arrives.antt =====
-- client.go and ble/cmd/smoke: what the commands of a run are when they come to the node.
use pigsydust.Prelude.{
  ℕ, ◌≡◌, refl, sym, ap, ap₂, ◌∙◌, List, [], ◌∷◌, ◌++◌, append-nil, append_assoc, map, All, take,
  drop, true,
}
use pigsydust.Prelude.Go.{Go, ok}
use pigsydust.Crypto.{Aes, command_nonce, decrypt}
use pigsydust.Command.{Command, encode}
use pigsydust.Client.{Client, Transport, with_session, next_sno, send}
use pigsydust.Client.Login.{send-decrypt}
use pigsydust.Programs.Smoke.{send_each}

-- How a node with the session's key and its own address reads a packet.
unfoldable pub node_reads : Aes → List ℕ → List ℕ → List ℕ → Go (List ℕ)
node_reads aes sk mac packet =
    decrypt aes sk (command_nonce mac (take 3 packet)) (take 2 (drop 3 packet)) (drop 5 packet)

-- The command's buffer is large enough for its header.
abbrev pub Encodes : Command → Type 0
Encodes cmd = (plaintext : List ℕ) × (encode cmd ≡ ok plaintext)

module _ {T : Type 0} (aes : Aes) (transport : Transport T) where
  -- The commands of a run all go out and come to the node in order; `entry` is what the log has of a
  -- packet.
  abbrev pub IsLogged :
      {L : Type 0} → (T → List L) → (List ℕ → L) → List Command → Client → T → Type 0
  IsLogged log entry cmds c t =
      (packets : List (List ℕ)) × ((send_each aes transport cmds c t).0 ≡ ok tt)
      × (log (send_each aes transport cmds c t).1.1 ≡ log t ++ map entry packets)
      × (map (node_reads aes c.session.key c.session.gw_mac) packets ≡ map encode cmds)

  -- The commands of a run all go out and come to the node in order.
  abbrev pub IsDelivered : (log : T → List (List ℕ)) → List Command → Client → T → Type 0
  IsDelivered log cmds c t =
      (packets : List (List ℕ)) × ((send_each aes transport cmds c t).0 ≡ ok tt)
      × (log (send_each aes transport cmds c t).1.1 ≡ log t ++ packets)
      × (map (node_reads aes c.session.key c.session.gw_mac) packets ≡ map encode cmds)

  pub send_each-cons :
      (cmd : Command) (cmds : List Command) (c d : Client) (t u : T)
      → send aes transport cmd c t ≡ (ok tt, (d, u))
      → send_each aes transport (cmd ∷ cmds) c t ≡ send_each aes transport cmds d u
  unfolding send_each
  send_each-cons cmd cmds c d t u sent =
      rw (send_each, sent) (ap (λ r. send_each aes transport cmds r.1.0 r.1.1) sent)

  -- Over a transport that accepts every command and logs an entry for what it wrote, a logged-in client
  -- sends any commands that have an encoding, and the log grows by the entries of packets from which
  -- the node reads exactly the encodings, in order.
  pub send_each-IsLogged :
      {L : Type 0} (log : T → List L) (entry : List ℕ → L)
      → ((bytes : List ℕ) (t : T) → (transport.write_command bytes t).0 ≡ ok tt)
      → ((bytes : List ℕ) (t : T)
          → log (transport.write_command bytes t).1 ≡ log t ++ (entry bytes ∷ []))
      → (cmds : List Command) (c : Client) (t : T) → c.session.logged_in ≡ true
      → All Encodes cmds
      → IsLogged log entry cmds c t
  unfolding send_each next_sno node_reads
  send_each-IsLogged log entry accepts logs [] c t logged encodes =
      ([], refl, sym (append-nil (log t)), refl)
  send_each-IsLogged log entry accepts logs (cmd ∷ cmds) c t logged
        ((plaintext, encoded), encodes) =
      let (packet, sent, first, read) =
        send-decrypt aes transport cmd c t plaintext logged encoded in
      let (rest, all_sent, logged_all, all_read) =
        send_each-IsLogged log entry accepts logs cmds (following c) (written packet) logged
          encodes in
      let on =
        send_each-cons cmd cmds c (following c) t (written packet)
          (sent ∙ ap (λ a. (a, (following c, written packet))) (accepts packet t)) in
      (
        packet ∷ rest,
        ap (λ r. r.0) on ∙ all_sent,
        ap (λ r. log r.1.1) on
            ∙ logged_all
            ∙ ap (λ l. l ++ map entry rest) (logs packet t)
            ∙ append_assoc (log t) (entry packet ∷ []) (map entry rest),
        ap₂ ◌∷◌ (read ∙ sym encoded) all_read,
      )
    where
      following : Client → Client
      following c = with_session c (next_sno c.session).1

      written : List ℕ → T
      written packet = (transport.write_command packet t).1

  -- Over a transport that accepts every command and keeps a log of what it wrote, a client that is
  -- logged in sends any number of commands that have an encoding, and the node reads from the
  -- packets exactly the encodings, in order, under one key, each by the serial number that its packet
  -- carries.
  pub send_each-IsDelivered :
      (log : T → List (List ℕ))
      → ((bytes : List ℕ) (t : T) → (transport.write_command bytes t).0 ≡ ok tt)
      → ((bytes : List ℕ) (t : T) → log (transport.write_command bytes t).1 ≡ log t ++ (bytes ∷ []))
      → (cmds : List Command) (c : Client) (t : T) → c.session.logged_in ≡ true
      → All Encodes cmds
      → IsDelivered log cmds c t
  send_each-IsDelivered log accepts logs cmds c t logged encodes =
      let (packets, sent, written, read) =
        send_each-IsLogged log (λ p. p) accepts logs cmds c t logged encodes in
      (packets, sent, written ∙ ap (λ l. log t ++ l) (map_same packets), read)
    where
      map_same : (packets : List (List ℕ)) → map (λ p. p) packets ≡ packets
      map_same [] = refl
      map_same (p ∷ packets) = ap (λ l. p ∷ l) (map_same packets)
