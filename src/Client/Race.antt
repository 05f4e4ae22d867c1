-- ===== src/Client/Race.antt =====
-- client.go: the two locked sections of `Send`, and a login of another goroutine between them.
use pigsydust.Prelude.{
  ℕ, ◌≡◌, refl, ap, ◌∙◌, List, [], ◌∷◌, true, not, if◌then◌else◌, take, drop, Bool-cases, inl, inr,
}
use pigsydust.Prelude.Go.{Go, ok, err, panic, bare, err_not_logged_in}
use pigsydust.Byteutil.{byte_at}
use pigsydust.Crypto.{Aes, command_nonce, encrypt, decrypt}
use pigsydust.Crypto.RoundTrip.{encrypt_parts, decrypt-encrypt}
use pigsydust.Command.{Command, encode}
use pigsydust.Client.{Client, Transport, Done, with_session, next_sno, transmit, send}
use pigsydust.Client.Steps.{new_session}

-- The first section: the key and the gateway are copied.
unfoldable pub send_begin : Client → Go (List ℕ × List ℕ)
send_begin c =
    if not c.session.logged_in
    then err (bare err_not_logged_in)
    else ok (c.session.key, c.session.gw_mac)

module _ {T : Type 0} (aes : Aes) (transport : Transport T) where
  -- The rest of `Send` under what the first section copied; the client may be another by now.
  unfoldable pub send_finish : Command → Go (List ℕ × List ℕ) → Client → T → Go Done × (Client × T)
  send_finish cmd (ok (sk, gw_mac)) c t =
      let numbered = next_sno c.session in
      let written = transmit aes transport sk gw_mac numbered.0 (encode cmd) t in
      (written.0, (with_session c numbered.1, written.1))
  send_finish cmd (err e) c t = (err e, (c, t))
  send_finish cmd panic c t = (panic, (c, t))

  -- With nothing between them, the two sections are `send`.
  pub send_finish-send_begin :
      (cmd : Command) (c : Client) (t : T)
      → send_finish cmd (send_begin c) c t ≡ send aes transport cmd c t
  unfolding send send_begin send_finish
  send_finish-send_begin cmd c t = elim (Bool-cases c.session.logged_in) [
    | inl logged ↦ rw (logged, send_finish) refl
    | inr none ↦ rw (none, send_finish) refl
  ]

  -- When another goroutine's login opens a new session between the two sections of a `send` that found
  -- the client logged in, the packet carries the new session's serial number 0 with the new salt, but
  -- decrypts to the command's encoding under the key of the old session; and the new session goes on
  -- with number 1.
  pub send_overtaken :
      (cmd : Command) (c : Client) (t : T) (sk salt plaintext : List ℕ)
      → c.session.logged_in ≡ true
      → encode cmd ≡ ok plaintext
      → let later = with_session c (new_session c sk salt) in
        (packet : List ℕ) × ((send_finish cmd (send_begin c) later t).0
          ≡ (transport.write_command packet t).0)
        × (take 3 packet ≡ 0 ∷ byte_at salt 0 ∷ byte_at salt 1 ∷ [])
        × (decrypt aes c.session.key
              (command_nonce c.session.gw_mac (take 3 packet))
              (take 2 (drop 3 packet))
              (drop 5 packet)
            ≡ ok plaintext)
        × ((send_finish cmd (send_begin c) later t).1.0.session.key ≡ sk)
        × ((send_finish cmd (send_begin c) later t).1.0.session.seq ≡ 1)
  send_overtaken cmd c t sk salt plaintext logged encoded = (
    packet,
    unfold send_finish send_begin transmit next_sno in
        rw (logged, send_finish, encoded, transmit) refl,
    first,
    ap
          (λ (n : List ℕ).
            decrypt aes c.session.key (command_nonce c.session.gw_mac n) (take 2 (drop 3 packet))
              (drop 5 packet))
          first
        ∙ decrypt-encrypt aes c.session.key nonce sno plaintext refl,
    unfold send_finish send_begin next_sno in rw (logged, send_finish) refl,
    unfold send_finish send_begin next_sno in rw (logged, send_finish) refl,
  )
    where
      sno : List ℕ
      sno = 0 ∷ byte_at salt 0 ∷ byte_at salt 1 ∷ []

      nonce : List ℕ
      nonce = command_nonce c.session.gw_mac sno

      packet : List ℕ
      packet = encrypt aes c.session.key nonce sno plaintext

      first : take 3 packet ≡ sno
      first = (encrypt_parts aes c.session.key nonce sno plaintext refl).0
