-- ===== src/Client/Login.antt =====
-- client.go: `Login` and `Send`, by what the transport answers.
use pigsydust.Prelude.{ℕ, ◌≤◌, ◌≡◌, ◌⊎◌, inl, inr, refl, ap, ◌∙◌, List, ◌∷◌, ◌++◌}
use pigsydust.Prelude.{length, take, drop, true, false}
use pigsydust.Prelude.Go.{Go, ok, err, panic, bare, err_not_logged_in}
use pigsydust.Crypto.{Aes, command_nonce, encrypt, decrypt}
use pigsydust.Crypto.RoundTrip.{encrypt_parts, decrypt-encrypt}
use pigsydust.Crypto.Login.{login_response_tag_byte, build_login_request, parse_login_response}
use pigsydust.Crypto.Login.{derive_session_key}
use pigsydust.Crypto.Login.Laws.{parse_login_response_read}
use pigsydust.Command.{Command, encode}
use pigsydust.Client.{Client, Transport, with_session, start_heartbeat, next_sno, pair}
use pigsydust.Client.{opened, login, login_failed, send, transmit}

module _ {T : Type 0} (aes : Aes) (transport : Transport T) where
  pair_ok :
      (rand_a rand_b resp name password : List ℕ) (t t1 t2 : T)
      → transport.write_pair (build_login_request aes name password rand_a) t ≡ (ok tt, t1)
      → transport.read_pair t1 ≡ (ok resp, t2)
      → parse_login_response resp ≡ ok rand_b
      → pair aes transport name password rand_a t
        ≡ (ok (derive_session_key aes name password rand_a rand_b), t2)
  unfolding pair login_failed
  pair_ok rand_a rand_b resp name password t t1 t2 written read parsed =
      rw (pair, written, written, read, parsed) refl

  pub login_accepted :
      (rand_a salt rand_b rest name password : List ℕ) (c : Client) (t t1 t2 : T)
      → transport.write_pair (build_login_request aes name password rand_a) t ≡ (ok tt, t1)
      → transport.read_pair t1 ≡ (ok (login_response_tag_byte ∷ (rand_b ++ rest)), t2)
      → length rand_b ≡ 8
      → 8 ≤ length rest
      → login aes transport (ok rand_a) (ok salt) name password c t ≡ (
        ok tt,
        (
          start_heartbeat (
              with_session c (record {
                key = derive_session_key aes name password rand_a rand_b;
                salt = salt;
                seq = 0;
                gw_mac = c.session.gw_mac;
                logged_in = true;
              })),
          t2,
        ),
      )
  unfolding login opened
  login_accepted rand_a salt rand_b rest name password c t t1 t2 written read h8 long =
      rw
        (
          login,
          pair_ok rand_a rand_b _ name password t t1 t2 written read
              (parse_login_response_read rand_b rest h8 long),
        )
        refl

  -- A login that does not succeed leaves the client as it was.
  pub login_refused :
      (rand_a salt : Go (List ℕ)) (name password : List ℕ) (c : Client) (t : T)
      → let outcome = login aes transport rand_a salt name password c t in
        (outcome.0 ≡ ok tt) ⊎ (outcome.1.0 ≡ c)
  login_refused (err e) salt name password c t = inr (unfold login in refl)
  login_refused panic salt name password c t = inr (unfold login in refl)
  login_refused (ok rand_a) (err e) name password c t = inr (unfold login in refl)
  login_refused (ok rand_a) panic name password c t = inr (unfold login in refl)
  login_refused (ok rand_a) (ok salt) name password c t =
      unfold login in by_key (pair aes transport name password rand_a t).0
    where
      by_key : (k : Go (List ℕ)) → ((opened salt k c).0 ≡ ok tt) ⊎ ((opened salt k c).1 ≡ c)
      by_key (ok sk) = inl (unfold opened in refl)
      by_key (err e) = inr (unfold opened in refl)
      by_key panic = inr (unfold opened in refl)

  -- Without a login, `send` fails with `ErrNotLoggedIn` and touches neither the session nor the
  -- transport.
  pub send_refused :
      (cmd : Command) (c : Client) (t : T)
      → c.session.logged_in ≡ false
      → send aes transport cmd c t ≡ (err (bare err_not_logged_in), (c, t))
  unfolding send
  send_refused cmd c t h = rw h refl

  -- After a login, `send` of a command whose encoding is `plaintext` writes one packet: the serial
  -- number `next_sno` gives comes first, and decrypting the rest under the session key and the nonce
  -- of the gateway and that serial number gives `plaintext`. The counter moves to the next number,
  -- whatever the transport answers.
  pub send-decrypt :
      (cmd : Command) (c : Client) (t : T) (plaintext : List ℕ)
      → c.session.logged_in ≡ true
      → encode cmd ≡ ok plaintext
      → (packet : List ℕ) × (send aes transport cmd c t ≡ (
        (transport.write_command packet t).0,
        (with_session c (next_sno c.session).1, (transport.write_command packet t).1),
      ))
        × (take 3 packet ≡ (next_sno c.session).0)
        × (decrypt aes c.session.key
              (command_nonce c.session.gw_mac (take 3 packet))
              (take 2 (drop 3 packet))
              (drop 5 packet)
            ≡ ok plaintext)
  send-decrypt cmd c t plaintext logged encoded = (
    packet,
    unfold send transmit in rw (logged, encoded) refl,
    first,
    ap
          (λ (n : List ℕ).
            decrypt aes sk (command_nonce c.session.gw_mac n) (take 2 (drop 3 packet))
              (drop 5 packet))
          first
        ∙ decrypt-encrypt aes sk nonce sno plaintext three,
  )
    where
      sk : List ℕ
      sk = c.session.key

      sno : List ℕ
      sno = (next_sno c.session).0

      nonce : List ℕ
      nonce = command_nonce c.session.gw_mac sno

      packet : List ℕ
      packet = encrypt aes sk nonce sno plaintext

      three : length sno ≡ 3
      three = unfold next_sno in refl

      first : take 3 packet ≡ sno
      first = (encrypt_parts aes sk nonce sno plaintext three).0
