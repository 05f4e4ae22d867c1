-- ===== src/Client/Typed.antt =====
-- client.go, session.go: the session's arrays in every reachable client.
use pigsydust.Prelude.{ℕ, List, All, ◌≡◌, refl, sym, subst, arith}
use pigsydust.Prelude.Go.{Go, ok, err, panic, ◌>>=◌, bind_ok, wrapped_both, err_login_failed}
use pigsydust.Byteutil.{IsByte, IsArray}
use pigsydust.Crypto.{Aes, IsCipher}
use pigsydust.Crypto.Login.{build_login_request, parse_login_response, derive_session_key}
use pigsydust.Crypto.Login.Laws.{derive_session_key-IsArray}
use pigsydust.Client.{
  Session, Client, Transport, Done, next_sno, start_heartbeat, close, login, login_failed, pair,
  opened, subscribed, with_session,
}
use pigsydust.Client.Steps.{new_session}
use pigsydust.Client.Sized.{IsTyped, parse_login_response-IsArray}

login_failed_ok : (g : Go (List ℕ)) (a : List ℕ) → login_failed g ≡ ok a → g ≡ ok a
unfolding login_failed
login_failed_ok (ok x) a e = e
login_failed_ok (err x) a e = absurd (ground arith)
login_failed_ok panic a e = absurd (ground arith)

-- A value that was returned is an array of `n` bytes.
abbrev pub Gives : ℕ → Go (List ℕ) → Type 0
Gives n (ok a) = IsArray n a
Gives n (err e) = Unit
Gives n panic = Unit

started_session : (c : Client) → (start_heartbeat c).session ≡ c.session
unfolding start_heartbeat
started_session c = ground arith

pub closed_session : (c : Client) → (close c).session ≡ c.session
unfolding close
closed_session c = ground arith

pub subscribed_session : (g : Go Done) (c : Client) → (subscribed g c).1.session ≡ c.session
unfolding subscribed
subscribed_session (ok done) c = refl
subscribed_session (err e) c = refl
subscribed_session panic c = refl

pub next_sno-IsTyped : (s : Session) → IsTyped s → IsTyped (next_sno s).1
unfolding next_sno
next_sno-IsTyped s h = record {
  key_array = h.key_array;
  salt_array = h.salt_array;
  seq_byte = omega arith;
  gw_array = h.gw_array;
}

opened-IsTyped :
    (salt : List ℕ) (key : Go (List ℕ)) (c : Client)
    → IsArray 2 salt
    → Gives 16 key
    → IsTyped c.session
    → IsTyped (opened salt key c).1.session
unfolding opened
opened-IsTyped salt (ok sk) c hs hk h =
    subst IsTyped (sym (started_session (with_session c (new_session c sk salt))))
      (record { key_array = hk; salt_array = hs; seq_byte = omega arith; gw_array = h.gw_array })
opened-IsTyped salt (err e) c hs hk h = h
opened-IsTyped salt panic c hs hk h = h

-- What the callers and `crypto/rand` give a login.
abbrev pub IsGiven : Go (List ℕ) → Go (List ℕ) → List ℕ → List ℕ → Type 0
IsGiven rand_a salt name password =
    (Gives 8 rand_a × Gives 2 salt) × (All IsByte name × All IsByte password)

module _ {T : Type 0} (aes : Aes) (cipher : IsCipher aes) (transport : Transport T) where
  module _ (name password rand_a : List ℕ) where
    -- The chain of `pair` behind its two calls.
    exchanged : Go (List ℕ) → Go (List ℕ)
    exchanged answer = do
      resp ← login_failed answer
      rand_b ← login_failed (parse_login_response resp)
      ok (derive_session_key aes name password rand_a rand_b)

    after_write : Go Done × T → Go (List ℕ) × T
    unfolding exchanged
    after_write written =
        let answer = transport.read_pair written.1 in
        elim written.0 [
          | err e ↦ (err (wrapped_both err_login_failed e), written.1)
          | panic ↦ (panic, written.1)
          | ok done ↦ (exchanged answer.0, answer.1)
        ]

    exchanged-key :
        (answer : Go (List ℕ))
        → All IsByte name
        → All IsByte password
        → IsArray 8 rand_a
        → ((b : List ℕ) → answer ≡ ok b → All IsByte b)
        → Gives 16 (exchanged answer)
    unfolding exchanged
    exchanged-key answer hn hp ha bytes = by_result (exchanged answer) refl
      where
        by_result : (g : Go (List ℕ)) → exchanged answer ≡ g → Gives 16 g
        by_result (ok sk) e =
            let (resp, (answered, rest)) = bind_ok (login_failed answer) _ sk e in
            let (rand_b, (parsed, made)) =
              bind_ok (login_failed (parse_login_response resp)) _ sk rest in
            subst (Gives 16) made (
              derive_session_key-IsArray aes name password rand_a rand_b cipher hn hp ha (
                parse_login_response-IsArray resp rand_b
                  (bytes resp (login_failed_ok answer resp answered))
                  (login_failed_ok (parse_login_response resp) rand_b parsed)))
        by_result (err x) e = tt
        by_result panic e = tt

  module _ (reads : (t : T) (b : List ℕ) → (transport.read_pair t).0 ≡ ok b → All IsByte b) where
    pair-key :
        (name password rand_a : List ℕ) (t : T)
        → All IsByte name
        → All IsByte password
        → IsArray 8 rand_a
        → Gives 16 (pair aes transport name password rand_a t).0
    unfolding pair after_write exchanged
    pair-key name password rand_a t hn hp ha =
        by_write (transport.write_pair (build_login_request aes name password rand_a) t)
      where
        by_write : (w : Go Done × T) → Gives 16 (after_write name password rand_a w).0
        by_write (ok done, u) =
            exchanged-key name password rand_a (transport.read_pair u).0 hn hp ha (reads u)
        by_write (err e, u) = tt
        by_write (panic, u) = tt

    pub login-IsTyped :
        (rand_a salt : Go (List ℕ)) (name password : List ℕ) (c : Client) (t : T)
        → IsGiven rand_a salt name password
        → IsTyped c.session
        → IsTyped (login aes transport rand_a salt name password c t).1.0.session
    unfolding login
    login-IsTyped (err e) salt name password c t g h = h
    login-IsTyped panic salt name password c t g h = h
    login-IsTyped (ok rand_a) (err e) name password c t g h = h
    login-IsTyped (ok rand_a) panic name password c t g h = h
    login-IsTyped (ok rand_a) (ok salt) name password c t ((ha, hs), (hn, hp)) h =
        opened-IsTyped salt (pair aes transport name password rand_a t).0 c hs
          (pair-key name password rand_a t hn hp ha) h
