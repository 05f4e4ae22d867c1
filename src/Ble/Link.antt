-- ===== src/Ble/Link.antt =====
-- ble/types.go and ble/transport.go: the transport over a connection's three characteristics. What a
-- characteristic does is a parameter, with `T` the state of the host's stack.
pub mod Laws
use pigsydust.Prelude.{ℕ, List, [], ◌∷◌, ◌≡◌, refl, Option, none, some}
use pigsydust.Prelude.Go.{Go, ok, err, panic, Error, context}
use pigsydust.Client.{Transport, Done}

pub record CharIo (T : Type 0) : Type 0 where
  pub write_request : List ℕ → T → Go Done × T
  pub write_command : List ℕ → T → Go Done × T
  pub read : T → Go (List ℕ) × T
  pub subscribe : T → Go Done × T

pub record Connection (T : Type 0) : Type 0 where
  pub char_notify : CharIo T
  pub char_cmd : CharIo T
  pub char_pair : CharIo T
  pub gw_mac : List ℕ
  pub closer : Option (T → Go Done × T)

-- `Close`: without a closer nothing is done.
unfoldable pub close : {T : Type 0} → Connection T → T → Go Done × T
close conn t = elim conn.closer [ none ↦ (ok tt, t) | some closer ↦ closer t ]

-- `fmt.Errorf("ble: …: %w", err)` around an answer.
unfoldable pub in_context {ℓ} : {A : Type ℓ} → Go A → Go A
in_context (ok a) = ok a
in_context (err e) = err (context e)
in_context panic = panic

-- `ble.Transport`, an implementation of the client's interface.
module _ {T : Type 0} (conn : Connection T) where
  unfoldable pub write_pair : List ℕ → T → Go Done × T
  write_pair bytes t = let r = conn.char_pair.write_request bytes t in (in_context r.0, r.1)

  unfoldable pub read_pair : T → Go (List ℕ) × T
  read_pair t = let r = conn.char_pair.read t in (in_context r.0, r.1)

  unfoldable pub write_command : List ℕ → T → Go Done × T
  write_command bytes t = let r = conn.char_cmd.write_command bytes t in (in_context r.0, r.1)

  -- The second half of `SubscribeNotify`: the write of 0x01 that makes the firmware send.
  unfoldable pub kick : Go Done → T → Go Done × T
  kick (ok done) t = let r = conn.char_notify.write_request (0x01 ∷ []) t in (in_context r.0, r.1)
  kick (err e) t = (err (context e), t)
  kick panic t = (panic, t)

  unfoldable pub subscribe_notify : T → Go Done × T
  subscribe_notify t = let r = conn.char_notify.subscribe t in kick r.0 r.1

  unfoldable pub ble_transport : Transport T
  ble_transport = record {
    write_pair = write_pair;
    read_pair = read_pair;
    write_command = write_command;
    subscribe_notify = subscribe_notify;
    gateway_mac = λ t. conn.gw_mac;
  }
