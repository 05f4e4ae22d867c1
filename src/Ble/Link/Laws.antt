-- ===== src/Ble/Link/Laws.antt =====
-- Subscribing over a BLE connection, alone and as a part of a client's subscription.
use pigsydust.Prelude.{
  List, ℕ, inl, inr, Bool-cases, ◌↔◌, arith, ap, ap₂, sym, ◌∙◌, [], ◌∷◌, ◌≡◌, refl, true, false,
}
use pigsydust.Prelude.Go.{Go, ok, err, panic, Error}
use pigsydust.Client.{Client, Done, with_notify, subscribed, notifications}
use pigsydust.Client.Stream.{notifications_cases}
use pigsydust.Ble.Link.{Connection, ble_transport, subscribe_notify, kick, in_context}

module _ {T : Type 0} (conn : Connection T) where
  subscribe_notify_kicked :
      (t t1 t2 : T)
      → conn.char_notify.subscribe t ≡ (ok tt, t1)
      → conn.char_notify.write_request (0x01 ∷ []) t1 ≡ (ok tt, t2)
      → subscribe_notify conn t ≡ (ok tt, t2)
  unfolding subscribe_notify kick in_context
  subscribe_notify_kicked t t1 t2 armed kicked = rw (armed, kicked) refl

  -- A logged-in client with no subscription is subscribed over a BLE connection, with the session's
  -- key and gateway, when the host's subscription and then the write of 0x01 to the notification
  -- characteristic both succeed.
  pub notifications-ble_transport :
      (c : Client) (t t1 t2 : T)
      → c.notify_active ≡ false
      → c.session.logged_in ≡ true
      → conn.char_notify.subscribe t ≡ (ok tt, t1)
      → conn.char_notify.write_request (0x01 ∷ []) t1 ≡ (ok tt, t2)
      → notifications (ble_transport conn) c t
        ≡ (ok (c.session.key, c.session.gw_mac), (with_notify c true, t2))
  unfolding ble_transport
  notifications-ble_transport c t t1 t2 idle logged armed kicked =
      (notifications_cases (ble_transport conn) c t t2).3 idle logged
        (subscribe_notify_kicked t t1 t2 armed kicked)

  -- The host subscribes, and then the write of 0x01 to the notification characteristic succeeds.
  abbrev pub Arms : T → T → Type 0
  Arms t u =
      (between : T) × (conn.char_notify.subscribe t ≡ (ok tt, between))
      × (conn.char_notify.write_request (0x01 ∷ []) between ≡ (ok tt, u))

  in_context-ok : (g : Go Done) → in_context g ≡ ok tt → g ≡ ok tt
  unfolding in_context
  in_context-ok (ok done) e = refl
  in_context-ok (err x) e = absurd (ground arith)
  in_context-ok panic e = absurd (ground arith)

  kick-Arms :
      (t u : T) (g : Go Done × T)
      → conn.char_notify.subscribe t ≡ g
      → kick conn g.0 g.1 ≡ (ok tt, u)
      → Arms t u
  unfolding kick
  kick-Arms t u (ok done, t1) armed e =
      let r = conn.char_notify.write_request (0x01 ∷ []) t1 in
      (t1, armed, λ i. (in_context-ok r.0 (ap (λ x. x.0) e) i, (e i).1))
  kick-Arms t u (err x, t1) armed e = absurd (let f = ap (λ x. x.0) e in ground arith)
  kick-Arms t u (panic, t1) armed e = absurd (let f = ap (λ x. x.0) e in ground arith)

  -- What a subscription that succeeds comes to.
  abbrev pub Subscribes : Client → T → List ℕ × List ℕ → Client → T → Type 0
  Subscribes c t stream d u =
      (c.notify_active ≡ false)
      × (c.session.logged_in ≡ true)
      × (stream ≡ (c.session.key, c.session.gw_mac))
      × (d ≡ with_notify c true)
      × Arms t u

  abbrev answer : Client → Go Done × T → Go (List ℕ × List ℕ) × (Client × T)
  answer c g = ((subscribed g.0 c).0, ((subscribed g.0 c).1, g.1))

  answer-Subscribes :
      (c : Client) (t : T) (stream : List ℕ × List ℕ) (d : Client) (u : T) (g : Go Done × T)
      → c.notify_active ≡ false
      → c.session.logged_in ≡ true
      → subscribe_notify conn t ≡ g
      → answer c g ≡ (ok stream, (d, u))
      → Subscribes c t stream d u
  unfolding subscribed subscribe_notify
  answer-Subscribes c t stream d u (ok done, v) idle logged e a = (
    idle,
    logged,
    from_ok (sym (ap (λ x. x.0) a)),
    sym (ap (λ x. x.1.0) a),
    kick-Arms t u (conn.char_notify.subscribe t) refl
        (e ∙ ap (λ x. (ok tt, x)) (ap (λ x. x.1.1) a)),
  )
    where
      from_ok : {x y : List ℕ × List ℕ} → ok x ≡ ok y → x ≡ y
      from_ok p = cc
  answer-Subscribes c t stream d u (err x, v) idle logged e a =
      absurd (let f = ap (λ x. x.0) a in ground arith)
  answer-Subscribes c t stream d u (panic, v) idle logged e a =
      absurd (let f = ap (λ x. x.0) a in ground arith)

  answer-same :
      (c : Client) (e : Error) (d : Client) (u : T) (g : Go Done × T)
      → c.notify_active ≡ false
      → answer c g ≡ (err e, (d, u))
      → d ≡ c
  unfolding subscribed
  answer-same c e d u (ok done, v) idle a = absurd (let f = ap (λ x. x.0) a in ground arith)
  answer-same c e d u (err x, v) idle a =
      sym (ap (λ x. x.1.0) a) ∙ ap (λ b. with_notify c b) (sym idle)
  answer-same c e d u (panic, v) idle a = absurd (let f = ap (λ x. x.0) a in ground arith)

  notifications-answer :
      (c : Client) (t : T)
      → c.notify_active ≡ false
      → c.session.logged_in ≡ true
      → notifications (ble_transport conn) c t ≡ answer c (subscribe_notify conn t)
  unfolding notifications ble_transport
  notifications-answer c t idle logged = rw (idle, logged) refl

  succeeds :
      (c : Client) (t : T) (stream : List ℕ × List ℕ) (d : Client) (u : T)
      → notifications (ble_transport conn) c t ≡ (ok stream, (d, u))
      → Subscribes c t stream d u
  succeeds c t stream d u a = elim (Bool-cases c.notify_active) [
    | inl active ↦ absurd (
        let f =
          ap (λ x. x.0) (sym ((notifications_cases (ble_transport conn) c t t).0 active) ∙ a) in
        ground arith)
    | inr idle ↦ elim (Bool-cases c.session.logged_in) [
      | inl logged ↦
          answer-Subscribes c t stream d u (subscribe_notify conn t) idle logged refl
            (sym (notifications-answer c t idle logged) ∙ a)
      | inr out ↦ absurd (
          let f =
            ap (λ x. x.0) (sym ((notifications_cases (ble_transport conn) c t t).1 idle out) ∙ a) in
          ground arith)
    ]
  ]

  fails :
      (c : Client) (t : T) (e : Error) (d : Client) (u : T)
      → notifications (ble_transport conn) c t ≡ (err e, (d, u))
      → d ≡ c
  fails c t e d u a = elim (Bool-cases c.notify_active) [
    | inl active ↦
        sym (ap (λ x. x.1.0) (sym ((notifications_cases (ble_transport conn) c t t).0 active) ∙ a))
    | inr idle ↦ elim (Bool-cases c.session.logged_in) [
      | inl logged ↦
          answer-same c e d u (subscribe_notify conn t) idle
            (sym (notifications-answer c t idle logged) ∙ a)
      | inr out ↦
          sym (
            ap (λ x. x.1.0) (sym ((notifications_cases (ble_transport conn) c t t).1 idle out) ∙ a))
          ∙ ap (λ b. with_notify c b) (sym idle)
    ]
  ]

  -- Over a BLE connection a client is subscribed exactly when it has no subscription, is logged in,
  -- and the host's subscription and then the write of 0x01 to the notification characteristic both
  -- succeed: its stream decrypts with the session's key and gateway, the client counts as subscribed
  -- and is else as before, and the state is the one behind that write. Every call that ends in an
  -- error, whichever, leaves the client as it was.
  pub notifications-eq-ok_iff :
      (c : Client) (t : T) (d : Client) (u : T)
      → ((stream : List ℕ × List ℕ)
          → (notifications (ble_transport conn) c t ≡ (ok stream, (d, u)))
            ↔ Subscribes c t stream d u)
        × ((e : Error) → notifications (ble_transport conn) c t ≡ (err e, (d, u)) → d ≡ c)
  notifications-eq-ok_iff c t d u = (
    λ stream. (
      succeeds c t stream d u,
      λ (idle, logged, keys, flagged, (between, armed, kicked)).
          notifications-ble_transport c t between u idle logged armed kicked
          ∙ ap₂ (λ k f. (ok k, (f, u))) (sym keys) (sym flagged),
    ),
    λ e. fails c t e d u,
  )
