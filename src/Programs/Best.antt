-- ===== src/Programs/Best.antt =====
-- ble/cmd/smoke, ble/cmd/smoke-linux and ble/cmd/listen: which node the programs pick.
use pigsydust.Prelude.{true, false, Bool-cases, inl, inr, arith, ◌⊎◌}
use pigsydust.Prelude.{List, [], ◌∷◌, ◌++◌, All, Option, none, some, ◌≡◌, refl, ◌∙◌}
use pigsydust.Prelude.Int.{ℤ, ltb_ℤ, ◌≤ℤ◌}
use pigsydust.Ble.Discovery.{ScanResult}
use pigsydust.Programs.Pick.{is_gateway, stronger, pick}

abbrev pub IsPlain : ScanResult → Type 0
IsPlain r = is_gateway r ≡ false

pick_plain :
    (best : Option ScanResult) (before after : List ScanResult) (r : ScanResult)
    → All IsPlain before
    → is_gateway r ≡ true
    → pick best (before ++ (r ∷ after)) ≡ some r
unfolding pick
pick_plain best [] after r plain gateway = rw (gateway) refl
pick_plain best (x ∷ before) after r (px, plain) gateway =
    rw (px) (pick_plain (stronger best x) before after r plain gateway)

-- The first gateway among the results is picked, however strong the others are.
pub pick_gateway :
    (before after : List ScanResult) (r : ScanResult)
    → All IsPlain before
    → is_gateway r ≡ true
    → pick none (before ++ (r ∷ after)) ≡ some r
pick_gateway before after r plain gateway = pick_plain none before after r plain gateway

-- A result is among the list.
abbrev pub Among : ScanResult → List ScanResult → Type 0
Among r [] = ⊥
Among r (x ∷ results) = (r ≡ x) ⊎ Among r results

-- No result is stronger.
abbrev pub Strongest : ScanResult → List ScanResult → Type 0
Strongest r results = All (λ x. x.rssi ≤ℤ r.rssi) results

le_refl : (a : ℤ) → a ≤ℤ a
le_refl a = ground arith

le_trans : (a b c : ℤ) → a ≤ℤ b → b ≤ℤ c → a ≤ℤ c
le_trans a b c h k = omega arith

stronger_cases :
    (b x : ScanResult)
    → (y : ScanResult) × ((stronger (some b) x ≡ some y)
        × (((y ≡ b) ⊎ (y ≡ x)) × ((b.rssi ≤ℤ y.rssi) × (x.rssi ≤ℤ y.rssi))))
unfolding stronger
stronger_cases b x = elim (Bool-cases (ltb_ℤ b.rssi x.rssi)) [
  | inl e ↦ (x, (rw (e) refl, (inr refl, (weaker b.rssi x.rssi e, le_refl x.rssi))))
  | inr e ↦ (b, (rw (e) refl, (inl refl, (le_refl b.rssi, no_stronger b.rssi x.rssi e))))
]
  where
    weaker : (a c : ℤ) → ltb_ℤ a c ≡ true → a ≤ℤ c
    weaker a c e = ground arith

    no_stronger : (a c : ℤ) → ltb_ℤ a c ≡ false → c ≤ℤ a
    no_stronger a c e = ground arith

pick_from :
    (b : ScanResult) (results : List ScanResult)
    → All IsPlain results
    → (r : ScanResult) × ((pick (some b) results ≡ some r)
        × (((r ≡ b) ⊎ Among r results) × ((b.rssi ≤ℤ r.rssi) × Strongest r results)))
unfolding pick
pick_from b [] plain = (b, (refl, (inl refl, (le_refl b.rssi, tt))))
pick_from b (x ∷ results) (px, plain) =
    let (y, (e, (which, (le_b, le_x)))) = stronger_cases b x in
    let (r, (picked, (among, (le_y, all)))) = pick_from y results plain in
    (
      r,
      (
        rw (px, e) picked,
        (
          place which among,
          (le_trans b.rssi y.rssi r.rssi le_b le_y, (le_trans x.rssi y.rssi r.rssi le_x le_y, all)),
        ),
      ),
    )
  where
    place :
        {y r : ScanResult}
        → (y ≡ b) ⊎ (y ≡ x)
        → (r ≡ y) ⊎ Among r results
        → (r ≡ b) ⊎ ((r ≡ x) ⊎ Among r results)
    place (inl old) (inl same) = inl (same ∙ old)
    place (inr new) (inl same) = inr (inl (same ∙ new))
    place which (inr later) = inr (inr later)

-- Without a gateway among the results, one that none is stronger than is picked, if there is any.
pub pick-Strongest :
    (x : ScanResult) (results : List ScanResult)
    → All IsPlain (x ∷ results)
    → (r : ScanResult) × ((pick none (x ∷ results) ≡ some r)
        × (Among r (x ∷ results) × Strongest r (x ∷ results)))
unfolding pick stronger
pick-Strongest x results (px, plain) =
    let (r, (picked, (among, (le, all)))) = pick_from x results plain in
    (r, (rw (px) picked, (among, (le, all))))
