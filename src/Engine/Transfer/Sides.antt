-- ===== src/Engine/Transfer/Sides.antt =====
-- perp-engine/src/liquidation.rs: what a transfer does to the account of the user and to that of the
-- liquidator, in the ledger.
use denaria_perp_arbitrum.Base.{
  ap, ℕ, ◌+◌, ◌≤◌, ◌<◌, ◌≡◌, ◌∙◌, arith, word_mod, leb, Bool-cases, inl, inr, ◌⊖◌, ◌⊕◌,
}
use denaria_perp_arbitrum.Engine.State.{VirtualTraderPosition}
use denaria_perp_arbitrum.Engine.Transfer.{
  debit_stable, credit_stable_via_debt, debit_asset, credit_asset_via_debt,
}
use denaria_perp_arbitrum.Engine.Transfer.Netting.{
  IsWords, debit_stable_lem, credit_stable_lem, debit_asset_lem, credit_asset_lem,
}
use denaria_perp_arbitrum.Engine.Transfer.Ledger.{
  net_of, pay_stable, get_stable, pay_asset, get_asset, MovesStable-up, MovesStable-down,
  MovesAsset-up, MovesAsset-down,
}

-- The sides of a long transfer.
pub long_user :
    (d dy : ℕ) (p : VirtualTraderPosition)
    → IsWords p
    → d ≤ p.balance_asset
    → p.balance_stable + dy < word_mod
    → net_of (credit_stable_via_debt dy (record p { balance_asset = p.balance_asset ⊖ d }))
      ≡ get_stable dy (pay_asset d (net_of p))
long_user d dy p w le room =
    let q = record p { balance_asset = p.balance_asset ⊖ d } in
    MovesStable-up q (credit_stable_via_debt dy q) dy
      (credit_stable_lem dy q (ground arith) (omega arith))
    ∙ ap (get_stable dy) (MovesAsset-down p q d (ground arith))

-- A debit leaves words, and raises the debt by at most the amount.
debit_stable-IsWords :
    (n : ℕ) (p : VirtualTraderPosition)
    → IsWords p
    → p.debt_stable + n < word_mod
    → IsWords (debit_stable n p)
      × ((debit_stable n p).debt_stable ≤ p.debt_stable + n)
      × ((debit_stable n p).balance_stable ≤ p.balance_stable)
unfolding debit_stable
debit_stable-IsWords n p w h = elim (Bool-cases (leb n p.balance_stable)) [
  | inl e ↦ rw e (ground arith)
  | inr e ↦ rw e (ground arith)
]

pub long_liquidator :
    (d dy fee : ℕ) (p : VirtualTraderPosition)
    → IsWords p
    → p.debt_stable + dy + fee < word_mod
    → p.balance_asset + d < word_mod
    → net_of (debit_stable fee (debit_stable dy (record p { balance_asset = p.balance_asset ⊕ d })))
      ≡ pay_stable fee (pay_stable dy (get_asset d (net_of p)))
long_liquidator d dy fee p w room room' =
    let q = record p { balance_asset = p.balance_asset ⊕ d } in
    let wq : IsWords q = ground arith in
    let (wr, le, _) = debit_stable-IsWords dy q wq (omega arith) in
    MovesStable-down (debit_stable dy q) (debit_stable fee (debit_stable dy q)) fee
      (debit_stable_lem fee (debit_stable dy q) wr (omega arith))
    ∙ ap (pay_stable fee) (
        MovesStable-down q (debit_stable dy q) dy (debit_stable_lem dy q wq (omega arith))
        ∙ ap (pay_stable dy) (MovesAsset-up p q d (ground arith)))

pub long_liquidator_room :
    (d dy fee : ℕ) (p : VirtualTraderPosition)
    → IsWords p
    → p.debt_stable + dy + fee < word_mod
    → p.balance_asset + d < word_mod
    → p.balance_stable + dy + fee < word_mod
    → (debit_stable fee
          (debit_stable dy (record p { balance_asset = p.balance_asset ⊕ d }))).balance_stable
        + fee
      < word_mod
long_liquidator_room d dy fee p w room room' room'' =
    let q = record p { balance_asset = p.balance_asset ⊕ d } in
    let wq : IsWords q = ground arith in
    let (wr, le, le') = debit_stable-IsWords dy q wq (omega arith) in
    let (_, _, le'') = debit_stable-IsWords fee (debit_stable dy q) wr (omega arith) in omega arith

-- The sides of a short transfer.
pub short_user :
    (d dy : ℕ) (p : VirtualTraderPosition)
    → IsWords p
    → p.debt_stable + dy < word_mod
    → p.balance_asset + d < word_mod
    → net_of (credit_asset_via_debt d (debit_stable dy p)) ≡ pay_stable dy (get_asset d (net_of p))
short_user d dy p w room room' =
    let (wq, _, _) = debit_stable-IsWords dy p w room in
    let moves = debit_stable_lem dy p w room in
    MovesAsset-up (debit_stable dy p) (credit_asset_via_debt d (debit_stable dy p)) d
      (credit_asset_lem d (debit_stable dy p) wq (omega (arith, moves.1)))
    ∙ ap (get_asset d) (MovesStable-down p (debit_stable dy p) dy moves)

debit_asset-IsWords :
    (n : ℕ) (p : VirtualTraderPosition)
    → IsWords p
    → p.debt_asset + n < word_mod
    → IsWords (debit_asset n p)
unfolding debit_asset
debit_asset-IsWords n p w h = elim (Bool-cases (leb n p.balance_asset)) [
  | inl e ↦ rw e (ground arith)
  | inr e ↦ rw e (ground arith)
]

module _ (d dy fee : ℕ) (p : VirtualTraderPosition) (w : IsWords p)
    (room : p.debt_stable + dy + fee < word_mod) (room' : p.debt_asset + d < word_mod)
    (room'' : p.balance_stable + dy + fee < word_mod) where
  abbrev paid : VirtualTraderPosition
  paid = record p { balance_stable = p.balance_stable ⊕ dy }

  paid-IsWords : IsWords paid
  paid-IsWords = ground arith

  pub short_liquidator :
      net_of (debit_stable fee (debit_asset d paid))
      ≡ pay_stable fee (get_stable dy (pay_asset d (net_of p)))
  short_liquidator =
      let moves = debit_asset_lem d paid paid-IsWords room' in
      MovesStable-down (debit_asset d paid) (debit_stable fee (debit_asset d paid)) fee (
        debit_stable_lem fee (debit_asset d paid) (debit_asset-IsWords d paid paid-IsWords room')
          (omega (arith, moves.2)))
      ∙ ap (pay_stable fee) (
          MovesAsset-down paid (debit_asset d paid) d moves
          ∙ ap (pay_asset d) (MovesStable-up p paid dy (ground arith)))

  pub short_liquidator_room :
      (debit_stable fee (debit_asset d paid)).balance_stable + fee < word_mod
  short_liquidator_room =
      let moves = debit_asset_lem d paid paid-IsWords room' in
      let same : paid.balance_stable ≡ p.balance_stable + dy = ground arith in
      let (_, _, le) =
        debit_stable-IsWords fee (debit_asset d paid)
          (debit_asset-IsWords d paid paid-IsWords room') (omega (arith, moves.2)) in
      omega (arith, moves.1)
