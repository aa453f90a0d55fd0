-- ===== src/Engine/Transfer/Netting.antt =====
-- perp-engine/src/liquidation.rs: what a debit and a credit do to balance less debt.
use denaria_perp_arbitrum.Base.{ℕ, ◌+◌, ◌<◌, ◌≡◌, arith, word_mod, leb, Bool-cases, inl, inr}
use denaria_perp_arbitrum.Engine.State.{VirtualTraderPosition}
use denaria_perp_arbitrum.Engine.Transfer.{
  debit_stable, credit_stable_via_debt, debit_asset, credit_asset_via_debt,
}

-- The balances and debts of a position are words.
abbrev pub IsWords : VirtualTraderPosition → Type 0
IsWords p =
    (p.balance_stable < word_mod)
    × (p.balance_asset < word_mod)
    × (p.debt_stable < word_mod)
    × (p.debt_asset < word_mod)

-- From `p` to `q` the stable side moves by `paid` out and `got` in, and the asset side stays.
abbrev pub MovesStable : VirtualTraderPosition → VirtualTraderPosition → ℕ → ℕ → Type 0
MovesStable p q paid got =
    (q.balance_stable + p.debt_stable + paid ≡ p.balance_stable + q.debt_stable + got)
    × (q.balance_asset ≡ p.balance_asset)
    × (q.debt_asset ≡ p.debt_asset)

abbrev pub MovesAsset : VirtualTraderPosition → VirtualTraderPosition → ℕ → ℕ → Type 0
MovesAsset p q paid got =
    (q.balance_asset + p.debt_asset + paid ≡ p.balance_asset + q.debt_asset + got)
    × (q.balance_stable ≡ p.balance_stable)
    × (q.debt_stable ≡ p.debt_stable)

-- A stable debit, when the debt has room for it, lowers balance less debt by exactly the amount, and
-- leaves the asset side as it was.
pub debit_stable_lem :
    (amount : ℕ) (p : VirtualTraderPosition)
    → IsWords p
    → p.debt_stable + amount < word_mod
    → MovesStable p (debit_stable amount p) amount 0
unfolding debit_stable
debit_stable_lem amount p w h = elim (Bool-cases (leb amount p.balance_stable)) [
  | inl e ↦ ground arith
  | inr e ↦ ground arith
]

-- A stable credit, when the balance has room for it, raises balance less debt by exactly the amount,
-- and leaves the asset side as it was.
pub credit_stable_lem :
    (amount : ℕ) (p : VirtualTraderPosition)
    → IsWords p
    → p.balance_stable + amount < word_mod
    → MovesStable p (credit_stable_via_debt amount p) 0 amount
unfolding credit_stable_via_debt
credit_stable_lem amount p w h = elim (Bool-cases (leb amount p.debt_stable)) [
  | inl e ↦ ground arith
  | inr e ↦ ground arith
]

-- An asset debit, when the debt has room for it, lowers balance less debt by exactly the amount, and
-- leaves the stable side as it was.
pub debit_asset_lem :
    (amount : ℕ) (p : VirtualTraderPosition)
    → IsWords p
    → p.debt_asset + amount < word_mod
    → MovesAsset p (debit_asset amount p) amount 0
unfolding debit_asset
debit_asset_lem amount p w h = elim (Bool-cases (leb amount p.balance_asset)) [
  | inl e ↦ ground arith
  | inr e ↦ ground arith
]

-- An asset credit, when the balance has room for it, raises balance less debt by exactly the amount,
-- and leaves the stable side as it was.
pub credit_asset_lem :
    (amount : ℕ) (p : VirtualTraderPosition)
    → IsWords p
    → p.balance_asset + amount < word_mod
    → MovesAsset p (credit_asset_via_debt amount p) 0 amount
unfolding credit_asset_via_debt
credit_asset_lem amount p w h = elim (Bool-cases (leb amount p.debt_asset)) [
  | inl e ↦ ground arith
  | inr e ↦ ground arith
]
