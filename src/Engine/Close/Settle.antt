-- ===== src/Engine/Close/Settle.antt =====
-- The settlement in `_realize_pnl_outer` of perp-engine/src/close.rs: what it takes off a position.
use denaria_perp_arbitrum.Base.{
  ℕ, Bool, true, false, ◌+◌, ◌<◌, arith, word_mod, ltb, Bool-cases, inl, inr, if◌then◌else◌,
}
use denaria_perp_arbitrum.Engine.State.{VirtualTraderPosition}
use denaria_perp_arbitrum.Engine.Transfer.Netting.{IsWords, MovesStable}
use denaria_perp_arbitrum.Engine.Close.{settle_pnl}

-- When the stable balance and debt have room for it, the settlement of a gain lowers balance less
-- debt by exactly the gain, that of a loss raises it by exactly the loss, and the asset side stays.
pub settle_pnl_lem :
    (pnl : ℕ) (pnl_sign : Bool) (p : VirtualTraderPosition)
    → IsWords p
    → p.balance_stable + pnl < word_mod
    → p.debt_stable + pnl < word_mod
    → MovesStable p
        (settle_pnl pnl pnl_sign p)
        (if pnl_sign then pnl else 0)
        (if pnl_sign then 0 else pnl)
unfolding settle_pnl
settle_pnl_lem pnl true p w hb hd = elim (Bool-cases (ltb pnl p.balance_stable)) [
  | inl e ↦ ground arith
  | inr e ↦ ground arith
]
settle_pnl_lem pnl false p w hb hd = elim (Bool-cases (ltb pnl p.debt_stable)) [
  | inl e ↦ ground arith
  | inr e ↦ ground arith
]
