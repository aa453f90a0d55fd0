-- ===== src/Engine/Transfer/Refinement.antt =====
-- perp-engine/src/liquidation.rs: the transfers refine the sale of the ledger.
use denaria_perp_arbitrum.Base.{
  ℕ, ◌+◌, ◌≤◌, ◌<◌, ◌≡◌, refl, true, false, arith, word_mod, leb, Bool-cases, inl, inr, ==-refl,
  ◌==◌, ==→eq,
}
use denaria_perp_arbitrum.Engine.State.{Address, Engine, State, Env, VirtualTraderPosition, update}
use denaria_perp_arbitrum.Engine.Monad.{◌>>=◌}
use denaria_perp_arbitrum.Engine.Monad.Laws.{Returns}
use denaria_perp_arbitrum.Engine.Trade.Insurance.{protocol_balance}
use denaria_perp_arbitrum.Engine.Transfer.{transfer_long, transfer_short, pay_insurance}
use denaria_perp_arbitrum.Engine.Transfer.Filling.{position_of}
use denaria_perp_arbitrum.Engine.Transfer.Netting.{IsWords}
use denaria_perp_arbitrum.Engine.Transfer.Sides.{
  long_user, long_liquidator, long_liquidator_room, short_user, short_liquidator,
  short_liquidator_room,
}
use denaria_perp_arbitrum.Engine.Transfer.Ledger.{ledger, sell, insure, SameLedger, insured}

-- No amount of the transfer leaves the words.
abbrev pub CanTransfer : ℕ → ℕ → ℕ → VirtualTraderPosition → VirtualTraderPosition → Engine → Type 0
CanTransfer d dy insurance user liquidator e =
    IsWords user
    × IsWords liquidator
    × (user.balance_stable + dy < word_mod)
    × (user.debt_stable + dy < word_mod)
    × (user.balance_asset + d < word_mod)
    × (liquidator.balance_stable + dy + insurance < word_mod)
    × (liquidator.debt_stable + dy + insurance < word_mod)
    × (liquidator.balance_asset + d < word_mod)
    × (liquidator.debt_asset + d < word_mod)
    × (e.market.insurance_fund + e.config.insurance_fund_cap < word_mod)
    × (e.market.insurance_fund + insurance < word_mod)

-- The sale in the ledger, with the insurance fund keeping a part of what the liquidator pays for it.
abbrev pub Refines : Address → Address → Address → ℕ → ℕ → ℕ → Engine → Engine → Type 0
Refines seller buyer payer d dy insurance e r =
    (kept : ℕ) × (kept ≤ insurance)
    × SameLedger (ledger r) (insure payer kept (sell seller buyer d dy (ledger e)))

-- When no amount leaves the words and the user holds the asset, a long transfer between different
-- accounts returns: in the ledger, the user has sold the asset to the liquidator for the stable
-- value, the liquidator has paid at most the insurance part into the fund, and no other account
-- has changed.
pub transfer_long-Refines :
    (d dy insurance : ℕ) (user liquidator : Address) (env : Env) (s : State)
    → (user == liquidator) ≡ false
    → d ≤ (position_of s.engine user).balance_asset
    → CanTransfer d dy insurance
        (position_of s.engine user)
        (position_of s.engine liquidator)
        s.engine
    → Returns
        (transfer_long d user liquidator dy insurance env s)
        (λ _ r. Refines user liquidator liquidator d dy insurance s.engine r.engine)
unfolding transfer_long pay_insurance ◌>>=◌ Returns
transfer_long-Refines d dy insurance user liquidator env s other has
      (w1, w2, h1, h2, h3, h4, h5, h6, h7, h8, h9) =
    let back : (liquidator == user) ≡ false = ground arith in
    let enough : leb d (position_of s.engine user).balance_asset ≡ true = ground arith in
    let up = position_of s.engine user in
    let lp = position_of s.engine liquidator in
    rw (Returns, enough)
      (insured insurance liquidator env _ (sell user liquidator d dy (ledger s.engine))
        (
          h8,
          rw (protocol_balance, ==-refl liquidator, back, update)
              (long_liquidator_room d dy insurance lp w2 h5 h6 h4),
          h9,
        )
        refl
        (rw (position_of, ==-refl liquidator, back, update)
          (long_liquidator d dy insurance lp w2 h5 h6))
        λ a n. elim (Bool-cases (a == user)) [
          | inl e ↦
              rw (==→eq a user e, ==-refl user, other, position_of, update)
                (long_user d dy up w1 has h1)
          | inr m ↦ rw (n, m, position_of, update) refl
        ])

-- When no amount leaves the words, a short transfer between different accounts returns: in the
-- ledger, the liquidator has sold the asset to the user for the stable value and has paid at most
-- the insurance part into the fund, and no other account has changed.
pub transfer_short-Refines :
    (d dy insurance : ℕ) (user liquidator : Address) (env : Env) (s : State)
    → (user == liquidator) ≡ false
    → CanTransfer d dy insurance
        (position_of s.engine user)
        (position_of s.engine liquidator)
        s.engine
    → Returns
        (transfer_short d user liquidator dy insurance env s)
        (λ _ r. Refines liquidator user liquidator d dy insurance s.engine r.engine)
unfolding transfer_short pay_insurance ◌>>=◌ Returns
transfer_short-Refines d dy insurance user liquidator env s other
      (w1, w2, h1, h2, h3, h4, h5, h6, h7, h8, h9) =
    let back : (liquidator == user) ≡ false = ground arith in
    let up = position_of s.engine user in
    let lp = position_of s.engine liquidator in
    insured insurance liquidator env _ (sell liquidator user d dy (ledger s.engine))
      (
        h8,
        rw (protocol_balance, ==-refl liquidator, back, update)
            (short_liquidator_room d dy insurance lp w2 h5 h7 h4),
        h9,
      )
      refl
      (rw (position_of, ==-refl liquidator, back, update)
        (short_liquidator d dy insurance lp w2 h5 h7 h4))
      λ a n. elim (Bool-cases (a == user)) [
        | inl e ↦
            rw (==→eq a user e, ==-refl user, other, position_of, update)
              (short_user d dy up w1 h2 h3)
        | inr m ↦ rw (n, m, position_of, update) refl
      ]
