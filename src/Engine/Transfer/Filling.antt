-- ===== src/Engine/Transfer/Filling.antt =====
-- `assign_protocol_fee_filling_insurance` of perp-engine/src/trade.rs, by the part of the fee that
-- the insurance fund keeps.
use denaria_perp_arbitrum.Base.{
  ℕ, ◌+◌, ◌-◌, ◌≤◌, ◌≡◌, refl, Bool, true, false, arith, ltb, leb, Bool-cases, inl, inr, pos, ◌+ℤ◌,
  if◌then◌else◌, ◌⊖◌, ◌⊕◌, ==-refl, ◌==◌,
}
use denaria_perp_arbitrum.CurveMath.Util.{signed_sum}
use denaria_perp_arbitrum.Engine.State.{Address, Engine, State, Env, VirtualTraderPosition}
use denaria_perp_arbitrum.Engine.Monad.{◌>>=◌}
use denaria_perp_arbitrum.Engine.Monad.Laws.{Returns}
use denaria_perp_arbitrum.Engine.Trade.{
  assign_protocol_fee_filling_insurance, fill_surplus, fill_deficit,
}
use denaria_perp_arbitrum.Engine.Trade.Insurance.{fund, HasRoom}

abbrev pub position_of : Engine → Address → VirtualTraderPosition
position_of e a = e.user_virtual_trader_position a

-- From `p` to `q` the stable balance grows by `n`, and the rest stays.
abbrev pub IsCredited : ℕ → VirtualTraderPosition → VirtualTraderPosition → Type 0
IsCredited n p q =
    (q.balance_stable ≡ p.balance_stable + n)
    × (q.debt_stable ≡ p.debt_stable)
    × (q.balance_asset ≡ p.balance_asset)
    × (q.debt_asset ≡ p.debt_asset)

-- The fund keeps a part of the fee, and `protocol` gets the rest.
abbrev pub IsFilled : ℕ → Address → Engine → Engine → Type 0
IsFilled fee protocol e r =
    (kept : ℕ) × (kept ≤ fee)
    × (fund r ≡ fund e +ℤ pos kept)
    × IsCredited (fee - kept) (position_of e protocol) (position_of r protocol)
    × ((a : Address) → (a == protocol) ≡ false → position_of r a ≡ position_of e a)

surplus :
    (fee : ℕ) (protocol : Address) (env : Env) (s : State)
    → s.engine.market.insurance_fund_sign ≡ true
    → HasRoom fee protocol s.engine
    → Returns
        (fill_surplus fee protocol s.engine.market s.engine.config.insurance_fund_cap env s)
        (λ _ r. IsFilled fee protocol s.engine r.engine)
unfolding fill_surplus Returns ◌>>=◌ ◌+ℤ◌
surplus fee protocol env s sign room =
    let f = s.engine.market.insurance_fund in
    let cap = s.engine.config.insurance_fund_cap in
    elim (Bool-cases (ltb f cap)) [
      | inl below ↦ elim (Bool-cases (leb fee (cap ⊖ f))) [
        | inl fits ↦
            rw (below, fits, sign) (fee, omega arith, ground arith, ground arith, λ a h. refl)
        | inr over ↦
            rw (below, over, sign)
              (
                cap - f,
                ground arith,
                ground arith,
                rw (==-refl protocol) (ground arith),
                λ a h. rw h refl,
              )
      ]
      | inr above ↦
          rw (above, sign)
            (0, omega arith, ground arith, rw (==-refl protocol) (ground arith), λ a h. rw h refl)
    ]

deficit :
    (fee : ℕ) (protocol : Address) (env : Env) (s : State)
    → s.engine.market.insurance_fund_sign ≡ false
    → HasRoom fee protocol s.engine
    → Returns
        (fill_deficit fee protocol s.engine.market s.engine.config.insurance_fund_cap env s)
        (λ _ r. IsFilled fee protocol s.engine r.engine)
unfolding fill_deficit Returns ◌>>=◌ signed_sum ◌+ℤ◌
deficit fee protocol env s sign room =
    let f = s.engine.market.insurance_fund in
    let cap = s.engine.config.insurance_fund_cap in
    elim (Bool-cases (leb fee (cap ⊕ f))) [
      | inl fits ↦ elim (Bool-cases (ltb fee f)) [
        | inl less ↦
            rw (fits, sign, less) (fee, omega arith, ground arith, ground arith, λ a h. refl)
        | inr more ↦
            rw (fits, sign, more) (fee, omega arith, ground arith, ground arith, λ a h. refl)
      ]
      | inr over ↦
          rw (over, sign)
            (
              cap + f,
              ground arith,
              ground arith,
              rw (==-refl protocol) (ground arith),
              λ a h. rw h refl,
            )
    ]

split :
    (fee : ℕ) (protocol : Address) (env : Env) (s : State) (b : Bool)
    → s.engine.market.insurance_fund_sign ≡ b
    → HasRoom fee protocol s.engine
    → Returns
        ((if b
            then fill_surplus fee protocol s.engine.market s.engine.config.insurance_fund_cap
            else fill_deficit fee protocol s.engine.market s.engine.config.insurance_fund_cap)
          env s)
        (λ _ r. IsFilled fee protocol s.engine r.engine)
split fee protocol env s true sign room = surplus fee protocol env s sign room
split fee protocol env s false sign room = deficit fee protocol env s sign room

pub assign_protocol_fee-IsFilled :
    (fee : ℕ) (protocol : Address) (env : Env) (s : State)
    → HasRoom fee protocol s.engine
    → Returns
        (assign_protocol_fee_filling_insurance fee protocol env s)
        (λ _ r. IsFilled fee protocol s.engine r.engine)
unfolding assign_protocol_fee_filling_insurance ◌>>=◌
assign_protocol_fee-IsFilled fee protocol env s room =
    split fee protocol env s s.engine.market.insurance_fund_sign refl room
