-- ===== src/Engine/Trade/Insurance.antt =====
-- `assign_protocol_fee_filling_insurance` of perp-engine/src/trade.rs: where the fee goes.
use denaria_perp_arbitrum.Base.{
  ℕ, ◌+◌, ◌<◌, ◌≡◌, refl, Bool, true, false, arith, word_mod, ltb, leb, Bool-cases, inl, inr, ◌⊎◌,
  with_sign, ℤ, pos, ◌+ℤ◌, if◌then◌else◌, ◌⊖◌, ◌⊕◌, ◌≤ℤ◌,
}
use denaria_perp_arbitrum.CurveMath.Util.{signed_sum}
use denaria_perp_arbitrum.Engine.State.{Address, Engine, State, Env}
use denaria_perp_arbitrum.Engine.Monad.{◌>>=◌}
use denaria_perp_arbitrum.Engine.Monad.Laws.{Returns}
use denaria_perp_arbitrum.Engine.Trade.{
  assign_protocol_fee_filling_insurance, fill_surplus, fill_deficit,
}

abbrev pub fund : Engine → ℤ
fund e = with_sign e.market.insurance_fund_sign e.market.insurance_fund

abbrev pub protocol_balance : Engine → Address → ℕ
protocol_balance e protocol = (e.user_virtual_trader_position protocol).balance_stable

-- No sum of the amounts leaves the 256-bit words.
abbrev pub HasRoom : ℕ → Address → Engine → Type 0
HasRoom fee protocol e =
    (e.market.insurance_fund + e.config.insurance_fund_cap < word_mod)
    × (protocol_balance e protocol + fee < word_mod)
    × (e.market.insurance_fund + fee < word_mod)

-- The fee is split between the fund and the protocol's balance, and the fund does not grow above
-- its cap.
abbrev pub Assigned : ℕ → Address → Engine → Engine → Type 0
Assigned fee protocol e r =
    (fund r +ℤ pos (protocol_balance r protocol)
      ≡ fund e +ℤ pos (protocol_balance e protocol + fee))
    × (fund e ≤ℤ fund r)
    × ((fund r ≤ℤ pos e.config.insurance_fund_cap) ⊎ (fund r ≡ fund e))

surplus :
    (fee : ℕ) (protocol : Address) (env : Env) (s : State)
    → s.engine.market.insurance_fund_sign ≡ true
    → HasRoom fee protocol s.engine
    → Returns
        (fill_surplus fee protocol s.engine.market s.engine.config.insurance_fund_cap env s)
        (λ _ r. Assigned fee protocol s.engine r.engine)
unfolding fill_surplus Returns ◌>>=◌ ◌+ℤ◌
surplus fee protocol env s sign room =
    let f = s.engine.market.insurance_fund in
    let cap = s.engine.config.insurance_fund_cap in
    elim (Bool-cases (ltb f cap)) [
      | inl below ↦ elim (Bool-cases (leb fee (cap ⊖ f))) [
        | inl fits ↦ rw (below, fits, sign) (ground arith)
        | inr over ↦ rw (below, over, sign) (ground arith)
      ]
      | inr above ↦ rw (above, sign) (ground arith)
    ]

deficit :
    (fee : ℕ) (protocol : Address) (env : Env) (s : State)
    → s.engine.market.insurance_fund_sign ≡ false
    → HasRoom fee protocol s.engine
    → Returns
        (fill_deficit fee protocol s.engine.market s.engine.config.insurance_fund_cap env s)
        (λ _ r. Assigned fee protocol s.engine r.engine)
unfolding fill_deficit Returns ◌>>=◌ signed_sum ◌+ℤ◌
deficit fee protocol env s sign room =
    let f = s.engine.market.insurance_fund in
    let cap = s.engine.config.insurance_fund_cap in
    elim (Bool-cases (leb fee (cap ⊕ f))) [
      | inl fits ↦ elim (Bool-cases (ltb fee f)) [
        | inl less ↦ rw (fits, sign, less) (ground arith)
        | inr more ↦ rw (fits, sign, more) (ground arith)
      ]
      | inr over ↦ rw (over, sign) (ground arith)
    ]

split :
    (fee : ℕ) (protocol : Address) (env : Env) (s : State) (b : Bool)
    → s.engine.market.insurance_fund_sign ≡ b
    → HasRoom fee protocol s.engine
    → Returns
        ((if b
            then fill_surplus fee protocol s.engine.market s.engine.config.insurance_fund_cap
            else fill_deficit fee protocol s.engine.market s.engine.config.insurance_fund_cap)
          env s)
        (λ _ r. Assigned fee protocol s.engine r.engine)
split fee protocol env s true sign room = surplus fee protocol env s sign room
split fee protocol env s false sign room = deficit fee protocol env s sign room

-- When no sum of the fee, the fund, the cap and the protocol's balance leaves the words, the
-- assignment returns; the fund, read with its sign, and the protocol's balance together grow by
-- exactly the fee; the fund does not shrink, and it changes only to a value up to its cap.
pub assign_protocol_fee_conserves :
    (fee : ℕ) (protocol : Address) (env : Env) (s : State)
    → HasRoom fee protocol s.engine
    → Returns
        (assign_protocol_fee_filling_insurance fee protocol env s)
        (λ _ r. Assigned fee protocol s.engine r.engine)
unfolding assign_protocol_fee_filling_insurance ◌>>=◌
assign_protocol_fee_conserves fee protocol env s room =
    split fee protocol env s s.engine.market.insurance_fund_sign refl room
