-- ===== src/Engine/Admin/Liquidating.antt =====
-- What the methods of perp-engine/src/liquidation.rs keep of the administration.
use denaria_perp_arbitrum.Base.{ℕ, Bool, ℤ, List, [], ◌∷◌}
use denaria_perp_arbitrum.Engine.State.{Address, Env}
use denaria_perp_arbitrum.Engine.Monad.Frames.{Framed, Framed->>=, Framed-pure}
use denaria_perp_arbitrum.Engine.Admin.{admin, reads}
use denaria_perp_arbitrum.Engine.Liquidation.{Assessment}
use denaria_perp_arbitrum.Engine.Transfer.{
  insurance_part, liquidate_position, long_value, pay_insurance, short_curve_value, short_value,
  transfer_long, transfer_short,
}
use denaria_perp_arbitrum.Engine.Admin.Trading.{
  assign_protocol_fee_filling_insurance-Framed, ensure_margin-Framed,
}
use denaria_perp_arbitrum.Engine.Admin.Providing.{remove_liquidity-Framed}
use denaria_perp_arbitrum.Engine.Liquidation.{
  assess, batch_liquidate_impl, close_out, ensure_liquidatable, liquidate_each, liquidate_impl,
  liquidate_with_price, pull_liquidity, report_liquidation, stamp_both,
}
use denaria_perp_arbitrum.Engine.Admin.Accounted.{
  settle_funding_and_update_snapshots-Framed, stamp_funding_rate-Framed, update_fg-Framed,
}
use denaria_perp_arbitrum.Engine.Admin.Closing.{close_and_withdraw_inner-Framed}

pub long_value-Framed : (env : Env) (a0 : ℕ) (a1 : ℕ) → Framed env admin (long_value a0 a1)
unfolding long_value
long_value-Framed env a0 a1 = search reads depth 40

pub short_curve_value-Framed :
    (env : Env) (a0 : ℕ) (a1 : Address) (a2 : ℕ) (a3 : ℕ)
    → Framed env admin (short_curve_value a0 a1 a2 a3)
unfolding short_curve_value
short_curve_value-Framed env a0 a1 a2 a3 = search reads depth 40

pub short_value-Framed :
    (env : Env) (a0 : ℕ) (a1 : Address) (a2 : ℕ) (a3 : ℕ)
    → Framed env admin (short_value a0 a1 a2 a3)
unfolding short_value
short_value-Framed env a0 a1 a2 a3 = search (reads, short_curve_value-Framed) depth 40

pub pay_insurance-Framed :
    (env : Env) (a0 : Address) (a1 : ℕ) → Framed env admin (pay_insurance a0 a1)
unfolding pay_insurance
pay_insurance-Framed env a0 a1 =
    search (reads, assign_protocol_fee_filling_insurance-Framed) depth 40

pub insurance_part-Framed : (env : Env) (a0 : ℕ) (a1 : ℕ) → Framed env admin (insurance_part a0 a1)
unfolding insurance_part
insurance_part-Framed env a0 a1 = search reads depth 40

pub transfer_long-Framed :
    (env : Env) (a0 : ℕ) (a1 : Address) (a2 : Address) (a3 : ℕ) (a4 : ℕ)
    → Framed env admin (transfer_long a0 a1 a2 a3 a4)
unfolding transfer_long
transfer_long-Framed env a0 a1 a2 a3 a4 = search (reads, pay_insurance-Framed) depth 40

pub transfer_short-Framed :
    (env : Env) (a0 : ℕ) (a1 : Address) (a2 : Address) (a3 : ℕ) (a4 : ℕ)
    → Framed env admin (transfer_short a0 a1 a2 a3 a4)
unfolding transfer_short
transfer_short-Framed env a0 a1 a2 a3 a4 = search (reads, pay_insurance-Framed) depth 40

pub liquidate_position-Framed :
    (env : Env) (a0 : ℕ) (a1 : Address) (a2 : ℕ) (a3 : Bool) (a4 : Address) (a5 : ℕ) (a6 : ℕ)
    → Framed env admin (liquidate_position a0 a1 a2 a3 a4 a5 a6)
unfolding liquidate_position
liquidate_position-Framed env a0 a1 a2 a3 a4 a5 a6 =
    search
      (
        reads, long_value-Framed, short_value-Framed, insurance_part-Framed, transfer_long-Framed,
        transfer_short-Framed,
      )
      depth 40

pub pull_liquidity-Framed :
    (env : Env) (a0 : Address) (a1 : ℕ) (a2 : ℕ) (a3 : ℕ) (a4 : ℕ) (a5 : Bool) (a6 : ℕ)
    → Framed env admin (pull_liquidity a0 a1 a2 a3 a4 a5 a6)
unfolding pull_liquidity
pull_liquidity-Framed env a0 a1 a2 a3 a4 a5 a6 = search (reads, remove_liquidity-Framed) depth 40

pub ensure_liquidatable-Framed :
    (env : Env) (a0 : ℕ) (a1 : ℕ) → Framed env admin (ensure_liquidatable a0 a1)
unfolding ensure_liquidatable
ensure_liquidatable-Framed env a0 a1 = search reads depth 40

pub stamp_both-Framed :
    (env : Env) (a0 : Address) (a1 : Address) → Framed env admin (stamp_both a0 a1)
unfolding stamp_both
stamp_both-Framed env a0 a1 = search (reads, stamp_funding_rate-Framed) depth 40

pub close_out-Framed :
    (env : Env) (a0 : Address) (a1 : Address) (a2 : ℕ) (a3 : ℕ)
    → Framed env admin (close_out a0 a1 a2 a3)
unfolding close_out
close_out-Framed env a0 a1 a2 a3 = search (reads, close_and_withdraw_inner-Framed) depth 40

pub assess-Framed :
    (env : Env) (a0 : Address) (a1 : Address) (a2 : ℕ) (a3 : ℕ)
    → Framed env admin (assess a0 a1 a2 a3)
unfolding assess
assess-Framed env a0 a1 a2 a3 =
    search
      (reads, update_fg-Framed, settle_funding_and_update_snapshots-Framed, pull_liquidity-Framed)
      depth 40

pub report_liquidation-Framed :
    (env : Env) (a0 : Address) (a1 : Address) (a2 : ℕ) (a3 : ℕ) (a4 : Assessment) (a5 : ℕ) (a6 : ℤ)
    → Framed env admin (report_liquidation a0 a1 a2 a3 a4 a5 a6)
unfolding report_liquidation
report_liquidation-Framed env a0 a1 a2 a3 a4 a5 a6 = search reads depth 40

pub liquidate_with_price-Framed :
    (env : Env) (a0 : Address) (a1 : Address) (a2 : ℕ) (a3 : ℕ)
    → Framed env admin (liquidate_with_price a0 a1 a2 a3)
unfolding liquidate_with_price
liquidate_with_price-Framed env a0 a1 a2 a3 =
    search
      (
        reads, ensure_margin-Framed, liquidate_position-Framed, ensure_liquidatable-Framed,
        stamp_both-Framed, close_out-Framed, assess-Framed, report_liquidation-Framed,
      )
      depth 40

pub liquidate_impl-Framed :
    (env : Env) (a0 : Address) (a1 : Address) (a2 : ℕ) (a3 : ℕ)
    → Framed env admin (liquidate_impl a0 a1 a2 a3)
unfolding liquidate_impl
liquidate_impl-Framed env a0 a1 a2 a3 = search (reads, liquidate_with_price-Framed) depth 40

pub liquidate_each-Framed :
    (env : Env) (liquidator : Address) (l : List (Address × ℕ)) (price : ℕ)
    → Framed env admin (liquidate_each liquidator l price)
unfolding liquidate_each
liquidate_each-Framed env liquidator [] price = Framed-pure tt
liquidate_each-Framed env liquidator ((user, size) ∷ rest) price =
    Framed->>= _ _ (liquidate_with_price-Framed env liquidator user size price)
      λ u. liquidate_each-Framed env liquidator rest price

pub batch_liquidate_impl-Framed :
    (env : Env) (a0 : Address) (a1 : List Address) (a2 : List ℕ) (a3 : ℕ)
    → Framed env admin (batch_liquidate_impl a0 a1 a2 a3)
unfolding batch_liquidate_impl
batch_liquidate_impl-Framed env a0 a1 a2 a3 = search (reads, liquidate_each-Framed) depth 40
