-- ===== src/Engine/Discount.antt =====
-- perp-engine/src/liquidation.rs: the discount of a liquidation.
pub mod Bounds
use denaria_perp_arbitrum.Base.{ℕ, ◌/◌, leb, if◌then◌else◌, ◌⊕◌, ◌⊖◌, Outcome, ◌>>=◌}
use denaria_perp_arbitrum.CurveMath.Util.{md}

abbrev pub e10 : ℕ
e10 = 10_000_000_000

-- Below half the maintenance margin, and between half of it and all of it.
unfoldable pub steep_discount : ℕ → ℕ → ℕ → Outcome ℕ
steep_discount step0 liq_disc margin_ratio = do
  x ← md (step0 ⊖ margin_ratio) e10 step0
  md liq_disc (e10 ⊕ x) e10

unfoldable pub mild_discount : ℕ → ℕ → ℕ → ℕ → Outcome ℕ
mild_discount step0 step1 liq_disc margin_ratio = do
  x ← md (step1 ⊖ margin_ratio) e10 (step1 ⊖ step0)
  md (liq_disc / 2) (e10 ⊕ x) e10

-- The arguments are `mmr`, `liquidation_discount` and the margin ratio.
unfoldable pub compute_liquidation_discount : ℕ → ℕ → ℕ → Outcome ℕ
unfolding steep_discount mild_discount
compute_liquidation_discount mmr liq_disc margin_ratio =
    if leb margin_ratio (mmr / 2)
    then steep_discount (mmr / 2) liq_disc margin_ratio
    else mild_discount (mmr / 2) mmr liq_disc margin_ratio
