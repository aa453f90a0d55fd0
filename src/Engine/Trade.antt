-- ===== src/Engine/Trade.antt =====
-- perp-engine/src/trade.rs: a trade against the curve.
pub mod Insurance
pub mod Assets
pub mod Moves
pub mod Conserved
use denaria_perp_arbitrum.Base.{
  ℕ, Bool, true, false, not, ◌&&◌, ◌||◌, ltb, leb, ◌==◌, if◌then◌else◌, same_flag, ◌⊕◌, ◌⊖◌, Code,
}
use denaria_perp_arbitrum.CurveMath.Util.{wad, i, u, md, signed_sum, calc_ema}
use denaria_perp_arbitrum.Engine.State.{
  Address, Engine, Event, Config, Market, VirtualTraderPosition,
}
use denaria_perp_arbitrum.Engine.Monad.{
  M, ◌>>=◌, ◌>>◌, pure, call, gets, asks, ensure, modify, set_market, set_position, when, emit,
  enter, set_entered, verify_report, read_price, read_collateral,
}
use denaria_perp_arbitrum.Engine.Epochs.{
  UpdateKind, apply_liquidity_matrix_update, refresh_lp_funding_snapshot,
}
use denaria_perp_arbitrum.Engine.FundingView.{compute_funding_fee}
use denaria_perp_arbitrum.Engine.MarginView.{
  compute_long_return, compute_short_return, calc_mr, curve_a, curve_b,
}
use denaria_perp_arbitrum.Engine.Accrual.{update_fg, settle_funding_fee}

abbrev pub fee_frac_dec : ℕ
fee_frac_dec = 1_000_000

abbrev credit_protocol : Address → ℕ → ℕ → M (Unit {0})
credit_protocol protocol_addr fee kept =
    set_position protocol_addr λ p. record p { balance_stable = p.balance_stable ⊕ fee ⊖ kept }

-- The fund is not in deficit: fill it up to the cap.
unfoldable pub fill_surplus : ℕ → Address → Market → ℕ → M (Unit {0})
fill_surplus fee protocol_addr m cap =
    if ltb m.insurance_fund cap
    then (if leb fee (cap ⊖ m.insurance_fund)
        then set_market (λ n. record n { insurance_fund = m.insurance_fund ⊕ fee })
        else (set_market (λ n. record n { insurance_fund = cap })
            >> credit_protocol protocol_addr fee (cap ⊖ m.insurance_fund)))
    else set_position protocol_addr (λ p. record p { balance_stable = p.balance_stable ⊕ fee })

-- The fund is in deficit: the capacity is the cap and the deficit.
unfoldable pub fill_deficit : ℕ → Address → Market → ℕ → M (Unit {0})
fill_deficit fee protocol_addr m cap =
    if leb fee (cap ⊕ m.insurance_fund)
    then (call (signed_sum m.insurance_fund m.insurance_fund_sign fee true) >>= λ r.
        set_market (λ n. record n { insurance_fund = r.0; insurance_fund_sign = r.1 }))
    else (credit_protocol protocol_addr fee (cap ⊕ m.insurance_fund)
        >> set_market (λ n. record n { insurance_fund = cap; insurance_fund_sign = true }))

unfoldable pub assign_protocol_fee_filling_insurance : ℕ → Address → M (Unit {0})
unfolding fill_surplus fill_deficit
assign_protocol_fee_filling_insurance fee protocol_addr = do
  m ← gets λ e. e.market
  cap ← gets λ e. e.config.insurance_fund_cap
  if m.insurance_fund_sign
      then fill_surplus fee protocol_addr m cap
      else fill_deficit fee protocol_addr m cap

-- The trade's arguments.
pub record Order : Type 0 where
  pub direction : Bool
  pub size : ℕ
  pub min_trade_return : ℕ
  pub initial_guess : ℕ
  pub frontend_address : Address
  pub user : Address
  pub spot_price : ℕ

-- The curve's reference point is stale: too old, another direction or another price.
abbrev pub curve_is_stale : Engine → ℕ → Bool → ℕ → Bool
curve_is_stale e block_ts direction price =
    ltb (e.market.last_curve_update ⊕ e.config.curve_update_interval) block_ts
    || not (same_flag e.market.last_trade_direction direction)
    || not (e.market.last_validated_price == price)

unfoldable pub refresh_curve : Bool → ℕ → M (Unit {0})
refresh_curve direction price = do
  e ← gets λ e. e
  block_ts ← asks λ env. env.block_timestamp
  when (curve_is_stale e block_ts direction price) (
      set_market λ m. record m {
        last_curve_update = block_ts;
        last_trade_direction = direction;
        last_validated_price = price;
        dy0 = 0;
        dx0 = 0;
      })

-- What the rest of the trade needs: the trader's return, the fee, and the pool's gross return of a
-- short trade.
pub record Fill : Type 0 where
  pub trade_return : ℕ
  pub trading_fee_amount : ℕ
  pub short_total_trade_return : ℕ

-- The first guess of the solver, for a pool side of `liquidity`.
abbrev clamped_guess : ℕ → ℕ → ℕ → ℕ
clamped_guess liquidity zero_slippage_return guess =
    if leb liquidity zero_slippage_return
    then 0
    else if ltb liquidity guess || ltb guess (liquidity ⊖ zero_slippage_return)
    then liquidity ⊖ zero_slippage_return
    else guess

-- The moving average of the slippage, updated at most once a block.
abbrev average_long : Bool → Order → Config → Market → ℕ → ℕ → M (Unit {0})
average_long due o c m traded trade_return = when due (
    call (md traded c.oracle_decimals trade_return) >>= λ p.
    call (calc_ema p o.spot_price c.oracle_decimals m.avg_slippage_l c.ema_param) >>= λ avg.
    set_market λ n. record n { avg_slippage_l = avg })

-- A long trade above its fee. The state read here is the one after the curve's refresh.
unfoldable pub fill_long_sized : Bool → Order → ℕ → ℕ → ℕ → ℕ → M Fill
fill_long_sized due o stable_liq asset_liq guess fee = do
  c ← gets λ e. e.config
  m ← gets λ e. e.market
  frontend_fee_part ← call (md fee c.fee_frontend fee_frac_dec)
  let charged = if o.frontend_address == 0 then fee ⊖ frontend_fee_part else fee
  gross ← call (
      compute_long_return (o.size ⊖ charged ⊕ m.dy0) o.spot_price c.oracle_decimals guess
        (stable_liq ⊖ m.dy0) (asset_liq ⊕ m.dx0) curve_a curve_b)
  let trade_return = gross ⊖ m.dx0
  set_market λ n. record n { dy0 = m.dy0 ⊕ o.size ⊖ charged }
  average_long due o c m (o.size ⊖ fee) trade_return
  set_market λ n. record n { dx0 = n.dx0 ⊕ trade_return }
  pure (record {
    trade_return = trade_return;
    trading_fee_amount = fee;
    short_total_trade_return = 0;
  })

-- T4: the return lies between the user's minimum and the return without slippage.
abbrev ensure_return : Order → ℕ → ℕ → M (Unit {0})
ensure_return o trade_return zero_slippage_return =
    ensure (leb o.min_trade_return trade_return && leb trade_return zero_slippage_return) Code.t4

unfoldable pub fill_long : Bool → Order → ℕ → ℕ → ℕ → M Fill
fill_long due o stable_liq asset_liq zero_slippage_return = do
  c ← gets λ e. e.config
  let guess = clamped_guess asset_liq zero_slippage_return o.initial_guess
  rate_fee ← call (md o.size c.trading_fee wad)
  let fee = rate_fee ⊕ c.flat_trading_fee
  filled ←
      (if ltb fee o.size
        then fill_long_sized due o stable_liq asset_liq guess fee
        else pure (record {
          trade_return = 0;
          trading_fee_amount = o.size;
          short_total_trade_return = 0;
        }))
  ensure_return o filled.trade_return zero_slippage_return
  pure filled

abbrev average_short : Bool → Order → Config → Market → ℕ → M (Unit {0})
average_short due o c m total = when due (
    call (md total c.oracle_decimals o.size) >>= λ p.
    call (calc_ema p o.spot_price c.oracle_decimals m.avg_slippage_s c.ema_param) >>= λ avg.
    set_market λ n. record n { avg_slippage_s = avg })

unfoldable pub fill_short : Bool → Order → ℕ → ℕ → ℕ → M Fill
fill_short due o stable_liq asset_liq zero_slippage_return = do
  c ← gets λ e. e.config
  m ← gets λ e. e.market
  let guess = clamped_guess stable_liq zero_slippage_return o.initial_guess
  gross ← call (
      compute_short_return (o.size ⊕ m.dx0) o.spot_price c.oracle_decimals (guess ⊕ m.dy0)
        (stable_liq ⊕ m.dy0) (asset_liq ⊖ m.dx0) curve_a curve_b)
  let total = gross ⊖ m.dy0
  average_short due o c m total
  set_market λ n. record n { dx0 = m.dx0 ⊕ o.size; dy0 = m.dy0 ⊕ total }
  rate_fee ← call (md total c.trading_fee wad)
  let full_fee = rate_fee ⊕ c.flat_trading_fee
  let fee = if ltb full_fee total then full_fee else total
  let net = if ltb full_fee total then total ⊖ full_fee else 0
  rebate ← call (md fee c.fee_frontend fee_frac_dec)
  let trade_return = if o.frontend_address == 0 then net ⊕ rebate else net
  ensure_return o trade_return zero_slippage_return
  pure (record {
    trade_return = trade_return;
    trading_fee_amount = fee;
    short_total_trade_return = total;
  })

-- The trader's position after a long trade: asset received, stable paid, the shortfall as debt.
unfoldable pub long_position : ℕ → ℕ → VirtualTraderPosition → VirtualTraderPosition
long_position size trade_return p =
    if leb size p.balance_stable
    then record p {
      balance_asset = p.balance_asset ⊕ trade_return;
      balance_stable = p.balance_stable ⊖ size;
    }
    else record p {
      balance_asset = p.balance_asset ⊕ trade_return;
      debt_stable = p.debt_stable ⊕ size ⊖ p.balance_stable;
      balance_stable = 0;
    }

unfoldable pub short_position : ℕ → ℕ → VirtualTraderPosition → VirtualTraderPosition
short_position size trade_return p =
    if leb size p.balance_asset
    then record p {
      balance_stable = p.balance_stable ⊕ trade_return;
      balance_asset = p.balance_asset ⊖ size;
    }
    else record p {
      balance_stable = p.balance_stable ⊕ trade_return;
      debt_asset = p.debt_asset ⊕ size ⊖ p.balance_asset;
      balance_asset = 0;
    }

-- Funding fee, exposure, funding snapshot and position of the trader.
unfoldable pub book_trade : Order → ℕ → M (Unit {0})
book_trade o trade_return = do
  e ← gets λ e. e
  local_fee ← call (compute_funding_fee e o.user)
  (exposure, exposure_sign) ← call (
      signed_sum e.market.total_trader_exposure e.market.total_trader_exposure_sign
        (if o.direction then trade_return else o.size) o.direction)
  set_market
      λ m. record m { total_trader_exposure = exposure; total_trader_exposure_sign = exposure_sign }
  modify (refresh_lp_funding_snapshot o.user)
  settle_funding_fee o.user local_fee
  set_position o.user λ p. record p {
    initial_funding_rate = e.market.funding_rate;
    initial_funding_rate_sign = e.market.funding_rate_sign;
  }
  set_position o.user (
      if o.direction then long_position o.size trade_return else short_position o.size trade_return)

-- The matrix update and the pool after a long trade.
unfoldable pub move_pool_long : Order → Fill → ℕ → M (Unit {0})
move_pool_long o filled asset_liq = do
  c ← gets λ e. e.config
  liq_m_dec_u ← call (u c.liquidity_m_decimals)
  kept_fee ← call (md filled.trading_fee_amount (fee_frac_dec ⊖ c.fee_lp) fee_frac_dec)
  frontend_fee ← call (md filled.trading_fee_amount c.fee_frontend fee_frac_dec)
  let adj_size =
      if o.frontend_address == 0 then o.size ⊖ kept_fee ⊕ frontend_fee else o.size ⊖ kept_fee
  a_y_word ← call (md adj_size liq_m_dec_u asset_liq)
  a_y ← call (i a_y_word)
  a_x_word ← call (md filled.trade_return liq_m_dec_u asset_liq)
  a_x ← call (i a_x_word)
  apply_liquidity_matrix_update a_x a_y UpdateKind.long
  set_market λ m. record m {
    global_liquidity_stable = m.global_liquidity_stable ⊕ adj_size;
    global_liquidity_asset = m.global_liquidity_asset ⊖ filled.trade_return;
  }

unfoldable pub move_pool_short : Order → Fill → ℕ → M (Unit {0})
move_pool_short o filled stable_liq = do
  c ← gets λ e. e.config
  liq_m_dec_u ← call (u c.liquidity_m_decimals)
  fee_lp_share ← call (md filled.trading_fee_amount c.fee_lp fee_frac_dec)
  let net_return = filled.short_total_trade_return ⊖ fee_lp_share
  a_x_word ← call (md o.size liq_m_dec_u stable_liq)
  a_x ← call (i a_x_word)
  a_y_word ← call (md net_return liq_m_dec_u stable_liq)
  a_y ← call (i a_y_word)
  apply_liquidity_matrix_update a_x a_y UpdateKind.short
  set_market λ m. record m {
    global_liquidity_stable = m.global_liquidity_stable ⊖ net_return;
    global_liquidity_asset = m.global_liquidity_asset ⊕ o.size;
  }

-- The protocol's and the frontend's part of the fee.
unfoldable pub share_fee : Order → ℕ → M (Unit {0})
share_fee o trading_fee_amount = do
  c ← gets λ e. e.config
  protocol_fee ←
      call (md trading_fee_amount (fee_frac_dec ⊖ c.fee_lp ⊖ c.fee_frontend) fee_frac_dec)
  assign_protocol_fee_filling_insurance protocol_fee c.fee_protocol_addr
  frontend_fee ← call (md trading_fee_amount c.fee_frontend fee_frac_dec)
  when (not (o.frontend_address == 0)) (
      set_position o.frontend_address
        λ p. record p { balance_stable = p.balance_stable ⊕ frontend_fee })

-- T3: both sides of the pool keep a value of one.
unfoldable pub ensure_pool_left : ℕ → M (Unit {0})
ensure_pool_left spot_price = do
  e ← gets λ e. e
  asset_value ← call (md e.market.global_liquidity_asset spot_price e.config.oracle_decimals)
  ensure (leb wad e.market.global_liquidity_stable && leb wad asset_value) Code.t3

unfoldable pub execute_trade : Order → M ℕ
unfolding refresh_curve book_trade share_fee ensure_pool_left
execute_trade o = do
  e ← gets λ e. e
  block_ts ← asks λ env. env.block_timestamp
  let stable_liq = e.market.global_liquidity_stable
  let asset_liq = e.market.global_liquidity_asset
  let last_op_ts = e.market.last_operation_timestamp
  let od = e.config.oracle_decimals
  zero_slippage_return ←
      call (if o.direction then md o.size od o.spot_price else md o.size o.spot_price od)
  refresh_curve o.direction o.spot_price
  let due = not (last_op_ts == block_ts)
  filled ←
      (if o.direction
        then fill_long due o stable_liq asset_liq zero_slippage_return
        else fill_short due o stable_liq asset_liq zero_slippage_return)
  ensure (ltb filled.trade_return (if o.direction then asset_liq else stable_liq)) Code.t5
  update_fg o.spot_price last_op_ts
  book_trade o filled.trade_return
  (if o.direction then move_pool_long o filled asset_liq else move_pool_short o filled stable_liq)
  share_fee o filled.trading_fee_amount
  ensure_pool_left o.spot_price
  pure filled.trade_return

-- T2: the trade is worth the minimal size.
unfoldable pub ensure_trade_size : Bool → ℕ → ℕ → M (Unit {0})
ensure_trade_size direction size spot_price = do
  c ← gets λ e. e.config
  value ← (if direction then pure size else call (md size spot_price c.oracle_decimals))
  ensure (leb c.minimum_trade_size value) Code.t2

-- T1: the margin ratio is above the maintenance margin.
unfoldable pub ensure_margin : Address → ℕ → ℕ → Code → M (Unit {0})
ensure_margin user price collateral why = do
  e ← gets λ e. e
  block_ts ← asks λ env. env.block_timestamp
  mr ← call (calc_mr e block_ts user price collateral e.market.last_operation_timestamp)
  ensure (ltb e.config.mmr mr) why

-- The public trade: `leverage` is the caller's declared leverage.
unfoldable pub trade_impl : Address → Bool → ℕ → ℕ → ℕ → Address → ℕ → ℕ → M ℕ
unfolding ensure_trade_size ensure_margin
trade_impl user direction size min_trade_return initial_guess frontend_address leverage report = do
  paused ← gets λ e. e.trading_paused
  ensure (not paused) Code.paused
  enter
  verify_report report
  max_leverage ← gets λ e. e.config.max_leverage
  ensure (leb leverage max_leverage) Code.t0
  spot_price ← read_price
  ensure_trade_size direction size spot_price
  trade_return ← execute_trade (record {
    direction = direction;
    size = size;
    min_trade_return = min_trade_return;
    initial_guess = initial_guess;
    frontend_address = frontend_address;
    user = user;
    spot_price = spot_price;
  })
  collateral ← read_collateral user
  ensure_margin user spot_price collateral Code.t1
  emit (Event.executed_trade user direction size trade_return spot_price leverage)
  set_entered false
  pure trade_return
