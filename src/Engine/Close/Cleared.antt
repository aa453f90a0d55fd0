-- ===== src/Engine/Close/Cleared.antt =====
-- What a close of perp-engine/src/close.rs and auto_close.rs leaves of a trader's position.
use denaria_perp_arbitrum.Base.{==-refl, ℕ, ◌≡◌, refl, ap, ◌∙◌, false, Bool}
use denaria_perp_arbitrum.Engine.State.{Event, Address, Env, State, VirtualTraderPosition}
use denaria_perp_arbitrum.Engine.Monad.{emit, pure, ◌>>◌, M, ◌>>=◌}
use denaria_perp_arbitrum.Engine.Monad.Frames.{Framed}
use denaria_perp_arbitrum.Engine.Monad.Laws.{Ends-modify, Ends, Ends->>=}
use denaria_perp_arbitrum.Engine.Monad.Keeps.{Ends-Keeps, Framed-Keeps}
use denaria_perp_arbitrum.Engine.Admin.{reads}
use denaria_perp_arbitrum.Engine.Clear.{clear_virtual_trader_position, clear_auto_close_data}
use denaria_perp_arbitrum.Engine.Close.{
  close_and_withdraw_inner, close_and_withdraw_outer, charge_insurance, add_pnl_to_collateral,
}
use denaria_perp_arbitrum.Engine.AutoClose.{
  auto_close_user_position_impl, auto_close_with_price, auto_close_eligible,
}

abbrev empty_position : VirtualTraderPosition
empty_position = record {
  balance_stable = 0;
  balance_asset = 0;
  debt_stable = 0;
  debt_asset = 0;
  funding_fee = 0;
  funding_fee_sign = false;
  initial_funding_rate = 0;
  initial_funding_rate_sign = false;
}

abbrev position_of : Address → State → VirtualTraderPosition
position_of user s = s.engine.user_virtual_trader_position user

abbrev authorized_of : Address → State → Bool
authorized_of user s = (s.engine.auto_close_users_data user).authorized

-- The user has no trader position, and his auto-close is off.
abbrev pub IsClosed : Address → State → Type 0
IsClosed user s = (position_of user s ≡ empty_position) × (authorized_of user s ≡ false)

-- What the first part sets up and the rest keeps.
Ends-Framed :
    {A B X : Type 0} {env : Env} {P : State → Type 0} (f : State → X) (m : M A) (g : A → M B)
    → ((s r : State) → f r ≡ f s → P s → P r)
    → Ends env P m
    → ((x : A) → Framed env f (g x))
    → Ends env P (m >>= g)
Ends-Framed f m g same h k = Ends-Keeps f m g same h (λ x. Framed-Keeps _ (k x))

Ends-both :
    {A : Type 0} {env : Env} {P Q : State → Type 0} (m : M A)
    → Ends env P m
    → Ends env Q m
    → Ends env (λ s. P s × Q s) m
Ends-both m h k = record { ends = λ s y r e. (h.ends s y r e, k.ends s y r e) }

no_position :
    (user : Address) (env : Env)
    → Ends env (λ s. position_of user s ≡ empty_position) (clear_virtual_trader_position user)
unfolding clear_virtual_trader_position
no_position user env = Ends-modify _ λ s. rw (==-refl user, position_of) refl

no_auto_close :
    (user : Address) (env : Env)
    → Ends env (λ s. authorized_of user s ≡ false) (clear_auto_close_data user 0)
unfolding clear_auto_close_data
no_auto_close user env =
    Ends->>= _ _ λ ac. Ends->>= _ _ λ u. Ends-modify _ λ s. rw (==-refl user, authorized_of) refl

-- The end of a close, from the deletion of the position on.
module _ (user : Address) (pnl : ℕ) (pnl_sign : Bool) (collateral : ℕ) (env : Env) where
  abbrev settle : M (ℕ × Bool)
  settle =
      charge_insurance pnl pnl_sign collateral
      >> (emit (Event.closed_position user pnl pnl_sign) >> pure (pnl, pnl_sign))

  finish-IsClosed :
      Ends env
        (IsClosed user)
        (clear_virtual_trader_position user >> (clear_auto_close_data user 0 >> settle))
  unfolding clear_auto_close_data charge_insurance
  finish-IsClosed =
      Ends-both _
        (Ends-Framed (position_of user) (clear_virtual_trader_position user) _ (λ s r e p. e ∙ p)
          (no_position user env) λ u. search reads depth 30)
        (Ends->>= _ _ λ u.
          Ends-Framed (authorized_of user) (clear_auto_close_data user 0) _ (λ s r e p. e ∙ p)
            (no_auto_close user env) λ v. search reads depth 30)

close_and_withdraw_inner-IsClosed :
    (max_slippage max_liq_fee : ℕ) (frontend user : Address) (price collateral : ℕ) (b : Bool)
    (env : Env)
    → Ends env
        (IsClosed user)
        (close_and_withdraw_inner max_slippage max_liq_fee frontend user price collateral b)
unfolding close_and_withdraw_inner
close_and_withdraw_inner-IsClosed max_slippage max_liq_fee frontend user price collateral b env =
    search (Ends->>=, finish-IsClosed) depth 30

-- The position and the switch at once.
abbrev closing : Address → State → VirtualTraderPosition × Bool
closing user s = (position_of user s, authorized_of user s)

closing-IsClosed :
    (user : Address) (s r : State)
    → closing user r ≡ closing user s
    → IsClosed user s
    → IsClosed user r
closing-IsClosed user s r e (p, q) = (ap (λ x. x.0) e ∙ p, ap (λ x. x.1) e ∙ q)

-- What follows the closing of the position, in the methods that close one.
close_then :
    {A : Type 0} (max_slippage max_liq_fee : ℕ) (frontend user : Address) (price collateral : ℕ)
    (b : Bool) (env : Env) (k : ℕ × Bool → M A)
    → ((r : ℕ × Bool) → Framed env (closing user) (k r))
    → Ends env
        (IsClosed user)
        (close_and_withdraw_inner max_slippage max_liq_fee frontend user price collateral b >>= k)
close_then max_slippage max_liq_fee frontend user price collateral b env k h =
    Ends-Framed (closing user) _ k (closing-IsClosed user)
      (close_and_withdraw_inner-IsClosed max_slippage max_liq_fee frontend user price collateral b
        env)
      h

auto_close_with_price-IsClosed :
    (caller user frontend : Address) (price : ℕ) (env : Env)
    → Ends env (IsClosed user) (auto_close_with_price caller user frontend price)
unfolding auto_close_with_price auto_close_eligible add_pnl_to_collateral
auto_close_with_price-IsClosed caller user frontend price env =
    search (Ends->>=, close_then, reads) depth 30

-- A close that returns, by the user himself or by an auto-close, leaves him no trader position and
-- no auto-close.
pub closes_clear_position :
    (caller user frontend : Address) (max_slippage max_liq_fee report : ℕ) (env : Env)
    → Ends env
        (IsClosed user)
        (close_and_withdraw_outer user max_slippage max_liq_fee frontend report)
      × Ends env (IsClosed user) (auto_close_user_position_impl caller user frontend report)
unfolding close_and_withdraw_outer auto_close_user_position_impl add_pnl_to_collateral
closes_clear_position caller user frontend max_slippage max_liq_fee report env = (
  search (Ends->>=, close_then, reads) depth 30,
  Ends->>= _ _ λ u. Ends->>= _ _ λ v. Ends->>= _ _ λ price.
      Ends-Framed (closing user) (auto_close_with_price caller user frontend price) _
        (closing-IsClosed user) (auto_close_with_price-IsClosed caller user frontend price env)
        λ w. search reads depth 10,
)
