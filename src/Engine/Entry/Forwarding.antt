-- ===== src/Engine/Entry/Forwarding.antt =====
-- The `_for` methods of perp-engine/src/lib.rs, which act for the user that the caller names.
use denaria_perp_arbitrum.Base.{Bool, sym, ◌∙◌, ◌≡◌, refl, true, false, ◌==◌, Code, reverts}
use denaria_perp_arbitrum.Engine.State.{Address, State, Env}
use denaria_perp_arbitrum.Engine.Monad.{ensure, pure, halt, M, ◌>>=◌}
use denaria_perp_arbitrum.Engine.Monad.Frames.{Framed, sent_by}
use denaria_perp_arbitrum.Engine.Access.{require_forwarder}
use denaria_perp_arbitrum.Engine.Guards.{Arguments}
use denaria_perp_arbitrum.Engine.Admin.{admin}
use denaria_perp_arbitrum.Engine.Admin.Guarded.{guarded_methods-Framed}
use denaria_perp_arbitrum.Engine.Admin.AutoClosing.{enable_auto_close_impl-Framed}
use denaria_perp_arbitrum.Engine.Admin.Closing.{clear_auto_close_data-Framed}
use denaria_perp_arbitrum.Engine.Entry.{
  clear_auto_close_data, enable_auto_close_impl, trade_impl, auto_close_user_position_impl,
  liquidate_impl, realize_pnl_outer, close_and_withdraw_outer, remove_liquidity_outer,
  add_liquidity_outer, trade, trade_for, close_and_withdraw, close_and_withdraw_for,
  add_liquidity_public, add_liquidity_for, remove_liquidity_public, remove_liquidity_for, liquidate,
  liquidate_for, realize_pnl, realize_pnl_for, enable_auto_close, enable_auto_close_for,
  disable_auto_close, disable_auto_close_for, auto_close_user_position,
  auto_close_user_position_for, batch_liquidate_for, batch_auto_close_user_position_for,
  batch_liquidate_impl, batch_auto_close_user_position_impl,
}

-- The forwarded methods of one argument list, each beside the method without a user. The two batches
-- have none: beside them stands the batch of the named account.
abbrev pub AllForwarded : Arguments → ((A : Type 0) → Address → M A → M A → Type 0) → Type 0
AllForwarded a P =
    P _ a.user (add_liquidity_for a.user a.size a.other_size a.limit a.report)
      (add_liquidity_public a.size a.other_size a.limit a.report)
    × P _ a.user (remove_liquidity_for a.user a.size a.other_size a.limit a.report)
        (remove_liquidity_public a.size a.other_size a.limit a.report)
    × P _ a.user (close_and_withdraw_for a.user a.limit a.other_size a.frontend a.report)
        (close_and_withdraw a.limit a.other_size a.frontend a.report)
    × P _ a.user (realize_pnl_for a.user a.report) (realize_pnl a.report)
    × P _ a.caller (liquidate_for a.caller a.user a.size a.report)
        (liquidate a.user a.size a.report)
    × P _ a.caller (auto_close_user_position_for a.caller a.user a.frontend a.report)
        (auto_close_user_position a.user a.frontend a.report)
    × P _ a.user
        (trade_for a.user a.direction a.size a.limit a.guess a.frontend a.leverage a.report)
        (trade a.direction a.size a.limit a.guess a.frontend a.leverage a.report)
    × P _ a.user (enable_auto_close_for a.user a.size a.other_size a.limit a.leverage)
        (enable_auto_close a.size a.other_size a.limit a.leverage)
    × P _ a.user (disable_auto_close_for a.user) disable_auto_close
    × P _ a.caller (batch_liquidate_for a.caller a.users a.sizes a.report)
        (batch_liquidate_impl a.caller a.users a.sizes a.report)
    × P _ a.caller (batch_auto_close_user_position_for a.caller a.users a.frontends a.report)
        (batch_auto_close_user_position_impl a.caller a.users a.frontends a.report)

-- What a call of `m` is for `user`, when the same call by the user himself is `own`.
abbrev pub Relayed : Env → State → (A : Type 0) → Address → M A → M A → Type 0
Relayed env s A user m own =
    ((env.msg_sender == s.engine.config.trusted_forwarder) ≡ false
      → m env s ≡ halt (reverts Code.f) s)
    × ((env.msg_sender == s.engine.config.trusted_forwarder) ≡ true
        → m env s ≡ own (sent_by user env) s)

pub gate_shut :
    {A : Type 0} (b : Bool) (env : Env) (s : State) (user : Address) (method : Address → M A)
    → b ≡ false
    → ((ensure b Code.f >>= λ u. pure user) >>= method) env s ≡ halt (reverts Code.f) s
unfolding ◌>>=◌
gate_shut true env s user method h = cc
gate_shut false env s user method h = refl

pub gate_open :
    {A : Type 0} (b : Bool) (env : Env) (s : State) (user : Address) (method : Address → M A)
    → b ≡ true
    → ((ensure b Code.f >>= λ u. pure user) >>= method) env s ≡ method user env s
unfolding ◌>>=◌
gate_open true env s user method h = refl
gate_open false env s user method h = cc

forwarded :
    {A : Type 0} (env : Env) (s : State) (user : Address) (method : Address → M A)
    → Framed env admin (method user)
    → Relayed env s A user (require_forwarder user >>= method) (method user)
unfolding require_forwarder ◌>>=◌
forwarded env s user method h = (
  gate_shut (env.msg_sender == s.engine.config.trusted_forwarder) env s user method,
  λ same.
      gate_open (env.msg_sender == s.engine.config.trusted_forwarder) env s user method same
      ∙ sym (h.blind user s),
)

-- Each of the eleven _for methods reverts with F and changes nothing when another account than the
-- trusted forwarder calls it. When the forwarder calls it, it is the call of the plain method by the
-- user himself, and for the two batches, which have no plain method, the batch of the named account.
pub forwarded_methods_act_for_user :
    (env : Env) (s : State) (a : Arguments) → AllForwarded a (Relayed env s)
unfolding trade trade_for close_and_withdraw close_and_withdraw_for add_liquidity_public
    add_liquidity_for remove_liquidity_public remove_liquidity_for liquidate liquidate_for
    realize_pnl realize_pnl_for enable_auto_close enable_auto_close_for disable_auto_close
    disable_auto_close_for auto_close_user_position auto_close_user_position_for batch_liquidate_for
    batch_auto_close_user_position_for ◌>>=◌
forwarded_methods_act_for_user env s a =
    let (m1, m2, m3, m4, m5, m6, m7, m8, m9) = guarded_methods-Framed env a in
    (
      forwarded env s _ (λ v. add_liquidity_outer v a.size a.other_size a.limit a.report) m1,
      forwarded env s _ (λ v. remove_liquidity_outer v a.size a.other_size a.limit a.report) m2,
      forwarded env s _ (λ v. close_and_withdraw_outer v a.limit a.other_size a.frontend a.report)
          m3,
      forwarded env s _ (λ v. realize_pnl_outer v a.report) m4,
      forwarded env s _ (λ v. liquidate_impl v a.user a.size a.report) m5,
      forwarded env s _ (λ v. auto_close_user_position_impl v a.user a.frontend a.report) m6,
      forwarded env s _
          (λ v. trade_impl v a.direction a.size a.limit a.guess a.frontend a.leverage a.report) m7,
      forwarded env s _ (λ v. enable_auto_close_impl v a.size a.other_size a.limit a.leverage)
          (enable_auto_close_impl-Framed env _ _ _ _ _),
      forwarded env s _ (λ v. clear_auto_close_data v 0) (clear_auto_close_data-Framed env _ _),
      forwarded env s _ (λ v. batch_liquidate_impl v a.users a.sizes a.report) m8,
      forwarded env s _ (λ v. batch_auto_close_user_position_impl v a.users a.frontends a.report)
          m9,
    )
