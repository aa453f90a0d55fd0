-- ===== src/Engine/Trade/Moves.antt =====
-- perp-engine/src/trade.rs: what booking a trade and moving the pool do to the asset of the pool and of
-- one account.
use denaria_perp_arbitrum.Base.{
  ℕ, leb, ◌==◌, ◌≡◌, refl, ap, ◌∙◌, ◌⊕◌, ◌⊖◌, Bool-cases, inl, inr, ==→eq, ==-refl, if◌then◌else◌,
}
use denaria_perp_arbitrum.Engine.State.{Address, Env, State, VirtualTraderPosition, update}
use denaria_perp_arbitrum.Engine.Monad.Frames.{Framed-call, Framed-modify}
use denaria_perp_arbitrum.Engine.Monad.After.{After, After-skip, After-gets, After-modify}
use denaria_perp_arbitrum.Engine.Trade.{
  Order, Fill, book_trade, long_position, short_position, move_pool_long, move_pool_short,
}
use denaria_perp_arbitrum.Engine.Trade.Assets.{
  Holding, holding, apply_liquidity_matrix_update-holding, settle_funding_fee-holding,
  refresh_lp_funding_snapshot-holding, Framed-set_position,
}

-- The trader's holding after the trade is booked, and the pool after it is moved.
abbrev pub booked : Order → ℕ → Holding → Holding
booked o y h =
    if o.direction
    then record h { balance = h.balance ⊕ y }
    else if leb o.size h.balance
    then record h { balance = h.balance ⊖ o.size }
    else record h { balance = 0; debt = h.debt ⊕ o.size ⊖ h.balance }

abbrev pub booked_at : Order → ℕ → Address → Holding → Holding
booked_at o y a h = if a == o.user then booked o y h else h

abbrev pub pooled : Order → ℕ → Holding → Holding
pooled o y h = record h { pool = if o.direction then h.pool ⊖ y else h.pool ⊕ o.size }

-- The asset side of a position, under a pool.
abbrev side : ℕ → VirtualTraderPosition → Holding
side pool p = record { pool = pool; balance = p.balance_asset; debt = p.debt_asset }

new_position :
    (o : Order) (y pool : ℕ) (p : VirtualTraderPosition)
    → side pool ((if o.direction then long_position o.size y else short_position o.size y) p)
      ≡ booked o y (side pool p)
unfolding long_position short_position
new_position o y pool p = elim (Bool-cases o.direction) [
  | inl d ↦ elim (Bool-cases (leb o.size p.balance_stable)) [
    | inl l ↦ rw (d, l) refl
    | inr l ↦ rw (d, l) refl
  ]
  | inr d ↦ elim (Bool-cases (leb o.size p.balance_asset)) [
    | inl l ↦ rw (d, l) refl
    | inr l ↦ rw (d, l) refl
  ]
]

module _ (a : Address) (env : Env) where
  book_position :
      (o : Order) (y : ℕ) (s : State)
      → holding a (record s {
        engine = record (s.engine) {
          user_virtual_trader_position = update s.engine.user_virtual_trader_position o.user (
              (if o.direction then long_position o.size y else short_position o.size y)
                (s.engine.user_virtual_trader_position o.user));
        };
      })
        ≡ booked_at o y a (holding a s)
  book_position o y s = elim (Bool-cases (a == o.user)) [
    | inl e ↦
        rw (==→eq a o.user e, ==-refl o.user, update)
          (new_position o y s.engine.market.global_liquidity_asset
            (s.engine.user_virtual_trader_position o.user))
    | inr n ↦ rw (update, n) refl
  ]

  pub book_trade-After :
      (o : Order) (y : ℕ) (s : State)
      → After env (book_trade o y) s (λ _ r. holding a r ≡ booked_at o y a (holding a s))
  unfolding book_trade
  book_trade-After o y s = After-gets _ _ _ (
      After-skip {f = holding a} _ _ _ (Framed-call _) λ fee s1 e1.
        After-skip {f = holding a} _ _ _ (Framed-call _) λ x s2 e2.
          After-skip {f = holding a} _ _ _ (Framed-modify _ λ s. refl) λ u s3 e3.
            After-skip {f = holding a} _ _ _
              (Framed-modify _ (refresh_lp_funding_snapshot-holding a env o.user))
              λ v s4 e4. After-skip _ _ _ (settle_funding_fee-holding a env o.user fee) λ w s5 e5.
                After-skip {f = holding a} _ _ _ (search (Framed-set_position)) λ z s6 e6.
                  After-modify _ _
                    (book_position o y s6 ∙ ap (booked_at o y a) (e6 ∙ e5 ∙ e4 ∙ e3 ∙ e2 ∙ e1)))

  pub move_pool_long-After :
      (o : Order) (filled : Fill) (liq : ℕ) (s : State)
      → After env (move_pool_long o filled liq) s (λ _ r.
        holding a r ≡ record (holding a s) { pool = (holding a s).pool ⊖ filled.trade_return })
  unfolding move_pool_long
  move_pool_long-After o filled liq s = After-gets _ _ _ (
      After-skip {f = holding a} _ _ _ (Framed-call _) λ x1 s1 e1.
        After-skip {f = holding a} _ _ _ (Framed-call _) λ x2 s2 e2.
          After-skip {f = holding a} _ _ _ (Framed-call _) λ x3 s3 e3.
            After-skip {f = holding a} _ _ _ (Framed-call _) λ x4 s4 e4.
              After-skip {f = holding a} _ _ _ (Framed-call _) λ x5 s5 e5.
                After-skip {f = holding a} _ _ _ (Framed-call _) λ x6 s6 e6.
                  After-skip {f = holding a} _ _ _ (Framed-call _) λ x7 s7 e7.
                    After-skip _ _ _ (apply_liquidity_matrix_update-holding a env _ _ _) λ u s8 e8.
                      After-modify _ _ (
                        ap (λ (h : Holding). record h { pool = h.pool ⊖ filled.trade_return })
                          (e8 ∙ e7 ∙ e6 ∙ e5 ∙ e4 ∙ e3 ∙ e2 ∙ e1)))

  pub move_pool_short-After :
      (o : Order) (filled : Fill) (liq : ℕ) (s : State)
      → After env
          (move_pool_short o filled liq)
          s
          (λ _ r. holding a r ≡ record (holding a s) { pool = (holding a s).pool ⊕ o.size })
  unfolding move_pool_short
  move_pool_short-After o filled liq s = After-gets _ _ _ (
      After-skip {f = holding a} _ _ _ (Framed-call _) λ x1 s1 e1.
        After-skip {f = holding a} _ _ _ (Framed-call _) λ x2 s2 e2.
          After-skip {f = holding a} _ _ _ (Framed-call _) λ x3 s3 e3.
            After-skip {f = holding a} _ _ _ (Framed-call _) λ x4 s4 e4.
              After-skip {f = holding a} _ _ _ (Framed-call _) λ x5 s5 e5.
                After-skip {f = holding a} _ _ _ (Framed-call _) λ x6 s6 e6.
                  After-skip _ _ _ (apply_liquidity_matrix_update-holding a env _ _ _) λ u s8 e8.
                    After-modify _ _ (
                      ap (λ (h : Holding). record h { pool = h.pool ⊕ o.size })
                        (e8 ∙ e6 ∙ e5 ∙ e4 ∙ e3 ∙ e2 ∙ e1)))
