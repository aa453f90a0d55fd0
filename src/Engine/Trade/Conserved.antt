-- ===== src/Engine/Trade/Conserved.antt =====
-- perp-engine/src/trade.rs: a trade moves asset between the pool and the trader, and nowhere else.
use denaria_perp_arbitrum.Base.{
  ℕ, ◌+◌, ◌<◌, Bool, true, false, ltb, leb, ◌==◌, ◌≡◌, refl, ap, sym, ◌∙◌, arith, word_mod,
  Bool-cases, inl, inr, ==-refl, if◌then◌else◌,
}
use denaria_perp_arbitrum.Engine.State.{Address, Env, State}
use denaria_perp_arbitrum.Engine.Monad.{M}
use denaria_perp_arbitrum.Engine.Monad.Frames.{Framed-call, Framed-if}
use denaria_perp_arbitrum.Engine.Monad.After.{
  After, After-map, After->>=, After-skip, After-gets, After-asks, After-ensure, After-if,
  After-pure,
}
use denaria_perp_arbitrum.Engine.Admin.{reads}
use denaria_perp_arbitrum.Engine.Trade.{
  Order, Fill, execute_trade, move_pool_long, move_pool_short, trade_impl,
}
use denaria_perp_arbitrum.Engine.Trade.Assets.{
  Holding, holding, update_fg-holding, refresh_curve-holding, fill_long-holding, fill_short-holding,
  share_fee-holding, ensure_pool_left-holding, ensure_trade_size-holding, ensure_margin-holding,
}
use denaria_perp_arbitrum.Engine.Trade.Moves.{
  booked_at, pooled, book_trade-After, move_pool_long-After, move_pool_short-After,
}

-- The amounts of a trade that returns `y`: what the pool and the trader hold after it.
abbrev pub Bought : ℕ → Holding → Holding → Type 0
Bought y h k = (k.pool + y ≡ h.pool) × (k.balance ≡ h.balance + y) × (k.debt ≡ h.debt)

abbrev pub Sold : ℕ → Holding → Holding → Type 0
Sold size h k = (k.pool ≡ h.pool + size) × (k.balance + h.debt + size ≡ h.balance + k.debt)

-- Room for the amounts in the words.
abbrev pub HasRoom : ℕ → Holding → Type 0
HasRoom size h =
    (h.balance + h.pool < word_mod) × (h.pool + size < word_mod) × (h.debt + size < word_mod)

module _ (a : Address) (env : Env) where
  move_pool-After :
      (o : Order) (filled : Fill) (liq liq' : ℕ) (s : State)
      → After env
          (if o.direction then move_pool_long o filled liq else move_pool_short o filled liq')
          s
          (λ _ r. holding a r ≡ pooled o filled.trade_return (holding a s))
  unfolding move_pool_long move_pool_short
  move_pool-After o filled liq liq' s =
      After-if o.direction _ _ s (λ d. rw d (move_pool_long-After a env o filled liq s))
        λ d. rw d (move_pool_short-After a env o filled liq' s)

  execute_trade-After :
      (o : Order) (s : State)
      → After env (execute_trade o) s (λ y r.
        (holding a r ≡ pooled o y (booked_at o y a (holding a s)))
        × (o.direction ≡ true → ltb y (holding a s).pool ≡ true))
  unfolding execute_trade
  execute_trade-After o s = After-gets _ _ _ (
      After-asks _ _ _ (
        After-skip {f = holding a} _ _ _ (Framed-call _) λ zero_slippage s1 e1.
          After-skip _ _ _ (refresh_curve-holding a env _ _) λ u s2 e2.
            After-skip _ _ _
              (Framed-if o.direction _ _ (fill_long-holding a env _ _ _ _ _)
                (fill_short-holding a env _ _ _ _ _))
              λ filled s3 e3. After-ensure _ _ _ _ λ small.
                After-skip _ _ _ (update_fg-holding a env _ _) λ v s4 e4. After->>= _ _ _ (
                  After-map (book_trade-After a env o filled.trade_return s4) λ w s5 e5.
                    After->>= _ _ _ (
                      After-map (move_pool-After o filled _ _ s5) λ z s6 e6.
                        After-skip _ _ _ (share_fee-holding a env o _) λ t s7 e7.
                          After-skip _ _ _ (ensure_pool_left-holding a env _) λ q s8 e8.
                            After-pure _ _ (
                              e8
                                  ∙ e7
                                  ∙ e6
                                  ∙ ap (pooled o filled.trade_return) (
                                      e5
                                      ∙ ap (booked_at o filled.trade_return a) (e4 ∙ e3 ∙ e2 ∙ e1)),
                              λ d. rw d at small,
                            )))))

-- What a trade that returns `y` makes of the pool and of the trader.
abbrev pub Traded : Bool → ℕ → ℕ → Holding → Holding → Type 0
Traded true size y h k = Bought y h k
Traded false size y h k = Sold size h k

abbrev pub Kept : Holding → Holding → Type 0
Kept h k = (k.balance ≡ h.balance) × (k.debt ≡ h.debt)

traded :
    (o : Order) (y : ℕ) (h k : Holding)
    → HasRoom o.size h
    → k ≡ pooled o y (booked_at o y o.user h)
    → (o.direction ≡ true → ltb y h.pool ≡ true)
    → Traded o.direction o.size y h k
traded o y h k room e small = elim (Bool-cases o.direction) [
  | inl d ↦
      let below : ltb y h.pool ≡ true = small d in
      let less : y < h.pool = ground arith in rw (e, ==-refl o.user, d) (ground arith)
  | inr d ↦ elim (Bool-cases (leb o.size h.balance)) [
    | inl l ↦ rw (e, ==-refl o.user, d, l) (ground arith)
    | inr l ↦ rw (e, ==-refl o.user, d, l) (ground arith)
  ]
]

kept :
    (o : Order) (y : ℕ) (a : Address) (h k : Holding)
    → (a == o.user) ≡ false
    → k ≡ pooled o y (booked_at o y a h)
    → Kept h k
kept o y a h k n e = rw (e, n) (refl, refl)

module _ (env : Env) (user : Address) (direction : Bool) (size min_trade_return initial_guess : ℕ)
    (frontend_address : Address) (leverage report : ℕ) where
  abbrev trade_run : M ℕ
  trade_run =
      trade_impl user direction size min_trade_return initial_guess frontend_address leverage report

  -- The order of the trade, at any price.
  abbrev order : Order
  order = record {
    direction = direction;
    size = size;
    min_trade_return = min_trade_return;
    initial_guess = initial_guess;
    frontend_address = frontend_address;
    user = user;
    spot_price = 0;
  }

  trade_impl-After :
      (a : Address) (s : State)
      → After env trade_run s (λ y r.
        (holding a r ≡ pooled order y (booked_at order y a (holding a s)))
        × (direction ≡ true → ltb y (holding a s).pool ≡ true))
  unfolding trade_impl
  trade_impl-After a s = After-gets _ _ _ (
      After-ensure _ _ _ _ λ running.
        After-skip {f = holding a} _ _ _ (search reads depth 10) λ u1 s1 e1.
          After-skip {f = holding a} _ _ _ (search reads depth 10) λ u2 s2 e2. After-gets _ _ _ (
            After-ensure _ _ _ _ λ levered.
              After-skip {f = holding a} _ _ _ (search reads depth 10) λ spot_price s3 e3.
                After-skip {f = holding a} _ _ _ (ensure_trade_size-holding a env _ _ _) λ u4 s4 e4.
                  After->>= _ _ _ (
                    After-map (execute_trade-After a env _ s4) λ y s5 p.
                      After-skip {f = holding a} _ _ _ (search reads depth 10) λ collateral s6 e6.
                        After-skip _ _ _ (ensure_margin-holding a env _ _ _ _) λ u7 s7 e7.
                          After-skip {f = holding a} _ _ _ (search reads depth 10) λ u8 s8 e8.
                            After-skip {f = holding a} _ _ _ (search reads depth 10) λ u9 s9 e9.
                              After-pure _ _ (
                                let same : holding a s4 ≡ holding a s = e4 ∙ e3 ∙ e2 ∙ e1 in
                                (
                                  e9
                                      ∙ e8
                                      ∙ e7
                                      ∙ e6
                                      ∙ p.0
                                      ∙ ap (λ h. pooled order y (booked_at order y a h)) same,
                                  λ d. ap (λ (h : Holding). ltb y h.pool) (sym same) ∙ p.1 d,
                                )))))

  -- When the amounts have room in the words and the other account is not the trader, a trade that
  -- returns has moved asset between the pool and the trader and nowhere else: a long trade moves its
  -- return from the pool to his balance, a short one its size from his balance less his debt to the
  -- pool. The asset of every other account is as before.
  pub trade_moves_asset :
      (other : Address) (s : State)
      → (other == user) ≡ false
      → HasRoom size (holding user s)
      → After env trade_run s (λ y r.
        Traded direction size y (holding user s) (holding user r)
        × Kept (holding other s) (holding other r))
  trade_moves_asset other s n room = record {
    after = λ y r e.
        let (mine, small) = (trade_impl-After user s).after y r e in
        let (theirs, _) = (trade_impl-After other s).after y r e in
        (traded order y _ _ room mine small, kept order y other _ _ n theirs);
  }
