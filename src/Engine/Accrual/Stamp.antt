-- ===== src/Engine/Accrual/Stamp.antt =====
-- `update_fg` of perp-engine/src/funding.rs: one accrual a block.
use denaria_perp_arbitrum.Base.{ℕ, ◌≡◌, refl, Bool, true, false, arith, ◌==◌, ==→eq, if◌then◌else◌}
use denaria_perp_arbitrum.Engine.State.{State, Env}
use denaria_perp_arbitrum.Engine.Monad.{done, ◌>>=◌, pure}
use denaria_perp_arbitrum.Engine.Monad.Laws.{Ends, Ends->>=, Ends-asks, Ends-modify, done-state}
use denaria_perp_arbitrum.Engine.Accrual.{update_fg, accrue_funding}

-- The state was brought up to date in this block.
abbrev pub IsFresh : Env → State → Type 0
IsFresh env s = s.engine.market.last_operation_timestamp ≡ env.block_timestamp

accrue_funding-IsFresh :
    (price timestamp : ℕ) (env : Env) → Ends env (IsFresh env) (accrue_funding price timestamp)
unfolding accrue_funding
accrue_funding-IsFresh price timestamp env = Ends->>= _ _ λ e. Ends-asks _ _ (
    Ends->>= _ _ λ rate.
      Ends->>= _ _
        λ total. Ends->>= _ _ λ u. Ends->>= _ _ λ b. Ends->>= _ _ λ v. Ends-modify _ λ s. refl)

branch :
    (price timestamp : ℕ) (env : Env) (s r : State) (b : Bool)
    → (s.engine.market.last_operation_timestamp == env.block_timestamp) ≡ b
    → (if b then pure tt else accrue_funding price timestamp) env s ≡ done tt r
    → IsFresh env r
branch price timestamp env s r true e h =
    rw (← done-state h) (==→eq s.engine.market.last_operation_timestamp env.block_timestamp e)
branch price timestamp env s r false e h =
    (accrue_funding-IsFresh price timestamp env).ends s tt r h

pub update_fg-IsFresh :
    (price timestamp : ℕ) (env : Env) (s r : State)
    → update_fg price timestamp env s ≡ done tt r
    → IsFresh env r
unfolding update_fg ◌>>=◌
update_fg-IsFresh price timestamp env s r h =
    branch price timestamp env s r (s.engine.market.last_operation_timestamp == env.block_timestamp)
      refl h

-- `update_fg` accrues once a block: it leaves the block's timestamp in the storage, and a second
-- call in the same block, at any price, returns and changes nothing.
pub update_fg_once :
    (price timestamp : ℕ) (env : Env) (s r : State)
    → update_fg price timestamp env s ≡ done tt r
    → (price' timestamp' : ℕ)
    → (r.engine.market.last_operation_timestamp ≡ env.block_timestamp)
      × (update_fg price' timestamp' env r ≡ done tt r)
unfolding update_fg ◌>>=◌
update_fg_once price timestamp env s r h price' timestamp' =
    let fresh : IsFresh env r = update_fg-IsFresh price timestamp env s r h in
    let same : (r.engine.market.last_operation_timestamp == env.block_timestamp) ≡ true =
      ground arith in
    (fresh, rw same refl)
