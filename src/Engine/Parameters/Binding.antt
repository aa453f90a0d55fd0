-- ===== src/Engine/Parameters/Binding.antt =====
-- The time lock of perp-engine/src/lib.rs: which change can be made after a preparation.
use denaria_perp_arbitrum.Base.{
  ℕ, ◌≡◌, refl, sym, ap, ◌∙◌, Bool, true, false, ◌≤◌, ◌*◌, List, [], ◌∷◌, Code, arith,
}
use mathlib.Core.Path.{subst}
use denaria_perp_arbitrum.Engine.State.{State, Env, Engine, Event, emitted}
use denaria_perp_arbitrum.Engine.Monad.{M, done, ◌>>=◌, ensure, modify, pure, emit}
use denaria_perp_arbitrum.Engine.Monad.After.{
  After, After-asks, After-gets, After-ensure, After-modify, After-map,
}
use denaria_perp_arbitrum.Engine.Monad.Laws.{done-state}
use denaria_perp_arbitrum.Engine.Access.{has_role, only_mod, only_role}
use denaria_perp_arbitrum.Engine.Parameters.{
  Guarded, narrow, multiply, time_locked_param_hash, unlock_time, prepare_time_locked_parameters,
  set_time_locked_parameters,
}
use denaria_perp_arbitrum.Engine.Parameters.TimeLock.{IsWritten}
use denaria_perp_arbitrum.Engine.Contract.Outsiders.{IsLedBy, outsiders_keep_administration}
use denaria_perp_arbitrum.Engine.Contract.Breaker.{IsModerator}

module _ {B : Type 0} {P : B → State → Type 0} {env : Env} where
  -- A test in front of a value.
  After-tested :
      {A : Type 0} (b : Bool) (why : Code) (x : A) (g : A → M B) (s : State)
      → After env (g x) s P
      → After env ((ensure b why >>= λ _. pure x) >>= g) s P
  unfolding ◌>>=◌
  After-tested true why x g s h = record { after = h.after }
  After-tested false why x g s h = record { after = λ y r e. cc }

  After-narrow :
      (bits x : ℕ) (g : ℕ → M B) (s : State)
      → After env (g x) s P
      → After env (narrow bits x >>= g) s P
  unfolding narrow
  After-narrow bits x g s h = After-tested _ _ x g s h

  After-multiply :
      (a b : ℕ) (g : ℕ → M B) (s : State)
      → After env (g (a * b)) s P
      → After env (multiply a b >>= g) s P
  unfolding multiply
  After-multiply a b g s h = After-tested _ _ (a * b) g s h

  After-written :
      (f : Engine → Engine) (g : Unit {0} → M B) (s : State)
      → After env (g tt) (record s { engine = f s.engine }) P
      → After env (modify f >>= g) s P
  unfolding ◌>>=◌
  After-written f g s h = record { after = h.after }

  After-only_mod :
      (g : Unit {0} → M B) (s : State)
      → (IsModerator env s.engine → After env (g tt) s P)
      → After env (only_mod >>= g) s P
  unfolding only_mod only_role ◌>>=◌
  After-only_mod g s h = record { after = (After-ensure _ _ g s h).after }

After-emit :
    {P : Unit {0} → State → Type 0} {env : Env} (v : Event) (s : State)
    → P tt (record s { trace = emitted v ∷ s.trace })
    → After env (emit v) s P
After-emit {P} v s h = record { after = λ y r e. rw (← done-state e) h }

-- What a returning preparation leaves: the lock, the hash of the change, and the rest of what
-- administration reads.
record Prepared (g : Guarded) (env : Env) (e : Engine) (r : State) : Type 0 where
  until : r.engine.config.param_locked_until ≡ unlock_time env e
  hash : r.engine.config.param_hash ≡ time_locked_param_hash env.keccak256 g
  initialized : r.engine.config.initialized ≡ e.config.initialized

prepare-Prepared :
    (g : Guarded) (env : Env) (s : State)
    → After env (prepare_time_locked_parameters g) s (λ _ r. Prepared g env s.engine r)
unfolding prepare_time_locked_parameters
prepare-Prepared g env s = After-only_mod _ _ λ held. After-gets _ _ _ (
    After-ensure _ _ _ _ λ first. After-multiply _ _ _ _ (
      After-multiply _ _ _ _ (
        After-ensure _ _ _ _ λ second. After-asks _ _ _ (
          After-asks _ _ _ (
            After-written _ _ _
              (After-emit _ _ (record { until = refl; hash = refl; initialized = refl })))))))

-- What a change that is made has passed, and what it has written.
record Made (g : Guarded) (env : Env) (e : Engine) (q : State) : Type 0 where
  moderated : IsModerator env e
  unlocked : e.config.param_locked_until ≤ env.block_timestamp
  hashed : time_locked_param_hash env.keccak256 g ≡ e.config.param_hash
  written : IsWritten g q.engine

set-Made :
    (g : Guarded) (env : Env) (s : State)
    → After env (set_time_locked_parameters g) s (λ _ q. Made g env s.engine q)
unfolding set_time_locked_parameters
set-Made g env s = After-only_mod _ _ λ held. After-asks _ _ _ (
    After-asks _ _ _ (
      After-gets _ _ _ (
        After-ensure _ _ _ _ λ test. After-narrow _ _ _ _ (
          After-written _ _ _ (
            After-narrow _ _ _ _ (
              After-written _ _ _ (
                After-narrow _ _ _ _ (
                  After-written _ _ _ (
                    After-narrow _ _ _ _ (
                      After-written _ _ _ (
                        After-modify _ _ (record {
                          moderated = held;
                          unlocked = ground arith;
                          hashed = ground arith;
                          written = (refl, refl, refl, refl, refl, refl, refl, refl, refl, refl);
                        }))))))))))))

-- The two parts of the encoding that the hash function is applied to.
abbrev inner : Guarded → List ℕ
inner g = g.mmr ∷ g.trading_fee ∷ g.flat_trading_fee ∷ g.fee_lp ∷ []

abbrev outer : (List ℕ → ℕ) → Guarded → List ℕ
outer k g =
    k (inner g)
    ∷ g.liquidity_min_fee
    ∷ g.liquidity_max_fee
    ∷ g.liquidity_fee_k
    ∷ g.funding_c
    ∷ g.param_time_lock
    ∷ g.minimum_trade_size
    ∷ []

-- The hash function has no collision between the encodings of the two changes.
abbrev pub NoCollision : (List ℕ → ℕ) → Guarded → Guarded → Type 0
NoCollision k a b =
    (k (inner a) ≡ k (inner b) → inner a ≡ inner b)
    × (k (outer k a) ≡ k (outer k b) → outer k a ≡ outer k b)

same_change :
    (k : List ℕ → ℕ) (a b : Guarded)
    → NoCollision k a b
    → time_locked_param_hash k a ≡ time_locked_param_hash k b
    → a ≡ b
unfolding time_locked_param_hash
same_change k a b (first, second) h =
    let rest : outer k a ≡ outer k b = second h in
    let fees : inner a ≡ inner b = first (cc) in ground arith

-- After a preparation that returned and any sequence of transactions by accounts without a role, no
-- other change than the prepared one can be made, unless the hash function has a collision between the
-- two: a call that makes a change and returns comes from a moderator, not before the lock has run
-- out, and the parameters are then those of the prepared change.
pub prepared_change_binds :
    (g other : Guarded) (env later : Env) (s r : State) (e : Engine)
    → s.engine.config.initialized ≡ true
    → prepare_time_locked_parameters g env s ≡ done tt r
    → IsLedBy r.engine e
    → later.keccak256 ≡ env.keccak256
    → NoCollision env.keccak256 other g
    → After later
        (set_time_locked_parameters other)
        (record { engine = e; trace = [] })
        (λ _ q.
          IsModerator later r.engine
          × (unlock_time env s.engine ≤ later.block_timestamp)
          × IsWritten g q.engine)
unfolding has_role
prepared_change_binds g other env later s r e i returned led hash apart =
    let p = (prepare-Prepared g env s).after tt r returned in
    let same = outsiders_keep_administration r.engine e (p.initialized ∙ i) led in
    let locked : e.config.param_locked_until ≡ unlock_time env s.engine =
      ap (λ a. a.config.param_locked_until) same ∙ p.until in
    let held : e.config.param_hash ≡ time_locked_param_hash env.keccak256 g =
      ap (λ a. a.config.param_hash) same ∙ p.hash in
    After-map (set-Made other later (record { engine = e; trace = [] })) λ x q m.
      let made : time_locked_param_hash env.keccak256 other
          ≡ time_locked_param_hash env.keccak256 g =
        ap (λ k. time_locked_param_hash k other) (sym hash) ∙ m.hashed ∙ held in
      (
        ap (λ a. a.role_members a.config.mod_role later.msg_sender) (sym same) ∙ m.moderated,
        rw (← locked) m.unlocked,
        subst (λ c. IsWritten c q.engine) (same_change env.keccak256 other g apart made) m.written,
      )
