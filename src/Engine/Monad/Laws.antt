-- ===== src/Engine/Monad/Laws.antt =====
-- Inversion of the chains of perp-engine's methods.
use denaria_perp_arbitrum.Base.{◌∙◌, Bool, true, false, ◌≡◌, refl, ap, Code, Failure}
use denaria_perp_arbitrum.Engine.State.{Engine, Env, State}
use denaria_perp_arbitrum.Engine.Monad.{Step, done, halt, M, ◌>>=◌, ensure, asks, modify, pure}

step_bind-eq :
    {A B : Type 0} (g : A → M B) (env : Env) (t : Step A) {y : B} {r : State}
    → (elim t [ done x s' ↦ g x env s' | halt e s' ↦ halt e s' ]) ≡ done y r
    → (x : A) × (s' : State) × (t ≡ done x s') × (g x env s' ≡ done y r)
step_bind-eq g env (done x s') h = (x, s', refl, h)
step_bind-eq g env (halt e s') h = cc

-- A chain that returns: its first part returned, and so did the rest.
pub >>=-eq-done :
    {A B : Type 0} (m : M A) (g : A → M B) (env : Env) (s : State) {y : B} {r : State}
    → (m >>= g) env s ≡ done y r
    → (x : A) × (s' : State) × (m env s ≡ done x s') × (g x env s' ≡ done y r)
unfolding ◌>>=◌
>>=-eq-done m g env s h = step_bind-eq g env (m env s) h

-- A chain whose first part stops, and one whose first part returns.
pub >>=-halt :
    {A B : Type 0} (m : M A) (g : A → M B) (env : Env) (s : State) {e : Failure} {r : State}
    → m env s ≡ halt e r
    → (m >>= g) env s ≡ halt e r
unfolding ◌>>=◌
>>=-halt m g env s h = ap (λ t. elim t [ done x s' ↦ g x env s' | halt e s' ↦ halt e s' ]) h

pub >>=-done :
    {A B : Type 0} (m : M A) (g : A → M B) (env : Env) (s : State) {x : A} {r : State}
    → m env s ≡ done x r
    → (m >>= g) env s ≡ g x env r
unfolding ◌>>=◌
>>=-done m g env s h = ap (λ t. elim t [ done x s' ↦ g x env s' | halt e s' ↦ halt e s' ]) h

-- A test that was passed.
pub ensure-eq-done :
    (b : Bool) (why : Code) (env : Env) (s : State) {y : Unit {0}} {r : State}
    → ensure b why env s ≡ done y r
    → (b ≡ true) × (s ≡ r)
ensure-eq-done true why env s h = (refl, cc)
ensure-eq-done false why env s h = cc

-- Every run that returns ends in a state with the property.
pub record Ends {A : Type 0} (env : Env) (P : State → Type 0) (m : M A) : Type 0 where
  pub ends : (s : State) (y : A) (r : State) → m env s ≡ done y r → P r

pub Ends->>= :
    {A B : Type 0} {env : Env} {P : State → Type 0} (m : M A) (g : A → M B)
    → ((x : A) → Ends env P (g x))
    → Ends env P (m >>= g)
Ends->>= {env} m g h = record {
  ends = λ s y r e. let (x, s', first, rest) = >>=-eq-done m g env s e in (h x).ends s' y r rest;
}

pub Ends-asks :
    {A B : Type 0} {env : Env} {P : State → Type 0} (f : Env → A) (g : A → M B)
    → Ends env P (g (f env))
    → Ends env P (asks f >>= g)
unfolding ◌>>=◌
Ends-asks f g h = record { ends = h.ends }

pub done-state :
    {A : Type 0} {x y : A} {s r : State} → ◌≡◌ {A = Step A} (done x s) (done y r) → s ≡ r
done-state {s} h = ap (λ t. elim t [ done _ q ↦ q | halt _ q ↦ s ]) h

pub Ends-modify :
    {env : Env} {P : State → Type 0} (g : Engine → Engine)
    → ((s : State) → P (record s { engine = g s.engine }))
    → Ends env P (modify g)
Ends-modify {env} {P} g h = record { ends = λ s y r e. rw (← done-state e) (h s) }

-- A value that is returned after the last write.
pub Ends-pure :
    {A B : Type 0} {env : Env} {P : State → Type 0} (m : M A) (f : A → B)
    → Ends env P m
    → Ends env P (m >>= λ x. pure (f x))
Ends-pure {env} {P} m f h = record {
  ends = λ s y r e.
      let (x, s', first, rest) = >>=-eq-done m (λ x. pure (f x)) env s e in
      rw (← done-state rest) (h.ends s x s' first);
}

-- A run that returns, and what holds of the value and the state then.
unfoldable pub Returns : {A : Type 0} → Step A → (A → State → Type 0) → Type 0
Returns (done x s) P = P x s
Returns (halt e s) P = ⊥

-- A run that stops, with its failure and its state.
unfoldable pub Stops : {A : Type 0} → Step A → Failure → State → Type 0
Stops (done x r) e s = ⊥
Stops (halt f r) e s = (f ≡ e) × (r ≡ s)

pub Stops-halt : {A : Type 0} (t : Step A) (e : Failure) (s : State) → Stops t e s → t ≡ halt e s
unfolding Stops
Stops-halt (done x r) e s h = absurd h
Stops-halt (halt f r) e s (p, q) = ap (λ x. halt x r) p ∙ ap (halt e) q

pub Returns-map :
    {A : Type 0} {P Q : A → State → Type 0} (t : Step A)
    → Returns t P
    → ((x : A) (r : State) → P x r → Q x r)
    → Returns t Q
unfolding Returns
Returns-map (done x r) h f = f x r h
Returns-map (halt e r) h f = absurd h
