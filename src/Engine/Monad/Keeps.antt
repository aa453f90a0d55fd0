-- ===== src/Engine/Monad/Keeps.antt =====
-- A view of the state that a method of perp-engine keeps, whoever sends the transaction. A method
-- that asks for its sender keeps a view, but is not framed.
use denaria_perp_arbitrum.Base.{
  ◌∷◌, Bool, true, false, ◌≡◌, refl, ap, sym, ◌∙◌, Code, if◌then◌else◌,
}
use denaria_perp_arbitrum.Engine.State.{Engine, Env, State, Event, Effect, emitted}
use denaria_perp_arbitrum.Engine.Monad.{
  Step, done, halt, M, ◌>>=◌, pure, asks, gets, modify, ensure, when, emit,
}
use denaria_perp_arbitrum.Engine.Monad.Frames.{Framed, left, left-ensure}
use denaria_perp_arbitrum.Engine.Monad.Laws.{Ends, >>=-eq-done}

-- Every run of `m` leaves the view `f` as it was.
pub record Keeps {A X : Type 0} (env : Env) (f : State → X) (m : M A) : Type 0 where
  pub keeps : (s : State) → f (left (m env s)) ≡ f s

module _ {X : Type 0} {env : Env} {f : State → X} where
  bind_left :
      {A B : Type 0} (g : A → M B) (s : State) (t : Step A)
      → f (left t) ≡ f s
      → ((x : A) → Keeps env f (g x))
      → f (left (elim t as (λ _. Step B) [ done x s' ↦ g x env s' | halt e s' ↦ halt e s' ])) ≡ f s
  bind_left g s (done x s') h k = (k x).keeps s' ∙ h
  bind_left g s (halt e s') h k = h

  pub Keeps->>= :
      {A B : Type 0} (m : M A) (g : A → M B)
      → Keeps env f m
      → ((x : A) → Keeps env f (g x))
      → Keeps env f (m >>= g)
  unfolding ◌>>=◌
  Keeps->>= m g h k = record { keeps = λ s. bind_left g s (m env s) (h.keeps s) k }

  pub Keeps-pure : {A : Type 0} (x : A) → Keeps env f (pure x)
  Keeps-pure x = record { keeps = λ s. refl }

  pub Keeps-asks : {A : Type 0} (g : Env → A) → Keeps env f (asks g)
  Keeps-asks g = record { keeps = λ s. refl }

  pub Keeps-gets : {A : Type 0} (g : Engine → A) → Keeps env f (gets g)
  Keeps-gets g = record { keeps = λ s. refl }

  pub Keeps-ensure : (b : Bool) (why : Code) → Keeps env f (ensure b why)
  Keeps-ensure b why = record { keeps = λ s. ap f (left-ensure b why env s) }

  pub Keeps-if :
      {A : Type 0} (b : Bool) (m k : M A)
      → Keeps env f m
      → Keeps env f k
      → Keeps env f (if b then m else k)
  Keeps-if true m k h g = h
  Keeps-if false m k h g = g

  when-left :
      (s : State) (b : Bool) (m : M (Unit {0})) → Keeps env f m → f (left (when b m env s)) ≡ f s
  when-left s true m h = h.keeps s
  when-left s false m h = refl

  pub Keeps-when : (b : Bool) (m : M (Unit {0})) → Keeps env f m → Keeps env f (when b m)
  Keeps-when b m h = record { keeps = λ s. when-left s b m h }

  pub Keeps-modify :
      (g : Engine → Engine)
      → ((s : State) → f (record s { engine = g s.engine }) ≡ f s)
      → Keeps env f (modify g)
  Keeps-modify g h = record { keeps = h }

  -- The trace grows by an event or by a call.
  pub Keeps-emit :
      (v : Event)
      → ((s : State) (c : Effect) → f (record s { trace = c ∷ s.trace }) ≡ f s)
      → Keeps env f (emit v)
  Keeps-emit v h = record { keeps = λ s. h s (emitted v) }

  pub Framed-Keeps : {A : Type 0} (m : M A) → Framed env f m → Keeps env f m
  Framed-Keeps m h = record { keeps = h.keeps }

-- What the first part sets up and the rest keeps.
pub Ends-Keeps :
    {A B X : Type 0} {env : Env} {P : State → Type 0} (f : State → X) (m : M A) (g : A → M B)
    → ((s r : State) → f r ≡ f s → P s → P r)
    → Ends env P m
    → ((x : A) → Keeps env f (g x))
    → Ends env P (m >>= g)
Ends-Keeps {env} {P} f m g same h k = record {
  ends = λ s y r e.
      let (x, s', first, rest) = >>=-eq-done m g env s e in
      same s' r (ap (λ t. f (left t)) (sym rest) ∙ (k x).keeps s') (h.ends s x s' first);
}
