-- ===== src/Engine/Monad/After.antt =====
-- What holds when a run of a method of perp-engine returns. A run that stops is undone.
use denaria_perp_arbitrum.Base.{Bool, true, false, ◌≡◌, refl, ap, sym, ◌∙◌, Code, if◌then◌else◌}
use denaria_perp_arbitrum.Engine.State.{Engine, Env, State}
use denaria_perp_arbitrum.Engine.Monad.{
  Step, done, halt, M, ◌>>=◌, gets, asks, ensure, modify, pure,
}
use denaria_perp_arbitrum.Engine.Monad.Frames.{Framed, left}
use denaria_perp_arbitrum.Engine.Monad.Laws.{>>=-eq-done, done-state}

-- If `m` returns from `s`, its value and its state have the property.
pub record After {A : Type 0} (env : Env) (m : M A) (s : State) (P : A → State → Type 0)
    : Type 0 where
  pub after : (y : A) (r : State) → m env s ≡ done y r → P y r

-- A method that keeps a view.
pub After-Framed :
    {A X : Type 0} {P : A → State → Type 0} {env : Env} {f : State → X} (m : M A) (s : State)
    → Framed env f m
    → ((x : A) (r : State) → f r ≡ f s → P x r)
    → After env m s P
After-Framed {f} m s k h = record {
  after = λ y r e. h y r (sym (ap (λ t. f (left t)) e) ∙ k.keeps s);
}

pub After-map :
    {A : Type 0} {P Q : A → State → Type 0} {env : Env} {m : M A} {s : State}
    → After env m s P
    → ((x : A) (r : State) → P x r → Q x r)
    → After env m s Q
After-map h f = record { after = λ y r e. f y r (h.after y r e) }

module _ {A B : Type 0} {P : B → State → Type 0} {env : Env} where
  pub After->>= :
      (m : M A) (g : A → M B) (s : State)
      → After env m s (λ x r. After env (g x) r P)
      → After env (m >>= g) s P
  After->>= m g s h = record {
    after = λ y r e.
        let (x, s', first, rest) = >>=-eq-done m g env s e in (h.after x s' first).after y r rest;
  }

  -- A part that keeps a view, and the rest from any state with that view.
  pub After-skip :
      {X : Type 0} {f : State → X} (m : M A) (g : A → M B) (s : State)
      → Framed env f m
      → ((x : A) (r : State) → f r ≡ f s → After env (g x) r P)
      → After env (m >>= g) s P
  After-skip m g s k h = After->>= m g s (After-Framed m s k h)

  pub After-gets :
      (h : Engine → A) (g : A → M B) (s : State)
      → After env (g (h s.engine)) s P
      → After env (gets h >>= g) s P
  unfolding ◌>>=◌
  After-gets h g s k = record { after = k.after }

  pub After-asks :
      (h : Env → A) (g : A → M B) (s : State)
      → After env (g (h env)) s P
      → After env (asks h >>= g) s P
  unfolding ◌>>=◌
  After-asks h g s k = record { after = k.after }

module _ {B : Type 0} {P : B → State → Type 0} {env : Env} where
  pub After-ensure :
      (b : Bool) (why : Code) (g : Unit {0} → M B) (s : State)
      → (b ≡ true → After env (g tt) s P)
      → After env (ensure b why >>= g) s P
  unfolding ◌>>=◌
  After-ensure true why g s h = record { after = (h refl).after }
  After-ensure false why g s h = record { after = λ y r e. cc }

  pub After-if :
      (b : Bool) (m k : M B) (s : State)
      → (b ≡ true → After env m s P)
      → (b ≡ false → After env k s P)
      → After env (if b then m else k) s P
  After-if true m k s h g = h refl
  After-if false m k s h g = g refl

pub After-modify :
    {P : Unit {0} → State → Type 0} {env : Env} (f : Engine → Engine) (s : State)
    → P tt (record s { engine = f s.engine })
    → After env (modify f) s P
After-modify {P} f s h = record { after = λ y r e. rw (← done-state e) h }

done_value : {A : Type 0} {x y : A} {s r : State} → ◌≡◌ {A = Step A} (done x s) (done y r) → x ≡ y
done_value {x} h = ap (λ t. elim t [ done v _ ↦ v | halt _ _ ↦ x ]) h

pub After-pure :
    {A : Type 0} {P : A → State → Type 0} {env : Env} (x : A) (s : State)
    → P x s
    → After env (pure x) s P
After-pure {P} x s h = record { after = λ y r e. rw (← done_value e, ← done-state e) h }
