-- ===== src/Engine/Monad/Frames.antt =====
-- What a method of perp-engine leaves alone: a view of the state that it keeps, whether it returns or
-- stops, and the sender of the transaction, which it does not look at.
use denaria_perp_arbitrum.Base.{
  ◌∷◌, ℕ, Bool, true, false, ◌≡◌, refl, ap, ◌∙◌, Code, Outcome, ok, fail, if◌then◌else◌,
}
use denaria_perp_arbitrum.Engine.State.{Engine, Env, State, Event, Effect, emitted, Address}
use denaria_perp_arbitrum.Engine.Monad.{
  Step, done, halt, M, ◌>>=◌, pure, from, call, view, asks, gets, modify, ensure, when, emit,
  external, verify_report, read_price, read_collateral, enter,
}

-- The state that a run leaves.
abbrev pub left : {A : Type 0} → Step A → State
left (done x s) = s
left (halt e s) = s

-- The environment of the same transaction, sent by another account.
abbrev pub sent_by : Address → Env → Env
sent_by sender env = record env { msg_sender = sender }

-- Every run of `m` leaves the view `f` as it was, and is the same for every sender.
pub record Framed {A X : Type 0} (env : Env) (f : State → X) (m : M A) : Type 0 where
  pub keeps : (s : State) → f (left (m env s)) ≡ f s
  pub blind : (sender : Address) (s : State) → m (sent_by sender env) s ≡ m env s

from_left : {A : Type 0} (s : State) (o : Outcome A) → left (from s o) ≡ s
from_left s (ok x) = refl
from_left s (fail e) = refl

pub left-ensure : (b : Bool) (why : Code) (env : Env) (s : State) → left (ensure b why env s) ≡ s
left-ensure true why env s = refl
left-ensure false why env s = refl

abbrev then_run : {A B : Type 0} → Env → (A → M B) → Step A → Step B
then_run env g t = elim t [ done x s' ↦ g x env s' | halt e s' ↦ halt e s' ]

module _ {X : Type 0} {env : Env} {f : State → X} where
  bind_left :
      {A B : Type 0} (g : A → M B) (s : State) (t : Step A)
      → f (left t) ≡ f s
      → ((x : A) → Framed env f (g x))
      → f (left (then_run env g t)) ≡ f s
  bind_left g s (done x s') h k = (k x).keeps s' ∙ h
  bind_left g s (halt e s') h k = h

  bind_blind :
      {A B : Type 0} (g : A → M B) (sender : Address) (t : Step A)
      → ((x : A) → Framed env f (g x))
      → then_run (sent_by sender env) g t ≡ then_run env g t
  bind_blind g sender (done x s') k = (k x).blind sender s'
  bind_blind g sender (halt e s') k = refl

  pub Framed->>= :
      {A B : Type 0} (m : M A) (g : A → M B)
      → Framed env f m
      → ((x : A) → Framed env f (g x))
      → Framed env f (m >>= g)
  unfolding ◌>>=◌
  Framed->>= m g h k = record {
    keeps = λ s. bind_left g s (m env s) (h.keeps s) k;
    blind = λ sender s.
        ap (then_run (sent_by sender env) g) (h.blind sender s) ∙ bind_blind g sender (m env s) k;
  }

  pub Framed-pure : {A : Type 0} (x : A) → Framed env f (pure x)
  Framed-pure x = record { keeps = λ s. refl; blind = λ sender s. refl }

  pub Framed-call : {A : Type 0} (o : Outcome A) → Framed env f (call o)
  Framed-call o = record { keeps = λ s. ap f (from_left s o); blind = λ sender s. refl }

  pub Framed-view :
      {A : Type 0} (g : Env → State → Outcome A)
      → ((sender : Address) (s : State) → g (sent_by sender env) s ≡ g env s)
      → Framed env f (view g)
  Framed-view g h = record {
    keeps = λ s. ap f (from_left s (g env s));
    blind = λ sender s. ap (from s) (h sender s);
  }

  pub Framed-asks :
      {A : Type 0} (g : Env → A)
      → ((sender : Address) → g (sent_by sender env) ≡ g env)
      → Framed env f (asks g)
  Framed-asks g h = record { keeps = λ s. refl; blind = λ sender s. ap (λ x. done x s) (h sender) }

  pub Framed-gets : {A : Type 0} (g : Engine → A) → Framed env f (gets g)
  Framed-gets g = record { keeps = λ s. refl; blind = λ sender s. refl }

  pub Framed-ensure : (b : Bool) (why : Code) → Framed env f (ensure b why)
  Framed-ensure b why = record {
    keeps = λ s. ap f (left-ensure b why env s);
    blind = λ sender s. refl;
  }

  pub Framed-if :
      {A : Type 0} (b : Bool) (m k : M A)
      → Framed env f m
      → Framed env f k
      → Framed env f (if b then m else k)
  Framed-if true m k h g = h
  Framed-if false m k h g = g

  when-true : (m : M (Unit {0})) → Framed env f m → Framed env f (when true m)
  when-true m h = record { keeps = h.keeps; blind = h.blind }

  pub Framed-when : (b : Bool) (m : M (Unit {0})) → Framed env f m → Framed env f (when b m)
  Framed-when true m h = when-true m h
  Framed-when false m h = record { keeps = λ s. refl; blind = λ sender s. refl }

  pub Framed-modify :
      (g : Engine → Engine)
      → ((s : State) → f (record s { engine = g s.engine }) ≡ f s)
      → Framed env f (modify g)
  Framed-modify g h = record { keeps = h; blind = λ sender s. refl }

  -- The trace grows by an event or by a call.
  pub Framed-emit :
      (v : Event)
      → ((s : State) (c : Effect) → f (record s { trace = c ∷ s.trace }) ≡ f s)
      → Framed env f (emit v)
  Framed-emit v h = record { keeps = λ s. h s (emitted v); blind = λ sender s. refl }

  pub Framed-external :
      (c : Effect)
      → ((s : State) (c : Effect) → f (record s { trace = c ∷ s.trace }) ≡ f s)
      → Framed env f (external c)
  Framed-external c h = record {
    keeps = λ s. ap f (from_left (record s { trace = c ∷ s.trace }) (env.answer s.trace c)) ∙ h s c;
    blind = λ sender s. refl;
  }

  pub Framed-verify_report :
      (report : ℕ)
      → ((s : State) (c : Effect) → f (record s { trace = c ∷ s.trace }) ≡ f s)
      → Framed env f (verify_report report)
  unfolding verify_report
  Framed-verify_report report h = record {
    keeps = λ s.
        let call = Effect.verify_report_if_necessary s.engine.config.oracle report in
        (Framed-external call h).keeps s;
    blind = λ sender s. refl;
  }

  pub Framed-read_price : Framed env f read_price
  unfolding read_price
  Framed-read_price = Framed->>= _ _ (Framed-view _ λ sender s. refl) λ z. Framed-call _

  pub Framed-read_collateral : (user : Address) → Framed env f (read_collateral user)
  unfolding read_collateral
  Framed-read_collateral user = Framed-view _ λ sender s. refl

  -- The prologue of the public methods, for a view without the guard.
  pub Framed-enter :
      ((s : State) (b : Bool) → f (record s { engine = record (s.engine) { entered = b } }) ≡ f s)
      → Framed env f enter
  unfolding enter
  Framed-enter h = Framed->>= _ _ (Framed-gets _) λ b.
      Framed-if b _ _ (record { keeps = λ s. refl; blind = λ sender s. refl })
        (record { keeps = λ s. h s true; blind = λ sender s. refl })
