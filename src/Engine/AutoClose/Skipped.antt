-- ===== src/Engine/AutoClose/Skipped.antt =====
-- The batch of perp-engine/src/auto_close.rs: the users that it skips.
use denaria_perp_arbitrum.Base.{
  ℕ, ◌≡◌, refl, ap, sym, ◌∙◌, List, [], ◌∷◌, Code, reverts, if◌then◌else◌,
}
use denaria_perp_arbitrum.Engine.State.{Address, Env, State}
use denaria_perp_arbitrum.Engine.Monad.{done, halt, M}
use denaria_perp_arbitrum.Engine.Monad.Frames.{Framed, left}
use denaria_perp_arbitrum.Engine.Monad.Laws.{>>=-halt, >>=-done}
use denaria_perp_arbitrum.Engine.Admin.{reads}
use denaria_perp_arbitrum.Engine.AutoClose.{
  ensure_eligible, auto_close_with_price, skip_ineligible, auto_close_each, is_ineligible,
}

-- The tests read the state and leave it as it was.
ensure_eligible-Framed :
    (env : Env) (user : Address) (price : ℕ) → Framed env (λ s. s) (ensure_eligible user price)
unfolding ensure_eligible
ensure_eligible-Framed env user price = search reads depth 20

-- The tests refuse the user with A1.
abbrev pub IsIneligible : Env → State → ℕ → Address → Type 0
IsIneligible env s price user =
    (r : State) × (ensure_eligible user price env s ≡ halt (reverts Code.a1) r)

unfoldable pub AllIneligible : Env → State → ℕ → List (Address × Address) → Type 0
AllIneligible env s price [] = Unit {0}
AllIneligible env s price ((user, frontend) ∷ rest) =
    IsIneligible env s price user × AllIneligible env s price rest

-- `Err(e) if e == ineligible`
skipped :
    (m : M (Unit {0})) (env : Env) (s r : State)
    → m env s ≡ halt (reverts Code.a1) r
    → skip_ineligible m env s ≡ done tt r
unfolding skip_ineligible
skipped m env s r h =
    ap
      (λ t. elim t [
        | done _ s' ↦ done tt s'
        | halt e s' ↦ if is_ineligible e then done tt s' else halt e s'
      ])
      h

one_skipped :
    (caller user frontend : Address) (price : ℕ) (env : Env) (s : State)
    → IsIneligible env s price user
    → skip_ineligible (auto_close_with_price caller user frontend price) env s ≡ done tt s
unfolding auto_close_with_price
one_skipped caller user frontend price env s (r, h) =
    let same : r ≡ s = sym (ap left h) ∙ (ensure_eligible-Framed env user price).keeps s in
    skipped _ env s r (>>=-halt (ensure_eligible user price) _ env s h) ∙ ap (done tt) same

-- A batch of users that the tests refuse with A1 returns and changes nothing.
pub auto_close_each_skips :
    (caller : Address) (l : List (Address × Address)) (price : ℕ) (env : Env) (s : State)
    → AllIneligible env s price l
    → auto_close_each caller l price env s ≡ done tt s
unfolding auto_close_each AllIneligible
auto_close_each_skips caller [] price env s h = refl
auto_close_each_skips caller ((user, frontend) ∷ rest) price env s (h, hs) =
    >>=-done _ (λ u. auto_close_each caller rest price) env s
      (one_skipped caller user frontend price env s h)
    ∙ auto_close_each_skips caller rest price env s hs
