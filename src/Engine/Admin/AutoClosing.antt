-- ===== src/Engine/Admin/AutoClosing.antt =====
-- What the methods of perp-engine/src/auto_close.rs and the public methods of lib.rs keep of the administration.
use denaria_perp_arbitrum.Base.{
  ℕ, List, [], ◌∷◌, ◌≡◌, refl, ap, ◌∙◌, inl, inr, Bool-cases, if◌then◌else◌,
}
use denaria_perp_arbitrum.Engine.State.{Address, Env}
use denaria_perp_arbitrum.Engine.Monad.{Step, done, halt, M}
use denaria_perp_arbitrum.Engine.Monad.Frames.{left, Framed, Framed->>=, Framed-pure}
use denaria_perp_arbitrum.Engine.Admin.{admin, reads}
use denaria_perp_arbitrum.Engine.AutoClose.{is_ineligible, skip_ineligible}
use denaria_perp_arbitrum.Engine.AutoClose.{
  auto_close_each, auto_close_eligible, auto_close_user_position_impl, auto_close_with_price,
  batch_auto_close_user_position_impl, enable_auto_close_impl, ensure_eligible,
}
use denaria_perp_arbitrum.Engine.Admin.Closing.{
  add_pnl_to_collateral-Framed, clear_auto_close_data-Framed, close_and_withdraw_inner-Framed,
}

pub enable_auto_close_impl-Framed :
    (env : Env) (a0 : Address) (a1 : ℕ) (a2 : ℕ) (a3 : ℕ) (a4 : ℕ)
    → Framed env admin (enable_auto_close_impl a0 a1 a2 a3 a4)
unfolding enable_auto_close_impl
enable_auto_close_impl-Framed env a0 a1 a2 a3 a4 = search reads depth 40

pub ensure_eligible-Framed :
    (env : Env) (a0 : Address) (a1 : ℕ) → Framed env admin (ensure_eligible a0 a1)
unfolding ensure_eligible
ensure_eligible-Framed env a0 a1 = search reads depth 40

pub auto_close_eligible-Framed :
    (env : Env) (a0 : Address) (a1 : Address) (a2 : Address) (a3 : ℕ) (a4 : ℕ)
    → Framed env admin (auto_close_eligible a0 a1 a2 a3 a4)
unfolding auto_close_eligible
auto_close_eligible-Framed env a0 a1 a2 a3 a4 =
    search
      (
        reads, clear_auto_close_data-Framed, close_and_withdraw_inner-Framed,
        add_pnl_to_collateral-Framed,
      )
      depth 40

pub auto_close_with_price-Framed :
    (env : Env) (a0 : Address) (a1 : Address) (a2 : Address) (a3 : ℕ)
    → Framed env admin (auto_close_with_price a0 a1 a2 a3)
unfolding auto_close_with_price
auto_close_with_price-Framed env a0 a1 a2 a3 =
    search (reads, ensure_eligible-Framed, auto_close_eligible-Framed) depth 40

pub auto_close_user_position_impl-Framed :
    (env : Env) (a0 : Address) (a1 : Address) (a2 : Address) (a3 : ℕ)
    → Framed env admin (auto_close_user_position_impl a0 a1 a2 a3)
unfolding auto_close_user_position_impl
auto_close_user_position_impl-Framed env a0 a1 a2 a3 =
    search (reads, auto_close_with_price-Framed) depth 40

abbrev caught : Step (Unit {0}) → Step (Unit {0})
caught t = elim t [
  | done _ s' ↦ done tt s'
  | halt e s' ↦ if is_ineligible e then done tt s' else halt e s'
]

left-caught : (t : Step (Unit {0})) → left (caught t) ≡ left t
left-caught (done u s) = refl
left-caught (halt e s) = elim (Bool-cases (is_ineligible e)) [
  | inl y ↦ rw y refl
  | inr n ↦ rw n refl
]

skip_ineligible-Framed :
    (env : Env) (m : M (Unit {0})) → Framed env admin m → Framed env admin (skip_ineligible m)
unfolding skip_ineligible
skip_ineligible-Framed env m h = record {
  keeps = λ s. ap admin (left-caught (m env s)) ∙ h.keeps s;
  blind = λ sender s. ap caught (h.blind sender s);
}

auto_close_each-Framed :
    (env : Env) (caller : Address) (l : List (Address × Address)) (price : ℕ)
    → Framed env admin (auto_close_each caller l price)
unfolding auto_close_each
auto_close_each-Framed env caller [] price = Framed-pure tt
auto_close_each-Framed env caller ((user, frontend) ∷ rest) price =
    Framed->>= _ _
      (skip_ineligible-Framed env _ (auto_close_with_price-Framed env caller user frontend price))
      λ u. auto_close_each-Framed env caller rest price

pub batch_auto_close_user_position_impl-Framed :
    (env : Env) (a0 : Address) (a1 : List Address) (a2 : List Address) (a3 : ℕ)
    → Framed env admin (batch_auto_close_user_position_impl a0 a1 a2 a3)
unfolding batch_auto_close_user_position_impl
batch_auto_close_user_position_impl-Framed env a0 a1 a2 a3 =
    search (reads, auto_close_each-Framed) depth 40
