-- ===== src/Engine/Admin/Engines.antt =====
-- What the changes of the engine that cannot fail keep of the administration and of the guard, for the epochs of
-- perp-engine/src/funding.rs and liquidity.rs.
use denaria_perp_arbitrum.Base.{
  [], ℕ, zero, suc, Bool, true, false, ◌==◌, ◌≡◌, refl, ◌∙◌, ◌⊕◌, Bool-cases, inl, inr,
}
use denaria_perp_arbitrum.Engine.State.{Engine, State, Address}
use denaria_perp_arbitrum.Engine.Admin.{Core, core}
use denaria_perp_arbitrum.Engine.Epochs.{
  epoch_at, is_zero, retire_oldest, retire_rounds, retire_inactive_liquidity_epochs,
  delete_liquidity_epoch, open_next_epoch, initialize_liquidity_epoch, increment_active_lp_count,
  decrement_active_lp_count, refresh_lp_funding_snapshot, set_current,
  has_active_liquidity_snapshot,
}
use denaria_perp_arbitrum.Engine.Accrual.{move_lp_count}

abbrev of_engine : Engine → Core
of_engine e = core (record { engine = e; trace = [] })

retire_oldest-of_engine : (e : Engine) → of_engine (retire_oldest e) ≡ of_engine e
unfolding retire_oldest delete_liquidity_epoch
retire_oldest-of_engine e =
    elim (Bool-cases (is_zero (epoch_at e e.market.oldest_active_liquidity_epoch).liquidity_m00)) [
      | inl z ↦ rw z refl
      | inr z ↦ rw z refl
    ]

one_round :
    (b : Bool) (e r : Engine)
    → of_engine r ≡ of_engine e
    → of_engine (elim b [ true ↦ e | false ↦ r ]) ≡ of_engine e
one_round true e r h = refl
one_round false e r h = h

retire_rounds-of_engine : (n : ℕ) (e : Engine) → of_engine (retire_rounds n e) ≡ of_engine e
unfolding retire_rounds
retire_rounds-of_engine zero e = refl
retire_rounds-of_engine (suc n) e =
    one_round _ e (retire_rounds n (retire_oldest e))
      (retire_rounds-of_engine n (retire_oldest e) ∙ retire_oldest-of_engine e)

retire-of_engine : (e : Engine) → of_engine (retire_inactive_liquidity_epochs e) ≡ of_engine e
unfolding retire_inactive_liquidity_epochs
retire-of_engine e = retire_rounds-of_engine _ e

pub retire-kept :
    (s : State) → core (record s { engine = retire_inactive_liquidity_epochs s.engine }) ≡ core s
retire-kept s = retire-of_engine s.engine

pub open_next_epoch-kept :
    (s : State) → core (record s { engine = open_next_epoch s.engine }) ≡ core s
unfolding open_next_epoch initialize_liquidity_epoch
open_next_epoch-kept s =
    let next = s.engine.market.current_liquidity_epoch ⊕ 1 in
    retire-of_engine (initialize_liquidity_epoch next (set_current next s.engine))

pub decrement-kept :
    (k : ℕ) (s : State) → core (record s { engine = decrement_active_lp_count k s.engine }) ≡ core s
unfolding decrement_active_lp_count
decrement-kept k s = refl

pub move_lp_count-kept :
    (b : Bool) (old new : ℕ) (s : State)
    → core (record s { engine = move_lp_count b old new s.engine }) ≡ core s
unfolding move_lp_count increment_active_lp_count decrement_active_lp_count
move_lp_count-kept true old new s = elim (Bool-cases (old == new)) [
  | inl e ↦ rw e refl
  | inr e ↦ rw e refl
]
move_lp_count-kept false old new s = refl

pub refresh_lp_funding_snapshot-kept :
    (user : Address) (s : State)
    → core (record s { engine = refresh_lp_funding_snapshot user s.engine }) ≡ core s
unfolding refresh_lp_funding_snapshot
refresh_lp_funding_snapshot-kept user s =
    elim (Bool-cases (has_active_liquidity_snapshot s.engine user)) [
      | inl e ↦ rw e refl
      | inr e ↦ rw e refl
    ]
