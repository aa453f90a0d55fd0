-- ===== src/Engine/Epochs/Window.antt =====
-- `_roll_liquidity_epoch_if_needed` of perp-engine/src/funding.rs: how many epochs are open at once.
use denaria_perp_arbitrum.Base.{
  ℕ, zero, suc, ◌+◌, ◌-◌, ◌≤◌, ◌<◌, ◌≡◌, refl, Bool, true, false, arith, word_mod, Bool-cases, inl,
  inr, ltb, ltb_ℤ, not, Outcome, ok, fail, Code, ◌⊕◌, pos,
}
use denaria_perp_arbitrum.CurveMath.Util.{divide_signed}
use denaria_perp_arbitrum.Engine.State.{Engine, State, Env}
use denaria_perp_arbitrum.Engine.Monad.{M, ◌>>=◌, ◌>>◌, call, when, ensure, modify}
use denaria_perp_arbitrum.Engine.Monad.Frames.{left}
use denaria_perp_arbitrum.Engine.Epochs.{
  retire_rounds, retire_oldest, retire_inactive_liquidity_epochs, roll_liquidity_epoch_if_needed,
  active_window, open_next_epoch, initialize_liquidity_epoch, max_active_liquidity_epochs,
  set_current, liquidity_epoch_determinant, liquidity_epoch_det_denominator, epoch_at, is_zero,
  delete_liquidity_epoch,
}
use denaria_perp_arbitrum.Engine.Epochs.Retire.{
  oldest, current, is_settled, unsettled, retire_oldest-step, retire_inactive_liquidity_epochs_lem,
}

-- At most nine epochs are open: the current one and the eight before it.
abbrev pub IsWindow : Engine → Type 0
IsWindow e = (oldest e ≤ current e) × (current e ≤ oldest e + 8)

retire_oldest-current : (e : Engine) → current (retire_oldest e) ≡ current e
unfolding retire_oldest delete_liquidity_epoch
retire_oldest-current e = elim (Bool-cases (is_zero (epoch_at e (oldest e)).liquidity_m00)) [
  | inl z ↦ rw z refl
  | inr z ↦ rw z refl
]

-- The loop does not pass the current epoch.
rounds_le :
    (n : ℕ) (e : Engine)
    → current e < word_mod
    → oldest e ≤ current e
    → oldest (retire_rounds n e) ≤ current e
unfolding retire_rounds
rounds_le zero e fits le = le
rounds_le (suc n) e fits le = elim (Bool-cases (is_settled e)) [
  | inl t ↦ rw (t, retire_rounds) le
  | inr f ↦
      let (lt, dead) = unsettled e f in
      let step = retire_oldest-step e fits lt in
      let same : current (retire_oldest e) ≡ current e = retire_oldest-current e in
      let rest = rounds_le n (retire_oldest e) (omega arith) (omega arith) in
      rw (f, retire_rounds) (omega arith)
]

open_next_epoch-IsWindow :
    (e : Engine)
    → current e + 1 < word_mod
    → IsWindow e
    → ltb (active_window e) max_active_liquidity_epochs ≡ true
    → IsWindow (open_next_epoch e)
unfolding open_next_epoch active_window retire_inactive_liquidity_epochs initialize_liquidity_epoch
open_next_epoch-IsWindow e fits w h =
    let opened = initialize_liquidity_epoch (current e ⊕ 1) (set_current (current e ⊕ 1) e) in
    let grown : current opened ≡ current e + 1 = ground arith in
    let kept : oldest opened ≡ oldest e = refl in
    let bound : current e + 1 ≤ oldest e + 8 = ground arith in
    let ((same, forward, _), _) = retire_inactive_liquidity_epochs_lem opened (omega arith) in
    let le = rounds_le (current opened - oldest opened) opened (omega arith) (omega arith) in
    (omega arith, omega arith)

left_call :
    {A : Type 0} (P : State → Type 0) (o : Outcome A) (g : A → M (Unit {0})) (env : Env) (s : State)
    → P s
    → ((x : A) → P (left (g x env s)))
    → P (left ((call o >>= g) env s))
unfolding ◌>>=◌
left_call P (ok x) g env s h k = k x
left_call P (fail e) g env s h k = h

left_open :
    (P : State → Type 0) (b c : Bool) (why : Code) (f : Engine → Engine) (env : Env) (s : State)
    → P s
    → (c ≡ true → P (record s { engine = f s.engine }))
    → P (left (when b (ensure c why >> modify f) env s))
unfolding ◌>>=◌
left_open P false c why f env s h k = h
left_open P true true why f env s h k = k refl
left_open P true false why f env s h k = h

-- Whether it returns or stops, the roll keeps at most nine epochs open, while the epoch number has
-- room to grow.
pub roll_keeps_IsWindow :
    (env : Env) (s : State)
    → s.engine.market.current_liquidity_epoch + 1 < word_mod
    → IsWindow s.engine
    → IsWindow (left (roll_liquidity_epoch_if_needed env s)).engine
unfolding roll_liquidity_epoch_if_needed ◌>>=◌
roll_keeps_IsWindow env s fits w =
    let e = s.engine in
    let P : State → Type 0 = λ r. IsWindow r.engine in
    let check : M (Unit {0}) =
      ensure (ltb (active_window e) max_active_liquidity_epochs) Code.lecap
      >> modify open_next_epoch in
    left_call P (liquidity_epoch_determinant e (current e))
      (λ d.
        call (divide_signed e.config.liquidity_m_decimals (pos liquidity_epoch_det_denominator))
        >>= λ threshold. when (not (ltb_ℤ threshold d)) check)
      env s w
      λ d.
        left_call P
          (divide_signed e.config.liquidity_m_decimals (pos liquidity_epoch_det_denominator))
          (λ threshold. when (not (ltb_ℤ threshold d)) check) env s w
          λ threshold.
            left_open P (not (ltb_ℤ threshold d)) _ Code.lecap open_next_epoch env s w
              (open_next_epoch-IsWindow e fits w)
