-- ===== src/Engine/Epochs/Retire.antt =====
-- `_retire_inactive_liquidity_epochs` of perp-engine/src/funding.rs: where the loop ends, and which
-- epochs it keeps.
use denaria_perp_arbitrum.Base.{
  ℕ, zero, suc, ◌+◌, ◌-◌, ◌≤◌, ◌<◌, ◌≡◌, refl, Bool, true, false, ◌||◌, leb, ◌==◌, arith, word_mod,
  Bool-cases, inl, inr, ◌⊎◌, sym, ◌∙◌, ap, ==→eq,
}
use denaria_perp_arbitrum.Engine.State.{Engine}
use denaria_perp_arbitrum.Engine.Epochs.{
  is_live, is_zero, epoch_at, retire_oldest, retire_rounds, retire_inactive_liquidity_epochs,
  delete_liquidity_epoch,
}

abbrev pub oldest : Engine → ℕ
oldest e = e.market.oldest_active_liquidity_epoch

abbrev pub current : Engine → ℕ
current e = e.market.current_liquidity_epoch

-- The loop's exit test.
abbrev pub is_settled : Engine → Bool
is_settled e = leb (current e) (oldest e) || is_live (epoch_at e (oldest e))

-- The epoch is live, or it lies outside the range that `r` has passed over.
abbrev pub IsKept : Engine → Engine → ℕ → Type 0
IsKept e r k = (is_live (epoch_at e k) ≡ true) ⊎ ((k < oldest e) ⊎ (oldest r ≤ k))

-- The current epoch stays, the window only shrinks from its old end, and what is kept is the same.
abbrev pub Retired : Engine → Engine → Type 0
Retired e r =
    (current r ≡ current e)
    × (oldest e ≤ oldest r)
    × ((k : ℕ) → IsKept e r k → epoch_at r k ≡ epoch_at e k)

not_oldest :
    (e r : Engine) (k : ℕ)
    → oldest r ≡ oldest e + 1
    → is_live (epoch_at e (oldest e)) ≡ false
    → IsKept e r k
    → (k == oldest e) ≡ false
not_oldest e r k step dead (inl live) = elim (Bool-cases (k == oldest e)) [
  | inl same ↦
      let p : k ≡ oldest e = ==→eq k (oldest e) same in absurd (differ (sym (rw p at live) ∙ dead))
  | inr other ↦ other
]
  where
    differ : true ≡ false → ⊥
    differ h = cc
not_oldest e r k step dead (inr (inl below)) = ground arith
not_oldest e r k step dead (inr (inr above)) = ground arith

pub retire_oldest-step :
    (e : Engine)
    → current e < word_mod
    → oldest e < current e
    → oldest (retire_oldest e) ≡ oldest e + 1
unfolding retire_oldest
retire_oldest-step e fits lt = ground arith

retire_oldest-Retired :
    (e : Engine)
    → current e < word_mod
    → oldest e < current e
    → is_live (epoch_at e (oldest e)) ≡ false
    → Retired e (retire_oldest e)
unfolding retire_oldest delete_liquidity_epoch
retire_oldest-Retired e fits lt dead =
    let step = retire_oldest-step e fits lt in
    elim (Bool-cases (is_zero (epoch_at e (oldest e)).liquidity_m00)) [
      | inl z ↦ (rw z refl, omega arith, λ k h. rw z refl)
      | inr z ↦
          (rw z refl, omega arith, λ k h. rw (z, not_oldest e (retire_oldest e) k step dead h) refl)
    ]

-- The tests of a window that is not settled.
pub unsettled :
    (e : Engine)
    → is_settled e ≡ false
    → (oldest e < current e) × (is_live (epoch_at e (oldest e)) ≡ false)
unsettled e h = elim (Bool-cases (leb (current e) (oldest e))) [
  | inl t ↦ absurd (clash (rw t at h))
  | inr f ↦ (ground arith, rw f at h)
]
  where
    clash : true ≡ false → ⊥
    clash h = cc

settled_at_end : (e : Engine) → current e ≤ oldest e → is_settled e ≡ true
settled_at_end e h = let t : leb (current e) (oldest e) ≡ true = ground arith in rw t refl

trans :
    (e f r : Engine)
    → Retired e f
    → Retired f r
    → oldest f ≡ oldest e + 1
    → is_live (epoch_at e (oldest e)) ≡ false
    → Retired e r
trans e f r (c1, o1, k1) (c2, o2, k2) step dead = (c2 ∙ c1, omega arith, go)
  where
    go : (k : ℕ) → IsKept e r k → epoch_at r k ≡ epoch_at e k
    go k (inl live) = let p = k1 k (inl live) in k2 k (inl (ap is_live p ∙ live)) ∙ p
    go k (inr (inl below)) = k2 k (inr (inl (omega arith))) ∙ k1 k (inr (inl below))
    go k (inr (inr above)) = k2 k (inr (inr above)) ∙ k1 k (inr (inr (omega arith)))

rounds :
    (n : ℕ) (e : Engine)
    → current e < word_mod
    → current e - oldest e ≤ n
    → Retired e (retire_rounds n e) × (is_settled (retire_rounds n e) ≡ true)
unfolding retire_rounds
rounds zero e fits enough = ((refl, omega arith, λ k h. refl), settled_at_end e (omega arith))
rounds (suc n) e fits enough = elim (Bool-cases (is_settled e)) [
  | inl t ↦ rw (t, retire_rounds) ((refl, omega arith, λ k h. refl), t)
  | inr f ↦
      let (lt, dead) = unsettled e f in
      let step = retire_oldest-step e fits lt in
      let one = retire_oldest-Retired e fits lt dead in
      let rest = rounds n (retire_oldest e) (omega arith) (omega arith) in
      rw (f, retire_rounds)
        (trans e (retire_oldest e) (retire_rounds n (retire_oldest e)) one rest.0 step dead, rest.1)
]

-- For a current epoch number of at most 256 bits, the loop that retires epochs ends where its exit
-- test holds: at the current epoch, or at an epoch
-- that is live. It keeps the current epoch number, moves the oldest one only forward, and leaves
-- every live epoch and every epoch outside the range it passed over as it was.
pub retire_inactive_liquidity_epochs_lem :
    (e : Engine)
    → e.market.current_liquidity_epoch < word_mod
    → Retired e (retire_inactive_liquidity_epochs e)
      × (is_settled (retire_inactive_liquidity_epochs e) ≡ true)
unfolding retire_inactive_liquidity_epochs
retire_inactive_liquidity_epochs_lem e fits = rounds (current e - oldest e) e fits (omega arith)
