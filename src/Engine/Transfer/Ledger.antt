-- ===== src/Engine/Transfer/Ledger.antt =====
-- perp-engine/src/liquidation.rs: the transfers, against a ledger that holds for each account the
-- balances less the debts, and the insurance fund with its sign.
use denaria_perp_arbitrum.Base.{
  ap, eq_of_parts, +ℤ_parts, -ℤ_parts, ℕ, ◌+◌, ◌-◌, ◌≤◌, ◌≡◌, refl, ◌∙◌, false, arith, Bool-cases,
  inl, inr, ℤ, pos, ◌+ℤ◌, ◌-ℤ◌, ==-refl, ◌==◌, ==→eq,
}
use denaria_perp_arbitrum.Engine.State.{Address, Engine, State, Env, VirtualTraderPosition, update}
use denaria_perp_arbitrum.Engine.Monad.Laws.{Returns, Returns-map}
use denaria_perp_arbitrum.Engine.Trade.{assign_protocol_fee_filling_insurance}
use denaria_perp_arbitrum.Engine.Trade.Insurance.{fund, HasRoom}
use denaria_perp_arbitrum.Engine.Transfer.Filling.{position_of, assign_protocol_fee-IsFilled}
use denaria_perp_arbitrum.Engine.Transfer.Netting.{MovesStable, MovesAsset}

-- What an account has.
pub record Net : Type 0 where
  pub stable : ℤ
  pub asset : ℤ

pub record Ledger : Type 0 where
  pub net : Address → Net
  pub fund : ℤ

abbrev pub net_of : VirtualTraderPosition → Net
net_of p = record {
  stable = pos p.balance_stable -ℤ pos p.debt_stable;
  asset = pos p.balance_asset -ℤ pos p.debt_asset;
}

abbrev pub ledger : Engine → Ledger
ledger e = record { net = λ a. net_of (position_of e a); fund = fund e }

-- The operations of the ledger.
abbrev pub pay_stable : ℕ → Net → Net
pay_stable n x = record x { stable = x.stable -ℤ pos n }

abbrev pub get_stable : ℕ → Net → Net
get_stable n x = record x { stable = x.stable +ℤ pos n }

abbrev pub pay_asset : ℕ → Net → Net
pay_asset n x = record x { asset = x.asset -ℤ pos n }

abbrev pub get_asset : ℕ → Net → Net
get_asset n x = record x { asset = x.asset +ℤ pos n }

-- `seller` gives the asset to `buyer` for the stable value.
abbrev pub sell : Address → Address → ℕ → ℕ → Ledger → Ledger
sell seller buyer asset stable l = record l {
  net =
      update (update l.net seller (get_stable stable (pay_asset asset (l.net seller)))) buyer
        (pay_stable stable (get_asset asset (l.net buyer)));
}

-- `payer` pays into the insurance fund.
abbrev pub insure : Address → ℕ → Ledger → Ledger
insure payer n l = record {
  net = update l.net payer (pay_stable n (l.net payer));
  fund = l.fund +ℤ pos n;
}

abbrev pub SameLedger : Ledger → Ledger → Type 0
SameLedger l m = ((a : Address) → l.net a ≡ m.net a) × (l.fund ≡ m.fund)

net_ext : (x y : Net) → x.stable ≡ y.stable → x.asset ≡ y.asset → x ≡ y
net_ext x y p q i = record { stable = p i; asset = q i }

-- A side of a position that moves up or down.
side_up : (b d b' d' n : ℕ) → b' + d ≡ b + d' + n → pos b' -ℤ pos d' ≡ pos b -ℤ pos d +ℤ pos n
side_up b d b' d' n h =
    let z = pos b -ℤ pos d in
    eq_of_parts (pos b' -ℤ pos d') (z +ℤ pos n)
      (omega (arith, -ℤ_parts (pos b') (pos d'), -ℤ_parts (pos b) (pos d), +ℤ_parts z (pos n)))

side_down : (b d b' d' n : ℕ) → b' + d + n ≡ b + d' → pos b' -ℤ pos d' ≡ pos b -ℤ pos d -ℤ pos n
side_down b d b' d' n h =
    let z = pos b -ℤ pos d in
    eq_of_parts (pos b' -ℤ pos d') (z -ℤ pos n)
      (omega (arith, -ℤ_parts (pos b') (pos d'), -ℤ_parts (pos b) (pos d), -ℤ_parts z (pos n)))

same_side : (b d b' d' : ℕ) → b' ≡ b → d' ≡ d → pos b' -ℤ pos d' ≡ pos b -ℤ pos d
same_side b d b' d' p q = rw (p, q) refl

-- The ledger's reading of the moves of a position.
pub MovesStable-up :
    (p q : VirtualTraderPosition) (n : ℕ) → MovesStable p q 0 n → net_of q ≡ get_stable n (net_of p)
MovesStable-up p q n (m, a, b) =
    net_ext _ _ (side_up _ _ _ _ n (omega arith)) (same_side _ _ _ _ a b)

pub MovesStable-down :
    (p q : VirtualTraderPosition) (n : ℕ) → MovesStable p q n 0 → net_of q ≡ pay_stable n (net_of p)
MovesStable-down p q n (m, a, b) =
    net_ext _ _ (side_down _ _ _ _ n (omega arith)) (same_side _ _ _ _ a b)

pub MovesAsset-up :
    (p q : VirtualTraderPosition) (n : ℕ) → MovesAsset p q 0 n → net_of q ≡ get_asset n (net_of p)
MovesAsset-up p q n (m, a, b) =
    net_ext _ _ (same_side _ _ _ _ a b) (side_up _ _ _ _ n (omega arith))

pub MovesAsset-down :
    (p q : VirtualTraderPosition) (n : ℕ) → MovesAsset p q n 0 → net_of q ≡ pay_asset n (net_of p)
MovesAsset-down p q n (m, a, b) =
    net_ext _ _ (same_side _ _ _ _ a b) (side_down _ _ _ _ n (omega arith))

-- The insurance part is debited in full before the fund takes what it keeps.
pay_back :
    (fee kept : ℕ) (x : Net)
    → kept ≤ fee
    → get_stable (fee - kept) (pay_stable fee x) ≡ pay_stable kept x
pay_back fee kept x h =
    net_ext _ _
      (eq_of_parts (x.stable -ℤ pos fee +ℤ pos (fee - kept)) (x.stable -ℤ pos kept) (
        omega (
          arith,
          -ℤ_parts x.stable (pos fee),
          +ℤ_parts (x.stable -ℤ pos fee) (pos (fee - kept)),
          -ℤ_parts x.stable (pos kept),
        )))
      refl

-- From a state whose ledger is `l` but for the fee, which `payer` has paid, the assignment leaves
-- the ledger where the fund keeps a part of the fee.
pub insured :
    (fee : ℕ) (payer : Address) (env : Env) (s : State) (l : Ledger)
    → HasRoom fee payer s.engine
    → fund s.engine ≡ l.fund
    → net_of (position_of s.engine payer) ≡ pay_stable fee (l.net payer)
    → ((a : Address) → (a == payer) ≡ false → net_of (position_of s.engine a) ≡ l.net a)
    → Returns
        (assign_protocol_fee_filling_insurance fee payer env s)
        (λ _ r. (kept : ℕ) × (kept ≤ fee) × SameLedger (ledger r.engine) (insure payer kept l))
insured fee payer env s l room f paid others =
    Returns-map _ (assign_protocol_fee-IsFilled fee payer env s room)
      λ _ r (kept, le, grown, credited, same).
        let (q1, q2, q3, q4) = credited in
        (
          kept,
          le,
          (
            λ a. elim (Bool-cases (a == payer)) [
              | inl e ↦
                  rw (==→eq a payer e, ==-refl payer, update)
                    (MovesStable-up (position_of s.engine payer) (position_of r.engine payer)
                        (fee - kept) (omega arith, q3, q4)
                      ∙ ap (get_stable (fee - kept)) paid
                      ∙ pay_back fee kept (l.net payer) le)
              | inr n ↦ rw (n, update) (ap net_of (same a n) ∙ others a n)
            ],
            grown ∙ ap (λ z. z +ℤ pos kept) f,
          ),
        )
