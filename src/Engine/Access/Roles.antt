-- ===== src/Engine/Access/Roles.antt =====
-- The role checks of perp-engine/src/access_control.rs and of the public methods that use them.
use denaria_perp_arbitrum.Base.{
  ◌≡◌, refl, Bool, true, false, ◌&&◌, arith, ◌==◌, Bool-cases, ==→eq, inl, inr, if◌then◌else◌,
}
use denaria_perp_arbitrum.Engine.State.{State, Env, Engine, Role, Address}
use denaria_perp_arbitrum.Engine.Monad.{◌>>=◌}
use denaria_perp_arbitrum.Engine.Monad.Laws.{Returns}
use denaria_perp_arbitrum.Engine.Access.{
  has_role, grant_role, revoke_role, only_role, grant_role_internal, revoke_role_internal,
}

-- `account` holds `role` or not, as `b` says, and every other pair is as before.
abbrev pub Holds : Engine → Engine → Role → Address → Bool → Type 0
Holds e r role account b =
    (q : Role) (a : Address)
    → has_role r q a ≡ (if q == role && a == account then b else has_role e q a)

-- A write of the value that is there already.
same_value :
    (members : Role → Address → Bool) (role : Role) (account : Address) (b : Bool)
    → members role account ≡ b
    → (q : Role) (a : Address)
    → members q a ≡ (if q == role && a == account then b else members q a)
same_value members role account b h q a = elim (Bool-cases (q == role)) [
  | inl p ↦ elim (Bool-cases (a == account)) [
    | inl r ↦ rw (p, r) (let x = ==→eq q role p in let y = ==→eq a account r in cc)
    | inr r ↦ rw (p, r) refl
  ]
  | inr p ↦ rw p refl
]

grant_role_internal_lem :
    (role : Role) (account : Address) (env : Env) (s : State)
    → Returns
        (grant_role_internal role account env s)
        (λ _ r. Holds s.engine r.engine role account true)
unfolding ◌>>=◌ grant_role_internal has_role Returns
grant_role_internal_lem role account env s =
    elim (Bool-cases (s.engine.role_members role account)) [
      | inl e ↦ rw e (same_value s.engine.role_members role account true e)
      | inr e ↦ rw e (λ q a. ground arith)
    ]

-- A caller with the admin role grants a role: the account holds it then, and no other pair of a
-- role and an account changes.
pub grant_role_grants :
    (role : Role) (account : Address) (env : Env) (s : State)
    → has_role s.engine 0 env.msg_sender ≡ true
    → Returns (grant_role role account env s) (λ _ r. Holds s.engine r.engine role account true)
unfolding grant_role only_role ◌>>=◌ has_role Returns
grant_role_grants role account env s h =
    rw (Returns, h) (grant_role_internal_lem role account env s)

revoke_role_internal_lem :
    (role : Role) (account : Address) (env : Env) (s : State)
    → Returns
        (revoke_role_internal role account env s)
        (λ _ r. Holds s.engine r.engine role account false)
unfolding ◌>>=◌ revoke_role_internal has_role Returns
revoke_role_internal_lem role account env s =
    elim (Bool-cases (s.engine.role_members role account)) [
      | inl e ↦ rw e (λ q a. ground arith)
      | inr e ↦ rw e (same_value s.engine.role_members role account false e)
    ]

-- A caller with the admin role revokes a role: the account does not hold it then, and no other pair
-- of a role and an account changes.
pub revoke_role_revokes :
    (role : Role) (account : Address) (env : Env) (s : State)
    → has_role s.engine 0 env.msg_sender ≡ true
    → Returns (revoke_role role account env s) (λ _ r. Holds s.engine r.engine role account false)
unfolding revoke_role only_role ◌>>=◌ has_role Returns
revoke_role_revokes role account env s h =
    rw (Returns, h) (revoke_role_internal_lem role account env s)
