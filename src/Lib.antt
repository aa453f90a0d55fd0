-- ===== src/Lib.antt =====
-- A model of the perpetual-exchange engine (`perp-engine/src`) and of its curve mathematics
-- (`src/rust/CurveMath.rs`), both in Rust.
--
-- The engine is one contract. Traders trade against a pool of stable and asset through a curve, LPs
-- own shares of the pool through 2x2 matrices kept per accounting epoch, funding accrues over time,
-- and unhealthy positions are liquidated. Prices come from an oracle, collateral is kept by a vault.
--
-- Base: signed integers, 256-bit words, results.
-- CurveMath/Util, MulDiv, Matrix, TwoByTwo, Newton, Cubic, Curve, Inverse, InverseShort, Fees, Abi:
--   `src/rust/CurveMath.rs`; Cubic is its older solver, Abi its methods as a contract.
-- Engine/State: the storage, events and calls of `perp-engine/src/lib.rs`. The scalar fields stand in
--   `Config` and `Market`, a mapping is a function.
-- Engine/Monad: how a method runs. The state is passed on and comes back after a failure too.
-- Engine/Epochs, FundingView, Accrual: `funding.rs`, the snapshots of `liquidity.rs`.
-- Engine/MarginView: `internal_logic.rs`, and the curve calls of `trade.rs`.
-- Engine/Trade: `trade.rs`; Trade/Assets, Moves and Conserved follow the asset through a whole trade.
-- Engine/Liquidity: `liquidity.rs`.
-- Engine/Close, Clear: `close.rs`, and the clearing of `auto_close.rs`. Engine/AutoClose: `auto_close.rs`.
-- Engine/Liquidation, Transfer, Discount, Batch: `liquidation.rs`.
-- Engine/Access: `access_control.rs` and the role methods of `lib.rs`.
-- Engine/Entry: the public methods of `lib.rs`, which act for the sender or for the forwarded user.
-- Engine/Parameters: the setters of `lib.rs`, and the hash of `config.rs`. Parameters/Binding: which
--   change can be made after a preparation.
-- Engine/Setup: the constants of `config.rs`, and the initializers of `lib.rs`.
-- Engine/Getters, Views, ErrorData: the getters, and the error data, of `lib.rs`.
-- Engine/Contract: the public methods as transactions, undone when they stop, and the storage that
--   sequences of them can leave; Contract/Outsiders: the sequences of accounts without a role;
--   Contract/Breaker and Contract/Paused: the emergency breaker after them.
-- Engine/Admin: what the methods leave alone, one file for each file of the source.
-- Engine/Transfer/Ledger: net claims on stable and asset, the abstract view of a transfer.
-- Examples: test data, and the theorems at concrete inputs.
--
-- The operators on words wrap around, as in the release build. A panic of the source is a `Fault`, an
-- `Err` its revert code. A call of the oracle or the vault is an answer of `Env`, which may depend on
-- all that the transaction did before; it does not call back into the engine. The hash function is a
-- field of `Env`. The production build is modelled, without the feature `stub_boundary`.
--
-- The solver runs 255 rounds, as the source does, and panics after them. The loops over epochs run
-- over the distance from the oldest to the current epoch; each round moves one epoch on.
--
-- Not modelled: the entry point, which only names the program, the tests and the code that is built for
-- them only, and the Solidity contracts, which are in another language.
pub mod Base
pub mod CurveMath
pub mod Engine
pub mod Examples
