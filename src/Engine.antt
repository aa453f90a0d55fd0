-- ===== src/Engine.antt =====
-- perp-engine/src: the storage, the methods and the entrypoints of the engine.
pub mod State
pub mod Monad
pub mod Epochs
pub mod FundingView
pub mod MarginView
pub mod Accrual
pub mod Liquidity
pub mod Trade
pub mod Batch
pub mod Discount
pub mod Transfer
pub mod Clear
pub mod Liquidation
pub mod Close
pub mod Guards
pub mod Admin
pub mod AutoClose
pub mod Access
pub mod Parameters
pub mod Setup
pub mod Entry
pub mod Getters
pub mod Views
pub mod Contract
pub mod ErrorData
