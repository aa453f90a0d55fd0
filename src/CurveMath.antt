-- ===== src/CurveMath.antt =====
-- src/rust/CurveMath.rs: the pure mathematics of the engine.
pub mod Util
pub mod MulDiv
pub mod Matrix
pub mod Newton
pub mod Curve
pub mod Inverse
pub mod Fees
pub mod Cubic
pub mod InverseShort
pub mod TwoByTwo
pub mod Abi
