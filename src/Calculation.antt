-- ===== src/Calculation.antt =====
-- calculation: the output amounts of swaps.
pub mod UniswapV2
pub mod UniswapV3
pub mod Calculator
pub mod Aerodrome
pub mod Balancer
pub mod Quotes
