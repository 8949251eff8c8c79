-- ===== src/Tests.antt =====
-- Concrete runs of the model: each property with hypotheses at an input where they hold.
pub mod Data
pub mod StateDb
pub mod Pricing
pub mod Following
pub mod Quotes
pub mod Starting
pub mod Turns
pub mod Running
pub mod Cycles
pub mod Ticks
pub mod Simulating
pub mod Swapping
pub mod Filtering
pub mod Weighted
