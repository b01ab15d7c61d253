-- ===== src/Strategy.antt =====
-- MyStrategy.cpp: the strategy, bottom up.
pub mod Point
pub mod Floyd
pub mod Turn
pub mod Score
pub mod Expand
pub mod Search
pub mod Turns
pub mod Names
