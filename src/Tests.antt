-- ===== src/Tests.antt =====
-- Runs of the models on small databases, and the theorems applied to them.
pub mod Data
pub mod Drc20
pub mod Swap
pub mod Stake
pub mod Cap
pub mod Exchange
mod Scan
mod Shares
pub mod Fork
mod ForkBack
pub mod Meme20
mod Ledger
pub mod SwapV2
pub mod File
