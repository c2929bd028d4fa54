-- ===== src/Explorer.antt =====
-- explorer/*.go: the checks of a decoded message and the handlers that apply it.
pub mod Drc20
pub mod Wdoge
pub mod Swap
pub mod SwapV2
pub mod Stake
pub mod Exchange
pub mod Meme20
pub mod File
pub mod FileExchange
pub mod Cross
pub mod Invite
pub mod Consensus
pub mod Pump
pub mod Box
pub mod StakeV2
pub mod Solid
pub mod Scan
pub mod Fork
pub mod ForkBack
