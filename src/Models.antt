-- ===== src/Models.antt =====
-- models: the database as the lists of its tables' rows, which the children have, and models/block.go.
-- Columns that no modelled statement reads or writes are left out.
mod Drc20
mod Swap
mod Stake
mod Exchange
mod Meme20
mod SwapV2
mod Pump
mod StakeV2
mod Box
mod Cross
mod File
mod Nft
mod Invite
pub use Drc20.*
pub use Swap.*
pub use Stake.*
pub use Exchange.*
pub use Meme20.*
pub use SwapV2.*
pub use Pump.*
pub use StakeV2.*
pub use Box.*
pub use Cross.*
pub use File.*
pub use Nft.*
pub use Invite.*
use dogeuni_indexer.Prelude.{ℕ, String, Bool, List, Option}
use dogeuni_indexer.Prelude.Int.{ℤ}
use dogeuni_indexer.Prelude.Result.{Error}

-- Which columns the database has where the models and the statements differ: statements name them, and
-- the structs of models/exchange.go and models/stake.go have no field for them.
pub record Schema : Type 0 where
  pub exchange_collect_amt_finish : Bool
  pub stake_revert_id : Bool
  pub stake_reward_revert_id : Bool

-- Tables, rows in the order of their creation; the revert logs have their newest row first, so
-- that `Order("id desc")` is the order of the list.
pub record Db : Type 0 where
  pub drc20_info : List Drc20Info
  pub drc20_collect : List Drc20Collect
  pub drc20_collect_address : List Drc20CollectAddress
  pub drc20_revert : List Drc20Revert
  pub wdoge_info : List WDogeInfo
  pub swap_info : List SwapInfo
  pub swap_liquidity : List SwapLiquidity
  pub swap_revert : List SwapRevert
  pub stake_info : List StakeInfo
  pub stake_collect : List StakeCollect
  pub stake_collect_address : List StakeCollectAddress
  pub stake_revert : List StakeRevert
  pub stake_reward_info : List StakeRewardInfo
  pub stake_reward_revert : List StakeRewardRevert
  pub exchange_info : List ExchangeInfo
  pub exchange_collect : List ExchangeCollect
  pub exchange_revert : List ExchangeRevert
  pub meme20_info : List Meme20Info
  pub meme20_collect : List Meme20Collect
  pub meme20_collect_address : List Meme20CollectAddress
  pub meme20_revert : List Meme20Revert
  pub swap_v2_info : List SwapV2Info
  pub swap_v2_liquidity : List SwapV2Liquidity
  pub swap_v2_revert : List SwapV2Revert
  pub pump_info : List PumpInfo
  pub pump_liquidity : List PumpLiquidity
  pub pump_revert : List PumpRevert
  pub pump_invite_reward : List PumpInviteReward
  pub pump_invite_reward_revert : List PumpInviteRewardRevert
  pub stake_v2_collect : List StakeV2Collect
  pub stake_v2_collect_address : List StakeV2CollectAddress
  pub stake_v2_revert : List StakeV2Revert
  pub box_info : List BoxInfo
  pub box_collect : List BoxCollect
  pub box_collect_address : List BoxCollectAddress
  pub box_revert : List BoxRevert
  pub cross_info : List CrossInfo
  pub cross_collect : List CrossCollect
  pub cross_revert : List CrossRevert
  pub file_info : List FileInfo
  pub file_collect_address : List FileCollectAddress
  pub file_revert : List FileRevert
  pub file_exchange_info : List FileExchangeInfo
  pub file_exchange_collect : List FileExchangeCollect
  pub file_exchange_revert : List FileExchangeRevert
  pub nft_info : List NftInfo
  pub invite_info : List InviteInfo
  pub invite_collect : List InviteCollect
  pub invite_revert : List InviteRevert
  pub consensus_info : List ConsensusInfo
  pub consensus_stake_record : List ConsensusStakeRecord
  pub consensus_revert : List ConsensusRevert

-- models/block.go
pub record Block : Type 0 where
  pub block_number : ℤ
  pub block_hash : String
