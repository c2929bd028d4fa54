-- ===== src/Models/StakeV2.antt =====
-- models/stake_v2.go: the rows of the tables that stakeV2Fork reads or writes.
use dogeuni_indexer.Prelude.{String}
use dogeuni_indexer.Prelude.Int.{ℤ}

-- `total_staked` and `acc_reward_per_share` start as 0.
pub record StakeV2Collect : Type 0 where
  pub stake_id : String
  pub tick0 : String
  pub tick1 : String
  pub total_staked : ℤ
  pub reward : ℤ
  pub each_reward : ℤ
  pub acc_reward_per_share : ℤ
  pub last_reward_block : ℤ
  pub last_block : ℤ
  pub reserves_address : String
  pub holder_address : String

pub record StakeV2CollectAddress : Type 0 where
  pub stake_id : String
  pub tick : String
  pub amt : ℤ
  pub reward_debt : ℤ
  pub pending_reward : ℤ
  pub holder_address : String
  pub last_block : ℤ
  pub lock_block : ℤ

-- Columns that an operation leaves unset are 0 and the empty string.
pub record StakeV2Revert : Type 0 where
  pub op : String
  pub stake_id : String
  pub tick : String
  pub amt : ℤ
  pub reward_debt : ℤ
  pub pending_reward : ℤ
  pub acc_reward_per_share : ℤ
  pub last_reward_block : ℤ
  pub last_block : ℤ
  pub holder_address : String
  pub block_number : ℤ
