-- ===== src/Models/Stake.antt =====
-- models/stake.go: the rows of the tables.
use dogeuni_indexer.Prelude.{String, Option}
use dogeuni_indexer.Prelude.Int.{ℤ}
use dogeuni_indexer.Prelude.Result.{Error}

-- models/stake.go. `StakeInfo` is a message and its row in `stake_info`.
pub record StakeInfo : Type 0 where
  pub op : String
  pub tick : String
  pub amt : ℤ
  pub holder_address : String
  pub tx_hash : String
  pub block_number : ℤ
  pub err_info : Option Error
  pub order_status : ℤ

pub record StakeCollect : Type 0 where
  pub tick : String
  pub amt : ℤ

pub record StakeCollectAddress : Type 0 where
  pub tick : String
  pub holder_address : String
  pub amt : ℤ
  pub reward : ℤ
  pub received_reward : ℤ

pub record StakeRevert : Type 0 where
  pub tick : String
  pub from_address : String
  pub to_address : String
  pub amt : ℤ
  pub tx_hash : String
  pub block_number : ℤ

pub record StakeRewardInfo : Type 0 where
  pub tick : String
  pub amt : ℤ
  pub from_address : String
  pub to_address : String
  pub block_number : ℤ

pub record StakeRewardRevert : Type 0 where
  pub tick : String
  pub to_address : String
  pub amt : ℤ
  pub tx_hash : String
  pub block_number : ℤ
