-- ===== src/Models/Invite.antt =====
-- models/invite.go and consensus.go: the rows of the tables.
use dogeuni_indexer.Prelude.{String, Option}
use dogeuni_indexer.Prelude.Int.{ℤ}
use dogeuni_indexer.Prelude.Result.{Error}

-- A message, and its row in `invite_info`.
pub record InviteInfo : Type 0 where
  pub op : String
  pub invite_address : String
  pub holder_address : String
  pub tx_hash : String
  pub block_number : ℤ
  pub err_info : Option Error
  pub order_status : ℤ

pub record InviteCollect : Type 0 where
  pub holder_address : String
  pub invite_address : String

pub record InviteRevert : Type 0 where
  pub holder_address : String
  pub invite_address : String
  pub block_number : ℤ

-- A message, and its row in `consensus_info`.
pub record ConsensusInfo : Type 0 where
  pub op : String
  pub stake_id : String
  pub amt : ℤ
  pub holder_address : String
  pub tx_hash : String
  pub block_number : ℤ
  pub err_info : Option Error
  pub order_status : ℤ

-- `unstake_block` and `score` are NULL while the stake is active.
pub record ConsensusStakeRecord : Type 0 where
  pub stake_id : String
  pub holder_address : String
  pub reserves_address : String
  pub amt : ℤ
  pub stake_block : ℤ
  pub unstake_block : Option ℤ
  pub status : String
  pub score : Option ℤ

pub record ConsensusRevert : Type 0 where
  pub from_address : String
  pub to_address : String
  pub op : String
  pub amt : ℤ
  pub tx_hash : String
  pub block_number : ℤ
