-- ===== src/Models/Pump.antt =====
-- models/pump.go: the rows of the tables. Names, logos and dates are left out.
use dogeuni_indexer.Prelude.{String, Option}
use dogeuni_indexer.Prelude.Int.{ℤ}
use dogeuni_indexer.Prelude.Result.{Error}

-- A message, and its row in `pump_info`.
pub record PumpInfo : Type 0 where
  pub op : String
  pub pair_id : String
  pub tick0 : String
  pub tick0_id : String
  pub tick1 : String
  pub tick1_id : String
  pub amt0 : ℤ
  pub amt1 : ℤ
  pub amt0_min : ℤ
  pub amt0_out : ℤ
  pub amt1_out : ℤ
  pub symbol : String
  pub name : String
  pub reserve : ℤ
  pub doge : ℤ
  pub holder_address : String
  pub tx_hash : String
  pub block_number : ℤ
  pub err_info : Option Error
  pub order_status : ℤ

pub record PumpLiquidity : Type 0 where
  pub tick0_id : String
  pub tick1_id : String
  pub amt0 : ℤ
  pub amt1 : ℤ
  pub reserves_address : String
  pub holder_address : String

pub record PumpRevert : Type 0 where
  pub op : String
  pub tick_id : String
  pub amt0 : ℤ
  pub amt1 : ℤ
  pub block_number : ℤ

pub record PumpInviteReward : Type 0 where
  pub holder_address : String
  pub invite_address : String
  pub invite_reward : ℤ

pub record PumpInviteRewardRevert : Type 0 where
  pub holder_address : String
  pub invite_address : String
  pub invite_reward : ℤ
  pub block_number : ℤ
