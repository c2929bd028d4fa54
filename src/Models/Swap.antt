-- ===== src/Models/Swap.antt =====
-- models/swap.go: the rows of the tables.
use dogeuni_indexer.Prelude.{String, Option}
use dogeuni_indexer.Prelude.Int.{ℤ}
use dogeuni_indexer.Prelude.Result.{Error}

-- models/swap.go. `SwapInfo` is a message and its row in `swap_info`; a pool is a row of
-- `swap_liquidity`.
pub record SwapInfo : Type 0 where
  pub op : String
  pub tick : String
  pub tick0 : String
  pub tick1 : String
  pub amt0 : ℤ
  pub amt1 : ℤ
  pub amt0_min : ℤ
  pub amt1_min : ℤ
  pub amt0_out : ℤ
  pub amt1_out : ℤ
  pub liquidity : ℤ
  pub doge : ℤ
  pub holder_address : String
  pub tx_hash : String
  pub tx_index : ℤ
  pub block_number : ℤ
  pub err_info : Option Error
  pub order_status : ℤ

pub record SwapLiquidity : Type 0 where
  pub tick : String
  pub tick0 : String
  pub tick1 : String
  pub amt0 : ℤ
  pub amt1 : ℤ
  pub liquidity_total : ℤ
  pub reserves_address : String
  pub holder_address : String

pub record SwapRevert : Type 0 where
  pub op : String
  pub tick : String
  pub block_number : ℤ
