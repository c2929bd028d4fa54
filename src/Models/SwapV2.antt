-- ===== src/Models/SwapV2.antt =====
-- models/swap_v2.go: the rows of the tables. Prices and dates are left out.
use dogeuni_indexer.Prelude.{String, Option}
use dogeuni_indexer.Prelude.Int.{ℤ}
use dogeuni_indexer.Prelude.Result.{Error}

-- A message, and its row in `swap_v2_info`.
pub record SwapV2Info : Type 0 where
  pub op : String
  pub pair_id : String
  pub tick0 : String
  pub tick0_id : String
  pub tick1 : String
  pub tick1_id : String
  pub amt0 : ℤ
  pub amt1 : ℤ
  pub amt0_min : ℤ
  pub amt1_min : ℤ
  pub amt0_out : ℤ
  pub amt1_out : ℤ
  pub liquidity : ℤ
  pub doge : ℤ
  pub holder_address : String
  pub tx_hash : String
  pub tx_index : ℤ
  pub block_number : ℤ
  pub err_info : Option Error
  pub order_status : ℤ

pub record SwapV2Liquidity : Type 0 where
  pub pair_id : String
  pub tick0_id : String
  pub tick1_id : String
  pub tick0 : String
  pub tick1 : String
  pub amt0 : ℤ
  pub amt1 : ℤ
  pub liquidity_total : ℤ
  pub reserves_address : String
  pub holder_address : String

pub record SwapV2Revert : Type 0 where
  pub op : String
  pub pair_id : String
  pub block_number : ℤ
