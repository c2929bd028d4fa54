-- ===== src/Models/Box.antt =====
-- models/box.go: the rows of the tables.
use dogeuni_indexer.Prelude.{String, Option}
use dogeuni_indexer.Prelude.Int.{ℤ}
use dogeuni_indexer.Prelude.Result.{Error}

-- A message, and its row in `box_info`.
pub record BoxInfo : Type 0 where
  pub op : String
  pub tick0 : String
  pub tick1 : String
  pub max : ℤ
  pub amt0 : ℤ
  pub liq_amt : ℤ
  pub liq_block : ℤ
  pub amt1 : ℤ
  pub holder_address : String
  pub tx_hash : String
  pub block_number : ℤ
  pub err_info : Option Error
  pub order_status : ℤ

-- `amt0_finish`, `liq_amt_finish` and `is_del` start as 0.
pub record BoxCollect : Type 0 where
  pub tick0 : String
  pub tick1 : String
  pub max : ℤ
  pub amt0 : ℤ
  pub liq_amt : ℤ
  pub liq_block : ℤ
  pub amt1 : ℤ
  pub amt0_finish : ℤ
  pub liq_amt_finish : ℤ
  pub holder_address : String
  pub reserves_address : String
  pub is_del : ℤ

pub record BoxCollectAddress : Type 0 where
  pub tick : String
  pub holder_address : String
  pub amt : ℤ
  pub block_number : ℤ

pub record BoxRevert : Type 0 where
  pub op : String
  pub tick0 : String
  pub tick1 : String
  pub max : ℤ
  pub holder_address : String
  pub tx_hash : String
  pub block_number : ℤ
