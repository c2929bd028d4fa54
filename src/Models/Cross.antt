-- ===== src/Models/Cross.antt =====
-- models/cross.go: the rows of the tables.
use dogeuni_indexer.Prelude.{String, Option}
use dogeuni_indexer.Prelude.Int.{ℤ}
use dogeuni_indexer.Prelude.Result.{Error}

-- A message, and its row in `cross_info`.
pub record CrossInfo : Type 0 where
  pub op : String
  pub tick : String
  pub amt : ℤ
  pub admin_address : String
  pub to_address : String
  pub holder_address : String
  pub tx_hash : String
  pub block_number : ℤ
  pub err_info : Option Error
  pub order_status : ℤ

pub record CrossCollect : Type 0 where
  pub tick : String
  pub admin_address : String
  pub holder_address : String

pub record CrossRevert : Type 0 where
  pub op : String
  pub tick : String
  pub block_number : ℤ
