-- ===== src/Models/File.antt =====
-- models/file.go and file_exchange.go: the rows of the tables. What a file holds is left out.
use dogeuni_indexer.Prelude.{String, Option}
use dogeuni_indexer.Prelude.Int.{ℤ}
use dogeuni_indexer.Prelude.Result.{Error}

-- A message, and its row in `file_info`.
pub record FileInfo : Type 0 where
  pub file_id : String
  pub op : String
  pub file_path : String
  pub to_address : String
  pub holder_address : String
  pub tx_hash : String
  pub block_number : ℤ
  pub err_info : Option Error
  pub order_status : ℤ

pub record FileCollectAddress : Type 0 where
  pub file_id : String
  pub file_path : String
  pub holder_address : String

pub record FileRevert : Type 0 where
  pub from_address : String
  pub to_address : String
  pub file_id : String
  pub tx_hash : String
  pub block_number : ℤ

-- A message, and its row in `file_exchange_info`.
pub record FileExchangeInfo : Type 0 where
  pub op : String
  pub ex_id : String
  pub file_id : String
  pub tick : String
  pub amt : ℤ
  pub holder_address : String
  pub tx_hash : String
  pub block_number : ℤ
  pub err_info : Option Error
  pub order_status : ℤ

pub record FileExchangeCollect : Type 0 where
  pub ex_id : String
  pub file_id : String
  pub tick : String
  pub amt : ℤ
  pub amt_finish : ℤ
  pub holder_address : String
  pub reserves_address : String

pub record FileExchangeRevert : Type 0 where
  pub op : String
  pub ex_id : String
  pub file_id : String
  pub tick : String
  pub amt : ℤ
  pub amt_finish : ℤ
  pub block_number : ℤ
