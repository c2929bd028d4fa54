-- ===== src/Models/Exchange.antt =====
-- models/exchange.go: the rows of the tables.
use dogeuni_indexer.Prelude.{String, Option}
use dogeuni_indexer.Prelude.Int.{ℤ}
use dogeuni_indexer.Prelude.Result.{Error}

-- models/exchange.go. `ExchangeInfo` is a message and its row in `exchange_info`; an order is a row
-- of `exchange_collect`.
pub record ExchangeInfo : Type 0 where
  pub op : String
  pub ex_id : String
  pub tick0 : String
  pub tick1 : String
  pub amt0 : ℤ
  pub amt1 : ℤ
  pub holder_address : String
  pub tx_hash : String
  pub block_number : ℤ
  pub err_info : Option Error
  pub order_status : ℤ

pub record ExchangeCollect : Type 0 where
  pub ex_id : String
  pub tick0 : String
  pub tick1 : String
  pub amt0 : ℤ
  pub amt1 : ℤ
  pub amt0_finish : ℤ
  pub amt1_finish : ℤ
  pub holder_address : String
  pub reserves_address : String

pub record ExchangeRevert : Type 0 where
  pub op : String
  pub ex_id : String
  pub amt0 : ℤ
  pub amt1 : ℤ
  pub tx_hash : String
  pub block_number : ℤ
