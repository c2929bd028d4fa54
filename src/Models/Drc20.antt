-- ===== src/Models/Drc20.antt =====
-- models/drc20.go and wdoge.go: the rows of the tables.
use dogeuni_indexer.Prelude.{ℕ, String, Option}
use dogeuni_indexer.Prelude.Int.{ℤ}
use dogeuni_indexer.Prelude.Result.{Error}

-- `Drc20Collect`; `transactions` is a uint64.
pub record Drc20Collect : Type 0 where
  pub tick : String
  pub amt_sum : ℤ
  pub max : ℤ
  pub lim : ℤ
  pub dec : ℕ
  pub holder_address : String
  pub tx_hash : String
  pub transactions : ℕ

pub record Drc20CollectAddress : Type 0 where
  pub tick : String
  pub holder_address : String
  pub amt_sum : ℤ

-- `Drc20Revert`; an address that the code leaves unset is the empty string.
pub record Drc20Revert : Type 0 where
  pub from_address : String
  pub to_address : String
  pub tick : String
  pub amt : ℤ
  pub tx_hash : String
  pub block_number : ℤ

-- `Drc20Info`: a message as it was decoded, and its row in `drc20_info`. `err_info` holds which
-- check failed in place of the text.
pub record Drc20Info : Type 0 where
  pub op : String
  pub tick : String
  pub amt : ℤ
  pub max : ℤ
  pub lim : ℤ
  pub dec : ℕ
  pub repeat : ℤ
  pub holder_address : String
  pub to_address : String
  pub tx_hash : String
  pub block_number : ℤ
  pub err_info : Option Error
  pub order_status : ℤ

-- models/wdoge.go `WDogeInfo`.
pub record WDogeInfo : Type 0 where
  pub op : String
  pub tick : String
  pub amt : ℤ
  pub holder_address : String
  pub tx_hash : String
  pub block_number : ℤ
  pub err_info : Option Error
  pub order_status : ℤ
