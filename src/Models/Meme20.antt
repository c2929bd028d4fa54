-- ===== src/Models/Meme20.antt =====
-- models/meme20.go: the rows of the tables. Logos, links and dates are left out.
use dogeuni_indexer.Prelude.{ℕ, String, Option}
use dogeuni_indexer.Prelude.Int.{ℤ}
use dogeuni_indexer.Prelude.Result.{Error}

-- A message, and its row in `meme20_info`.
pub record Meme20Info : Type 0 where
  pub op : String
  pub tick_id : String
  pub tick : String
  pub name : String
  pub amt : ℤ
  pub max : ℤ
  pub to_address : String
  pub holder_address : String
  pub tx_hash : String
  pub block_number : ℤ
  pub err_info : Option Error
  pub order_status : ℤ

-- `max` is the supply; `transactions` is a uint64, here and below.
pub record Meme20Collect : Type 0 where
  pub tick_id : String
  pub tick : String
  pub name : String
  pub max : ℤ
  pub dec : ℕ
  pub holder_address : String
  pub transactions : ℕ

pub record Meme20CollectAddress : Type 0 where
  pub tick_id : String
  pub amt : ℤ
  pub holder_address : String
  pub transactions : ℕ

pub record Meme20Revert : Type 0 where
  pub from_address : String
  pub to_address : String
  pub tick_id : String
  pub amt : ℤ
  pub tx_hash : String
  pub block_number : ℤ
