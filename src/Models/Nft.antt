-- ===== src/Models/Nft.antt =====
-- models/nft.go: a message and its row in `nft_info`. Prompts and images are left out.
use dogeuni_indexer.Prelude.{String, Option}
use dogeuni_indexer.Prelude.Int.{ℤ}
use dogeuni_indexer.Prelude.Result.{Error}

pub record NftInfo : Type 0 where
  pub op : String
  pub tick : String
  pub tick_id : ℤ
  pub total : ℤ
  pub to_address : String
  pub holder_address : String
  pub tx_hash : String
  pub block_number : ℤ
  pub err_info : Option Error
  pub order_status : ℤ
