-- ===== src/Wdoge.antt =====
-- storage/wdoge.go: a deposit of dogecoin issues wrapped tokens, a withdrawal burns them.
use dogeuni_indexer.Prelude.{false}
use dogeuni_indexer.Prelude.Result.{Result}
use dogeuni_indexer.Models.{WDogeInfo, Db}
use dogeuni_indexer.Drc20.{mint_drc20, burn_drc20}

unfoldable pub doge_deposit : WDogeInfo → Db → Result Db
doge_deposit wdoge db =
    mint_drc20 wdoge.tick wdoge.holder_address wdoge.amt wdoge.tx_hash wdoge.block_number false db

unfoldable pub doge_withdraw : WDogeInfo → Db → Result Db
doge_withdraw wdoge db =
    burn_drc20 wdoge.tick wdoge.holder_address wdoge.amt wdoge.tx_hash wdoge.block_number false db
