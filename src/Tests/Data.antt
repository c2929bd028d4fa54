-- ===== src/Tests/Data.antt =====
-- Databases for the tests: two deployed tokens with a pool between them, before and after the
-- issues of three messages.
use dogeuni_indexer.Prelude.{true, String, false, [], ◌∷◌, arith}
use dogeuni_indexer.Prelude.Int.{pos}
use dogeuni_indexer.Prelude.Result.{Result, ok, err}
use dogeuni_indexer.Models.{Schema, Drc20Collect, SwapLiquidity, Db}
use dogeuni_indexer.Holders.Total.{total}
use dogeuni_indexer.Tokens.{find_token}
use dogeuni_indexer.Tokens.Supply.{supply}
use dogeuni_indexer.Drc20.{mint_drc20}
use dogeuni_indexer.Drc20.Conservation.{IsBacked}

abbrev token : String → Drc20Collect
token tick = record {
  tick = tick;
  amt_sum = pos 0;
  max = pos 1000000;
  lim = pos 500000;
  dec = 8;
  holder_address = "deployer";
  tx_hash = "tx0";
  transactions = 0;
}

abbrev pub pool : SwapLiquidity
pool = record {
  tick = "dogi-SWAP-woof";
  tick0 = "dogi";
  tick1 = "woof";
  amt0 = pos 100000;
  amt1 = pos 200000;
  liquidity_total = pos 0;
  reserves_address = "reserves";
  holder_address = "creator";
}

abbrev pub genesis : Db
genesis = record {
  drc20_info = [];
  drc20_collect = token "dogi" ∷ token "woof" ∷ token "dogi-SWAP-woof" ∷ [];
  drc20_collect_address = [];
  drc20_revert = [];
  wdoge_info = [];
  swap_info = [];
  swap_liquidity = pool ∷ [];
  swap_revert = [];
  stake_info = [];
  stake_collect = record { tick = "dogi"; amt = pos 0 } ∷ [];
  stake_collect_address = [];
  stake_revert = [];
  stake_reward_info = [];
  stake_reward_revert = [];
  exchange_info = [];
  exchange_collect = [];
  exchange_revert = [];
  meme20_info = [];
  meme20_collect = [];
  meme20_collect_address = [];
  meme20_revert = [];
  swap_v2_info = [];
  swap_v2_liquidity = [];
  swap_v2_revert = [];
  pump_info = [];
  pump_liquidity = [];
  pump_revert = [];
  pump_invite_reward = [];
  pump_invite_reward_revert = [];
  stake_v2_collect = [];
  stake_v2_collect_address = [];
  stake_v2_revert = [];
  box_info = [];
  box_collect = [];
  box_collect_address = [];
  box_revert = [];
  cross_info = [];
  cross_collect = [];
  cross_revert = [];
  file_info = [];
  file_collect_address = [];
  file_revert = [];
  file_exchange_info = [];
  file_exchange_collect = [];
  file_exchange_revert = [];
  nft_info = [];
  invite_info = [];
  invite_collect = [];
  invite_revert = [];
  consensus_info = [];
  consensus_stake_record = [];
  consensus_revert = [];
}

pub genesis-IsBacked : IsBacked genesis
unfolding total supply find_token
genesis-IsBacked = record { sound = tt; backed = λ t. ground arith }

abbrev pub db_of : Result Db → Db
db_of (ok db) = db
db_of (err e) = genesis

-- The reserves get both tokens, and Alice one.
abbrev pub funded0 : Db
funded0 = db_of (mint_drc20 "dogi" "reserves" (pos 100000) "tx1" (pos 11) false genesis)

abbrev pub funded1 : Db
funded1 = db_of (mint_drc20 "woof" "reserves" (pos 200000) "tx2" (pos 12) false funded0)

abbrev pub funded : Db
funded = db_of (mint_drc20 "dogi" "alice" (pos 5000) "tx3" (pos 12) false funded1)

-- The tables of the stakes have an id, and that of the token orders has no column `amt_finish`.
abbrev pub columns : Schema
columns = record {
  exchange_collect_amt_finish = false;
  stake_revert_id = true;
  stake_reward_revert_id = true;
}
