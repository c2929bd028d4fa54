-- ===== src/Tests/SwapV2.antt =====
-- A pool of a DRC-20 and a meme20 token: an exchange and an addition.
use dogeuni_indexer.Prelude.{String, none, some, ◌≡◌, refl, [], ◌∷◌, arith}
use dogeuni_indexer.Prelude.Int.{pos, ◌+ℤ◌, ◌-ℤ◌, ◌*ℤ◌, ◌≤ℤ◌}
use dogeuni_indexer.Prelude.Div.{div_ℤ}
use dogeuni_indexer.Prelude.Result.{Result, ok, err}
use dogeuni_indexer.Models.{SwapV2Info, SwapV2Liquidity, Meme20Collect, Db}
use dogeuni_indexer.Tables.{first_where, update_first, update_where}
use dogeuni_indexer.Holders.{same_key, row_is, find_holder, set_amt_sum, create_missing}
use dogeuni_indexer.Holders.Balance.{balance}
use dogeuni_indexer.Tokens.{find_token, set_token}
use dogeuni_indexer.Drc20.{mint_drc20, transfer_drc20}
use dogeuni_indexer.Meme20.{
  is_holder, is_meme, with_row, set_amt, set_amt_and_count, set_meme, log_meme, transfer_meme20,
  mint_meme20,
}
use dogeuni_indexer.Meme20.Rows.{meme_balance, meme_supply}
use dogeuni_indexer.Ledger.{or_zero}
use dogeuni_indexer.Swap.{exec_out}
use dogeuni_indexer.SwapV2.{
  is_drc20, pay_v2, is_pair, reserve_v2, total_v2, refresh_v2, update_v2_liquidity, add_amounts_v2,
  add_liquidity_v2, oriented_v2, reserve_of_v2, swap_v2_add, swap_v2_exec,
}
use dogeuni_indexer.SwapV2.Pay.{funds}
use dogeuni_indexer.SwapV2.Exchange.{IsCovered, swap_v2_exec_product}
use dogeuni_indexer.SwapV2.Addition.{IsPool, swap_v2_add_takes}
use dogeuni_indexer.Tests.Data.{funded, genesis}
use dogeuni_indexer.Tests.Drc20.{differ}

-- Two ids of 64 characters.
abbrev meme_id : String
meme_id = "memememememememememememememememememememememememememememememememe"

abbrev share_id : String
share_id = "pairpairpairpairpairpairpairpairpairpairpairpairpairpairpairpair"

abbrev meme_token : String → Meme20Collect
meme_token tick_id = record {
  tick_id = tick_id;
  tick = "MEME";
  name = "a meme";
  max = pos 10000;
  dec = 8;
  holder_address = "creator";
  transactions = 1;
}

abbrev pair : SwapV2Liquidity
pair = record {
  pair_id = share_id;
  tick0_id = "dogi";
  tick1_id = meme_id;
  tick0 = "dogi";
  tick1 = "MEME";
  amt0 = pos 100000;
  amt1 = pos 2000;
  liquidity_total = pos 10000;
  reserves_address = "reserves";
  holder_address = "creator";
}

abbrev paired : Db
paired = record funded {
  meme20_collect = meme_token meme_id ∷ meme_token share_id ∷ [];
  meme20_collect_address =
      record { tick_id = meme_id; amt = pos 2000; holder_address = "reserves"; transactions = 1 }
      ∷ record { tick_id = meme_id; amt = pos 500; holder_address = "alice"; transactions = 1 }
      ∷ [];
  swap_v2_liquidity = pair ∷ [];
}

abbrev pub order : SwapV2Info
order = record {
  op = "swap";
  pair_id = share_id;
  tick0 = "dogi";
  tick0_id = "dogi";
  tick1 = "";
  tick1_id = "";
  amt0 = pos 1000;
  amt1 = pos 0;
  amt0_min = pos 0;
  amt1_min = pos 0;
  amt0_out = pos 0;
  amt1_out = pos 0;
  liquidity = pos 0;
  doge = pos 0;
  holder_address = "alice";
  tx_hash = "tx40";
  tx_index = pos 0;
  block_number = pos 40;
  err_info = none;
  order_status = pos 1;
}

abbrev outcome : Result (SwapV2Info × Db) → SwapV2Info × Db
outcome (ok p) = p
outcome (err e) = (order, genesis)

abbrev exchanged : SwapV2Info × Db
exchanged = outcome (swap_v2_exec order paired)

exchanged_ok : swap_v2_exec order paired ≡ ok (exchanged.0, exchanged.1)
unfolding swap_v2_exec oriented_v2 reserve_of_v2 exec_out div_ℤ pay_v2 is_drc20 is_pair first_where
    transfer_drc20 transfer_meme20 find_token find_holder row_is same_key set_amt_sum create_missing
    set_token is_holder is_meme with_row set_amt set_meme log_meme update_first update_where
    update_v2_liquidity refresh_v2 reserve_v2 total_v2 mint_drc20 ◌+ℤ◌ ◌-ℤ◌ ◌*ℤ◌
exchanged_ok = refl

pair_found : first_where (is_pair share_id) paired.swap_v2_liquidity ≡ some pair
unfolding first_where is_pair
pair_found = refl

pair-IsCovered : IsCovered paired pair
unfolding funds is_drc20 balance meme_balance first_where is_holder same_key mint_drc20 find_token
    find_holder row_is set_amt_sum create_missing set_token ◌+ℤ◌
pair-IsCovered = record {
  apart = differ "dogi" meme_id refl;
  positive0 = omega arith;
  positive1 = omega arith;
  covered0 = omega arith;
  covered1 = omega arith;
}

swap_v2_exec_product_example :
    (pos 100000 *ℤ pos 2000
      ≤ℤ funds "dogi" "reserves" exchanged.1 *ℤ funds meme_id "reserves" exchanged.1)
    × (funds "dogi" "alice" exchanged.1 ≡ funds "dogi" "alice" paired -ℤ pos 1000)
    × (funds exchanged.0.tick1_id "alice" exchanged.1
        ≡ funds exchanged.0.tick1_id "alice" paired +ℤ exchanged.0.amt1_out)
swap_v2_exec_product_example =
    swap_v2_exec_product order exchanged.0 paired exchanged.1 pair pair_found pair-IsCovered
      exchanged_ok

abbrev offer : SwapV2Info
offer = record order {
  op = "add";
  amt0 = pos 2000;
  amt1 = pos 300;
  tick0_id = "";
  tx_hash = "tx41";
}

abbrev vault : String → String
vault pair_id = "reserves"

abbrev added : SwapV2Info × Db
added = outcome (swap_v2_add vault offer paired)

added_ok : swap_v2_add vault offer paired ≡ ok (added.0, added.1)
unfolding swap_v2_add add_amounts_v2 add_liquidity_v2 div_ℤ pay_v2 is_drc20 is_pair first_where
    transfer_drc20 transfer_meme20 find_token find_holder row_is same_key set_amt_sum create_missing
    set_token is_holder is_meme with_row set_amt set_amt_and_count set_meme log_meme update_first
    update_where mint_meme20 update_v2_liquidity refresh_v2 reserve_v2 total_v2 mint_drc20 ◌+ℤ◌ ◌-ℤ◌
    ◌*ℤ◌
added_ok = refl

pair-IsPool : IsPool pair
pair-IsPool = record {
  apart = differ "dogi" meme_id refl;
  shares0 = differ share_id "dogi" refl;
  shares1 = differ share_id meme_id refl;
  positive0 = omega arith;
  positive1 = omega arith;
  total = omega arith;
}

swap_v2_add_takes_example :
    (funds "dogi" "alice" added.1 ≡ funds "dogi" "alice" paired -ℤ pos 2000)
    × (funds meme_id "alice" added.1 ≡ funds meme_id "alice" paired -ℤ pos 300)
    × (funds "dogi" "reserves" added.1 ≡ funds "dogi" "reserves" paired +ℤ pos 2000)
    × (funds meme_id "reserves" added.1 ≡ funds meme_id "reserves" paired +ℤ pos 300)
    × (meme_balance share_id "alice" added.1.meme20_collect_address
        ≡ meme_balance share_id "alice" paired.meme20_collect_address +ℤ added.0.liquidity)
    × (meme_supply share_id added.1.meme20_collect
        ≡ some (or_zero (meme_supply share_id paired.meme20_collect) +ℤ added.0.liquidity))
    × (added.0.liquidity *ℤ pos 100000 ≤ℤ pos 2000 *ℤ pos 10000)
    × (added.0.liquidity *ℤ pos 2000 ≤ℤ pos 300 *ℤ pos 10000)
swap_v2_add_takes_example =
    swap_v2_add_takes vault offer added.0 paired added.1 pair pair_found pair-IsPool added_ok
