-- ===== src/Tests/Swap.antt =====
-- An exchange on the test pool, and the amounts of the pool operations.
use dogeuni_indexer.Prelude.{none, ◌≡◌, refl, some, arith}
use dogeuni_indexer.Prelude.Int.{pos, ◌+ℤ◌, ◌-ℤ◌, ◌*ℤ◌, ◌≤ℤ◌}
use dogeuni_indexer.Prelude.Div.{div_ℤ, sqrt, sqrt_ℤ}
use dogeuni_indexer.Prelude.Result.{Result, ok, err}
use dogeuni_indexer.Models.{SwapInfo, SwapLiquidity, Db}
use dogeuni_indexer.Holders.{same_key, row_is, find_holder, set_amt_sum, create_missing}
use dogeuni_indexer.Holders.Balance.{balance}
use dogeuni_indexer.Tokens.{find_token, set_token}
use dogeuni_indexer.Tokens.Supply.{supply}
use dogeuni_indexer.Drc20.{mint_drc20, transfer_drc20}
use dogeuni_indexer.Drc20.Conservation.{IsBacked}
use dogeuni_indexer.Pools.{
  find_pool, refresh, refresh_amt0, refresh_amt1, refresh_total, refresh_pools, update_liquidity,
}
use dogeuni_indexer.Pools.Current.{IsCurrent}
use dogeuni_indexer.Swap.{
  gtb_str, sort_tokens, reserve_of, exec_out, swap_exec, remove_share, add_liquidity,
  first_liquidity,
}
use dogeuni_indexer.Swap.Amounts.{
  exec_out_product, remove_share_bounds, add_liquidity_bounds, first_liquidity_root,
}
use dogeuni_indexer.Swap.Run.{IsCovered}
use dogeuni_indexer.Swap.Exchange.{swap_exec_product}
use dogeuni_indexer.Tests.Data.{pool, genesis, funded}
use dogeuni_indexer.Tests.Drc20.{differ, funded-IsBacked}

abbrev pub order : SwapInfo
order = record {
  op = "swap";
  tick = "";
  tick0 = "dogi";
  tick1 = "woof";
  amt0 = pos 1000;
  amt1 = pos 0;
  amt0_min = pos 0;
  amt1_min = pos 1000;
  amt0_out = pos 0;
  amt1_out = pos 0;
  liquidity = pos 0;
  doge = pos 0;
  holder_address = "alice";
  tx_hash = "tx6";
  tx_index = pos 0;
  block_number = pos 14;
  err_info = none;
  order_status = pos 1;
}

abbrev pub filled : SwapInfo
filled = record order { amt1_out = pos 1974 }

abbrev pub pair_of : Result (SwapInfo × Db) → Db
pair_of (ok (s, db)) = db
pair_of (err e) = genesis

abbrev exchanged : Db
exchanged = pair_of (swap_exec order funded)

exchanged_ok : swap_exec order funded ≡ ok (filled, exchanged)
unfolding swap_exec sort_tokens gtb_str find_pool reserve_of exec_out div_ℤ mint_drc20
    transfer_drc20 find_token find_holder row_is same_key set_amt_sum create_missing set_token
    update_liquidity refresh_pools refresh refresh_amt0 refresh_amt1 refresh_total supply ◌+ℤ◌ ◌-ℤ◌
    ◌*ℤ◌
exchanged_ok = refl

pool_found :
    find_pool (sort_tokens order).tick0 (sort_tokens order).tick1 funded.swap_liquidity ≡ some pool
unfolding find_pool sort_tokens gtb_str mint_drc20 find_token set_token
pool_found = refl

pool-IsCovered : IsCovered funded pool
unfolding balance mint_drc20 find_token find_holder row_is same_key set_amt_sum create_missing
    set_token ◌+ℤ◌
pool-IsCovered = record {
  positive0 = omega arith;
  positive1 = omega arith;
  covered0 = omega arith;
  covered1 = omega arith;
}

swap_exec_product_example :
    IsBacked exchanged
    × ((q : SwapLiquidity) × (find_pool
            (sort_tokens order).tick0
            (sort_tokens order).tick1
            exchanged.swap_liquidity
          ≡ some q)
        × IsCurrent exchanged.drc20_collect_address q
        × (pos 100000 *ℤ pos 200000 ≤ℤ q.amt0 *ℤ q.amt1))
swap_exec_product_example =
    swap_exec_product order funded filled exchanged pool funded-IsBacked (differ "dogi" "woof" refl)
      pool_found pool-IsCovered exchanged_ok

exec_out_ok : exec_out (pos 1000) (pos 100000) (pos 200000) ≡ ok (pos 1974)
unfolding exec_out div_ℤ ◌+ℤ◌ ◌-ℤ◌ ◌*ℤ◌
exec_out_ok = refl

exec_out_product_example :
    (pos 0 ≤ℤ pos 1974)
    × (pos 1974 ≤ℤ pos 200000)
    × (pos 100000 *ℤ pos 200000 ≤ℤ (pos 100000 +ℤ pos 1000) *ℤ (pos 200000 -ℤ pos 1974))
exec_out_product_example =
    exec_out_product (pos 1000) (pos 100000) (pos 200000) (pos 1974) (omega arith) (omega arith)
      (omega arith) exec_out_ok

remove_share_ok : remove_share (pos 300) (pos 100000) (pos 141421) ≡ ok (pos 212)
unfolding remove_share div_ℤ ◌*ℤ◌
remove_share_ok = refl

remove_share_bounds_example :
    (pos 0 ≤ℤ pos 212) × (pos 212 *ℤ pos 141421 ≤ℤ pos 300 *ℤ pos 100000) × (pos 212 ≤ℤ pos 100000)
remove_share_bounds_example =
    remove_share_bounds (pos 300) (pos 100000) (pos 141421) (pos 212) (omega arith) (omega arith)
      (omega arith) remove_share_ok

abbrev old_pool : SwapLiquidity
old_pool = record pool { liquidity_total = pos 141421 }

add_liquidity_ok : add_liquidity (pos 1000) (pos 2000) old_pool ≡ ok (pos 1414)
unfolding add_liquidity div_ℤ ◌*ℤ◌
add_liquidity_ok = refl

add_liquidity_bounds_example :
    (pos 0 ≤ℤ pos 1414)
    × (pos 1414 *ℤ pos 100000 ≤ℤ pos 1000 *ℤ pos 141421)
    × (pos 1414 *ℤ pos 200000 ≤ℤ pos 2000 *ℤ pos 141421)
add_liquidity_bounds_example =
    add_liquidity_bounds (pos 1000) (pos 2000) (pos 1414) old_pool (omega arith) (omega arith)
      (omega arith) (omega arith) (omega arith) add_liquidity_ok

first_liquidity_ok : first_liquidity (pos 100000) (pos 200000) ≡ ok (pos 140421)
unfolding first_liquidity sqrt_ℤ sqrt ◌*ℤ◌ ◌-ℤ◌
first_liquidity_ok = refl

first_liquidity_root_example :
    (pos 1 ≤ℤ pos 140421)
    × ((pos 140421 +ℤ pos 1000) *ℤ (pos 140421 +ℤ pos 1000) ≤ℤ pos 100000 *ℤ pos 200000)
    × (pos 100000 *ℤ pos 200000 +ℤ pos 1 ≤ℤ (pos 140421 +ℤ pos 1001) *ℤ (pos 140421 +ℤ pos 1001))
first_liquidity_root_example =
    first_liquidity_root (pos 100000) (pos 200000) (pos 140421) (omega arith) (omega arith)
      first_liquidity_ok
