-- ===== src/Tests/Shares.antt =====
-- Liquidity added to the test pool and taken from it.
use dogeuni_indexer.Prelude.{String, ◌≡◌, refl, false, some, arith}
use dogeuni_indexer.Prelude.Int.{pos, ◌+ℤ◌, ◌-ℤ◌, ◌*ℤ◌, ◌≤ℤ◌}
use dogeuni_indexer.Prelude.Div.{div_ℤ}
use dogeuni_indexer.Prelude.Result.{ok}
use dogeuni_indexer.Models.{SwapInfo, SwapLiquidity, Db}
use dogeuni_indexer.Holders.{same_key, row_is, find_holder, set_amt_sum, create_missing}
use dogeuni_indexer.Holders.Balance.{balance}
use dogeuni_indexer.Tables.{update_where}
use dogeuni_indexer.Tokens.{find_token, set_token}
use dogeuni_indexer.Tokens.Supply.{supply}
use dogeuni_indexer.Drc20.{mint_drc20, transfer_drc20, burn_drc20}
use dogeuni_indexer.Drc20.Balances.{held_by}
use dogeuni_indexer.Pools.{
  find_pool, refresh, refresh_amt0, refresh_amt1, refresh_total, refresh_pools, update_liquidity,
}
use dogeuni_indexer.Swap.{
  gtb_str, sort_tokens, pair_tick, reserve_of, exec_out, add_amounts, add_liquidity, remove_share,
  swap_exec, swap_add, swap_remove,
}
use dogeuni_indexer.Swap.Run.{IsCovered}
use dogeuni_indexer.Swap.Shares.{IsPool, KeepsShares, swap_add-KeepsShares}
use dogeuni_indexer.Swap.Removal.{swap_remove-KeepsShares}
use dogeuni_indexer.Explorer.Swap.{verify_swap, verify_swap_exec, handle_exec}
use dogeuni_indexer.Explorer.Swap.Execute.{execute_order}
use dogeuni_indexer.Explorer.Swap.Limits.{execute_order_exec}
use dogeuni_indexer.Tests.Data.{pool, funded, db_of}
use dogeuni_indexer.Tests.Drc20.{differ}
use dogeuni_indexer.Tests.Swap.{order, filled, pair_of}

abbrev lent : Db
lent = db_of (mint_drc20 "woof" "alice" (pos 5000) "tx20" (pos 13) false funded)

abbrev shared : Db
shared = db_of (mint_drc20 "dogi-SWAP-woof" "creator" (pos 141421) "tx21" (pos 13) false lent)

abbrev base : Db
base = update_liquidity "dogi-SWAP-woof" shared

abbrev base_pool : SwapLiquidity
base_pool = record pool { liquidity_total = pos 141421 }

abbrev script_of : String → String
script_of s = "reserves"

base_found : find_pool "dogi" "woof" base.swap_liquidity ≡ some base_pool
unfolding find_pool mint_drc20 find_token find_holder row_is same_key set_amt_sum create_missing
    set_token update_liquidity refresh_pools refresh refresh_amt0 refresh_amt1 refresh_total supply
    ◌+ℤ◌
base_found = refl

base-IsCovered : IsCovered base base_pool
unfolding balance mint_drc20 find_token find_holder row_is same_key set_amt_sum create_missing
    set_token update_liquidity ◌+ℤ◌
base-IsCovered = record {
  positive0 = omega arith;
  positive1 = omega arith;
  covered0 = omega arith;
  covered1 = omega arith;
}

base-IsPool : IsPool script_of base base_pool
unfolding pair_tick supply mint_drc20 find_token find_holder row_is same_key set_amt_sum
    create_missing set_token update_liquidity ◌+ℤ◌
base-IsPool = record {
  tick = refl;
  reserves = refl;
  apart = differ "dogi" "woof" refl;
  counted = refl;
  some_issued = omega arith;
}

abbrev adding : SwapInfo
adding = record order { op = "add"; amt1 = pos 3000; amt1_min = pos 0 }

abbrev added : SwapInfo
added = record adding { tick = "dogi-SWAP-woof"; amt0_out = pos 1000; amt1_out = pos 2000 }

abbrev larger : Db
larger = pair_of (swap_add script_of adding base)

larger_ok : swap_add script_of adding base ≡ ok (added, larger)
unfolding swap_add pair_tick add_amounts add_liquidity div_ℤ find_pool mint_drc20 transfer_drc20
    find_token find_holder row_is same_key set_amt_sum create_missing set_token update_liquidity
    refresh_pools refresh refresh_amt0 refresh_amt1 refresh_total supply ◌+ℤ◌ ◌-ℤ◌ ◌*ℤ◌
larger_ok = refl

swap_add-KeepsShares_example :
    (q : SwapLiquidity) × (find_pool "dogi" "woof" larger.swap_liquidity ≡ some q)
    × (pos 141421 ≤ℤ q.liquidity_total)
    × KeepsShares base_pool q
swap_add-KeepsShares_example =
    swap_add-KeepsShares script_of adding added base larger base_pool base_found base-IsCovered
      base-IsPool larger_ok

abbrev removing : SwapInfo
removing = record order { op = "remove"; liquidity = pos 1000; holder_address = "creator" }

abbrev removed : SwapInfo
removed = record removing { amt0_out = pos 707; amt1_out = pos 1414 }

abbrev smaller : Db
smaller = pair_of (swap_remove removing base)

smaller_ok : swap_remove removing base ≡ ok (removed, smaller)
unfolding swap_remove remove_share div_ℤ find_pool mint_drc20 transfer_drc20 burn_drc20 find_token
    find_holder row_is same_key set_amt_sum create_missing set_token update_liquidity refresh_pools
    refresh refresh_amt0 refresh_amt1 refresh_total supply ◌+ℤ◌ ◌-ℤ◌ ◌*ℤ◌
smaller_ok = refl

swap_remove-KeepsShares_example :
    (q : SwapLiquidity) × (find_pool "dogi" "woof" smaller.swap_liquidity ≡ some q)
    × (q.liquidity_total ≡ pos 141421 -ℤ pos 1000)
    × KeepsShares base_pool q
swap_remove-KeepsShares_example =
    swap_remove-KeepsShares script_of removing removed base smaller base_pool base_found
      base-IsCovered base-IsPool (omega arith) smaller_ok

abbrev executed : Db
executed = pair_of (execute_order script_of order base)

executed_ok : execute_order script_of order base ≡ ok (filled, executed)
unfolding execute_order verify_swap verify_swap_exec handle_exec update_where swap_exec sort_tokens
    gtb_str reserve_of exec_out div_ℤ find_pool mint_drc20 transfer_drc20 find_token find_holder
    row_is same_key set_amt_sum create_missing set_token update_liquidity refresh_pools refresh
    refresh_amt0 refresh_amt1 refresh_total supply ◌+ℤ◌ ◌-ℤ◌ ◌*ℤ◌
executed_ok = refl

execute_order_exec_example :
    (pos 1000 ≤ℤ pos 1974)
    × (pos 1 ≤ℤ pos 1000)
    × (held_by "dogi" "alice" executed ≡ held_by "dogi" "alice" base -ℤ pos 1000)
    × (held_by "woof" "alice" executed ≡ held_by "woof" "alice" base +ℤ pos 1974)
execute_order_exec_example =
    execute_order_exec script_of order filled base executed refl executed_ok
