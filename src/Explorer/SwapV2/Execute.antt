-- ===== src/Explorer/SwapV2/Execute.antt =====
-- explorer/scanner.go `executePairV2` and the "pair-v2" branch of `scan`, with `swapV2Fork` of
-- explorer/swap_v2.go. The deposit is committed before the orders are tried, and stays when one
-- fails.
use dogeuni_indexer.Prelude.{String, some, none, List, ◌∷◌, [], ◌==◌, if◌then◌else◌, ◌&&◌, ◌||◌}
use dogeuni_indexer.Prelude.Int.{ℤ, pos, ◌+ℤ◌, ltb_ℤ, eqb_ℤ}
use dogeuni_indexer.Prelude.Result.{Error, Result, ok, err, ◌>>=◌}
use dogeuni_indexer.Models.{SwapV2Info, SwapV2Revert, Meme20CollectAddress, WDogeInfo, Db}
use dogeuni_indexer.Tables.{update_where, delete_where}
use dogeuni_indexer.Meme20.{is_meme}
use dogeuni_indexer.SwapV2.{pair_of, is_pair, update_v2_liquidity_fork}
use dogeuni_indexer.Explorer.Wdoge.{wdoge_tick, wdoge_deposit_swap, wdoge_withdraw_swap}
use dogeuni_indexer.Explorer.Swap.Execute.{if_wdoge}
use dogeuni_indexer.Explorer.SwapV2.{
  verify_swap_v2, handle_create_v2, handle_add_v2, handle_remove_v2, handle_exec_v2,
}

-- An order that brings dogecoin to a pool is looked up first, a new pool's as well.
unfoldable pub with_pair : SwapV2Info → Db → Result SwapV2Info
with_pair swap db =
    if eqb_ℤ swap.doge (pos 1) && (swap.op == "create" || swap.op == "add")
    then (pair_of swap db >>= λ p.
        ok (record swap { tick0_id = p.tick0_id; tick1_id = p.tick1_id }))
    else ok swap

-- What one order adds to `dogeDepositAmt`.
unfoldable pub deposit_of_v2 : SwapV2Info → ℤ
deposit_of_v2 swap =
    if eqb_ℤ swap.doge (pos 1)
    then (if swap.op == "create" || swap.op == "add"
        then if_wdoge swap.tick0_id swap.amt0 +ℤ if_wdoge swap.tick1_id swap.amt1
        else if swap.op == "swap"
        then if_wdoge swap.tick0_id swap.amt0
        else pos 0)
    else pos 0

-- The first loop: the orders with their tokens, and the dogecoin that they bring.
unfoldable pub deposits_v2 : List SwapV2Info → Db → Result (List SwapV2Info × ℤ)
deposits_v2 [] db = ok ([], pos 0)
deposits_v2 (s ∷ ss) db = do
  s' ← with_pair s db
  r ← deposits_v2 ss db
  ok (s' ∷ r.0, deposit_of_v2 s' +ℤ r.1)

-- What one order, carried out, adds to `dogeWithdrawAmt`.
unfoldable pub withdrawal_of_v2 : SwapV2Info → ℤ
withdrawal_of_v2 swap =
    if eqb_ℤ swap.doge (pos 1)
    then (if swap.op == "remove"
        then if_wdoge swap.tick0_id swap.amt0_out +ℤ if_wdoge swap.tick1_id swap.amt1_out
        else if swap.op == "swap"
        then if_wdoge swap.tick1_id swap.amt1_out
        else pos 0)
    else pos 0

-- The row of a deposit or a withdrawal, for the first order's holder and transaction.
abbrev pub wdoge_row_v2 : String → SwapV2Info → ℤ → WDogeInfo
wdoge_row_v2 op swap amt = record {
  op = op;
  tick = wdoge_tick;
  amt = amt;
  holder_address = swap.holder_address;
  tx_hash = swap.tx_hash;
  block_number = swap.block_number;
  err_info = none;
  order_status = pos 0;
}

-- The first transaction: the deposit.
unfoldable pub deposit_first_v2 : SwapV2Info → ℤ → Db → Result Db
deposit_first_v2 first amt db =
    if ltb_ℤ (pos 0) amt
    then wdoge_deposit_swap (wdoge_row_v2 "deposit-swap" first amt) db
    else ok db

abbrev pub set_err_infos_v2 : String → Error → Db → Db
set_err_infos_v2 tx_hash e db = record db {
  swap_v2_info =
      update_where (λ (i : SwapV2Info). i.tx_hash == tx_hash)
        (λ (i : SwapV2Info). record i { err_info = some e }) db.swap_v2_info;
}

abbrev pub settle_v2 : String → Db → Result Db → Db
settle_v2 tx_hash db (ok db') = db'
settle_v2 tx_hash db (err e) = set_err_infos_v2 tx_hash e db

module _ (script_address : String → String) where
  unfoldable pub apply_order_v2 : SwapV2Info → Db → Result (SwapV2Info × Db)
  apply_order_v2 swap db =
      if swap.op == "create"
      then handle_create_v2 script_address swap db
      else if swap.op == "add"
      then handle_add_v2 script_address swap db
      else if swap.op == "remove"
      then handle_remove_v2 swap db
      else if swap.op == "swap"
      then handle_exec_v2 swap db
      else ok (swap, db)

  unfoldable pub execute_order_v2 : SwapV2Info → Db → Result (SwapV2Info × Db)
  execute_order_v2 swap db = verify_swap_v2 swap db >>= λ swap'. apply_order_v2 swap' db

  -- The loop over the orders, which sums what they withdraw.
  unfoldable pub execute_orders_v2 : List SwapV2Info → ℤ → Db → Result (ℤ × Db)
  execute_orders_v2 [] withdrawn db = ok (withdrawn, db)
  execute_orders_v2 (s ∷ ss) withdrawn db =
      execute_order_v2 s db >>= λ r. execute_orders_v2 ss (withdrawn +ℤ withdrawal_of_v2 r.0) r.1

  -- The second transaction: the orders, then the withdrawal.
  unfoldable pub orders_and_withdrawal_v2 : SwapV2Info → List SwapV2Info → Db → Result Db
  orders_and_withdrawal_v2 first swaps db = do
    r ← execute_orders_v2 swaps (pos 0) db
    if ltb_ℤ (pos 0) r.0
        then wdoge_withdraw_swap (wdoge_row_v2 "withdraw-swap" first r.0) r.1
        else ok r.1

  -- The database after both transactions, of a transaction with at least one order.
  unfoldable pub scan_pair_v2 : SwapV2Info → List SwapV2Info → Db → Db
  scan_pair_v2 first rest db = elim (deposits_v2 (first ∷ rest) db) [
    | err e ↦ set_err_infos_v2 first.tx_hash e db
    | ok (swaps, amt) ↦ elim (deposit_first_v2 first amt db) [
      | err e ↦ set_err_infos_v2 first.tx_hash e db
      | ok db1 ↦ settle_v2 first.tx_hash db1 (orders_and_withdrawal_v2 first swaps db1)
    ]
  ]

-- The loop of `swapV2Fork`: a pool that was created above the height goes, with its shares.
unfoldable pub drop_pairs : ℤ → List SwapV2Revert → Db → Db
drop_pairs height [] db = db
drop_pairs height (r ∷ log) db =
    let dropped = record db {
      swap_v2_liquidity = delete_where (is_pair r.pair_id) db.swap_v2_liquidity;
      meme20_collect = delete_where (is_meme r.pair_id) db.meme20_collect;
      meme20_collect_address =
          delete_where (λ (a : Meme20CollectAddress). a.tick_id == r.pair_id)
            db.meme20_collect_address;
    } in
    drop_pairs height log (if ltb_ℤ height r.block_number && r.op == "create" then dropped else db)

unfoldable pub swap_v2_fork : ℤ → Db → Db
swap_v2_fork height db = update_v2_liquidity_fork (drop_pairs height db.swap_v2_revert db)
