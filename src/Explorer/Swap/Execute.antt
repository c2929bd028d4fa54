-- ===== src/Explorer/Swap/Execute.antt =====
-- explorer/scanner.go `executePairV1` and the "pair-v1" branch of `scan`: the orders of one
-- transaction, with the dogecoin that it deposits before them and withdraws after them. The deposit
-- is committed before the orders are tried, and stays when one fails.
use dogeuni_indexer.Prelude.{String, some, none, List, ◌∷◌, [], ◌==◌, if◌then◌else◌, ◌||◌}
use dogeuni_indexer.Prelude.Int.{ℤ, pos, ◌+ℤ◌, ltb_ℤ, eqb_ℤ}
use dogeuni_indexer.Prelude.Result.{Error, Result, ok, err, ◌>>=◌, ◌>>◌}
use dogeuni_indexer.Models.{SwapInfo, WDogeInfo, Db}
use dogeuni_indexer.Tables.{update_where}
use dogeuni_indexer.Explorer.Wdoge.{wdoge_tick, wdoge_deposit_swap, wdoge_withdraw_swap}
use dogeuni_indexer.Explorer.Swap.{
  verify_swap, handle_create, handle_add, handle_remove, handle_exec,
}

-- The amount, where the token is the wrapped dogecoin.
unfoldable pub if_wdoge : String → ℤ → ℤ
if_wdoge tick amt = if tick == wdoge_tick then amt else pos 0

-- What one order adds to `dogeDepositAmt`.
unfoldable pub deposit_of : SwapInfo → ℤ
deposit_of swap =
    if eqb_ℤ swap.doge (pos 1)
    then (if swap.op == "create" || swap.op == "add"
        then if_wdoge swap.tick0 swap.amt0 +ℤ if_wdoge swap.tick1 swap.amt1
        else if swap.op == "swap"
        then if_wdoge swap.tick0 swap.amt0
        else pos 0)
    else pos 0

unfoldable pub deposits : List SwapInfo → ℤ
deposits [] = pos 0
deposits (s ∷ ss) = deposit_of s +ℤ deposits ss

-- What one order, carried out, adds to `dogeWithdrawAmt`.
unfoldable pub withdrawal_of : SwapInfo → ℤ
withdrawal_of swap =
    if eqb_ℤ swap.doge (pos 1)
    then (if swap.op == "remove"
        then if_wdoge swap.tick0 swap.amt0_out +ℤ if_wdoge swap.tick1 swap.amt1_out
        else if swap.op == "swap"
        then if_wdoge swap.tick1 swap.amt1_out
        else pos 0)
    else pos 0

-- The row of a deposit or a withdrawal, for the first order's holder and transaction.
abbrev wdoge_row : String → SwapInfo → ℤ → WDogeInfo
wdoge_row op swap amt = record {
  op = op;
  tick = wdoge_tick;
  amt = amt;
  holder_address = swap.holder_address;
  tx_hash = swap.tx_hash;
  block_number = swap.block_number;
  err_info = none;
  order_status = pos 0;
}

abbrev pub deposit_row : SwapInfo → ℤ → WDogeInfo
deposit_row swap amt = wdoge_row "deposit-swap" swap amt

abbrev pub withdraw_row : SwapInfo → ℤ → WDogeInfo
withdraw_row swap amt = wdoge_row "withdraw-swap" swap amt

-- The first transaction: the deposit.
unfoldable pub deposit_first : SwapInfo → List SwapInfo → Db → Result Db
deposit_first first swaps db =
    if ltb_ℤ (pos 0) (deposits swaps)
    then wdoge_deposit_swap (deposit_row first (deposits swaps)) db
    else ok db

-- `Update("err_info", err.Error())` on the transaction's rows.
unfoldable pub set_err_infos : String → Error → Db → Db
set_err_infos tx_hash e db = record db {
  swap_info =
      update_where (λ (i : SwapInfo). i.tx_hash == tx_hash)
        (λ (i : SwapInfo). record i { err_info = some e }) db.swap_info;
}

abbrev pub settle : String → Db → Result Db → Db
settle tx_hash db (ok db') = db'
settle tx_hash db (err e) = set_err_infos tx_hash e db

module _ (script_address : String → String) where
  unfoldable pub execute_order : SwapInfo → Db → Result (SwapInfo × Db)
  execute_order swap db = do
    verify_swap swap db
    if swap.op == "create"
        then handle_create script_address swap db
        else if swap.op == "add"
        then handle_add script_address swap db
        else if swap.op == "remove"
        then handle_remove swap db
        else if swap.op == "swap"
        then handle_exec swap db
        else ok (swap, db)

  -- The loop over the orders, which sums what they withdraw.
  unfoldable pub execute_orders : List SwapInfo → ℤ → Db → Result (ℤ × Db)
  execute_orders [] withdrawn db = ok (withdrawn, db)
  execute_orders (s ∷ ss) withdrawn db =
      execute_order s db >>= λ r. execute_orders ss (withdrawn +ℤ withdrawal_of r.0) r.1

  -- The second transaction: the orders, then the withdrawal.
  unfoldable pub orders_and_withdrawal : SwapInfo → List SwapInfo → Db → Result Db
  orders_and_withdrawal first swaps db = do
    r ← execute_orders swaps (pos 0) db
    if ltb_ℤ (pos 0) r.0 then wdoge_withdraw_swap (withdraw_row first r.0) r.1 else ok r.1

  -- The database after both transactions, of a transaction with at least one order.
  unfoldable pub scan_pair_v1 : SwapInfo → List SwapInfo → Db → Db
  scan_pair_v1 first rest db = elim (deposit_first first (first ∷ rest) db) [
    | err e ↦ set_err_infos first.tx_hash e db
    | ok db1 ↦ settle first.tx_hash db1 (orders_and_withdrawal first (first ∷ rest) db1)
  ]
