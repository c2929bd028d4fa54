-- ===== src/Explorer/Wdoge.antt =====
-- explorer/wdoge.go and the wrapped-dogecoin checks of explorer/verifys.go, with `executeWdoge`
-- and the "wdoge" branch of `scan` (explorer/scanner.go).
pub mod Solid
use dogeuni_indexer.Prelude.{
  String, Bool, true, false, some, List, ◌∷◌, ◌++◌, [], ◌==◌, if◌then◌else◌,
}
use dogeuni_indexer.Prelude.Int.{ℤ, pos, ltb_ℤ, leb_ℤ}
use dogeuni_indexer.Prelude.Result.{
  Result, ok, err, ◌>>=◌, ◌>>◌, fail_if, or_err, bad_amount, below_min, no_row, insufficient,
  unsupported_op,
}
use dogeuni_indexer.Models.{WDogeInfo, Db}
use dogeuni_indexer.Tables.{update_where}
use dogeuni_indexer.Holders.{find_holder}
use dogeuni_indexer.Wdoge.{doge_deposit, doge_withdraw}

abbrev pub wdoge_tick : String
wdoge_tick = "WDOGE(WRAPPED-DOGE)"

unfoldable pub verify_wdoge_deposit : WDogeInfo → Db → Result (Unit {0})
verify_wdoge_deposit wdoge db = fail_if (leb_ℤ wdoge.amt (pos 0)) bad_amount

unfoldable pub verify_wdoge_withdraw : WDogeInfo → Db → Result (Unit {0})
verify_wdoge_withdraw wdoge db = do
  fail_if (leb_ℤ wdoge.amt (pos 0)) bad_amount
  fail_if (ltb_ℤ wdoge.amt (pos 100000000)) below_min
  holder ← or_err (find_holder wdoge_tick wdoge.holder_address db.drc20_collect_address) no_row
  fail_if (ltb_ℤ holder.amt_sum wdoge.amt) insufficient

unfoldable pub verify_wdoge : WDogeInfo → Db → Result (Unit {0})
verify_wdoge wdoge db =
    if wdoge.op == "deposit"
    then verify_wdoge_deposit wdoge db
    else if wdoge.op == "withdraw"
    then verify_wdoge_withdraw wdoge db
    else err unsupported_op

-- `Where("tx_hash = ?").Update("order_status", 0)`
abbrev closed : String → Db → Db
closed tx_hash db = record db {
  wdoge_info =
      update_where (λ (i : WDogeInfo). i.tx_hash == tx_hash)
        (λ (i : WDogeInfo). record i { order_status = pos 0 }) db.wdoge_info;
}

unfoldable pub wdoge_deposit : WDogeInfo → Db → Result Db
wdoge_deposit wdoge db = do db' ← doge_deposit wdoge db; ok (closed wdoge.tx_hash db')

unfoldable pub wdoge_withdraw : WDogeInfo → Db → Result Db
wdoge_withdraw wdoge db = do db' ← doge_withdraw wdoge db; ok (closed wdoge.tx_hash db')

-- The two that the exchanges of pools call; the row that they create is the message.
unfoldable pub wdoge_deposit_swap : WDogeInfo → Db → Result Db
wdoge_deposit_swap wdoge db = do
  db' ← doge_deposit wdoge db
  ok (record db' { wdoge_info = db'.wdoge_info ++ wdoge ∷ [] })

unfoldable pub wdoge_withdraw_swap : WDogeInfo → Db → Result Db
wdoge_withdraw_swap wdoge db = do
  db' ← doge_withdraw wdoge db
  ok (record db' { wdoge_info = db'.wdoge_info ++ wdoge ∷ [] })

unfoldable pub execute_wdoge : WDogeInfo → Db → Result Db
execute_wdoge wdoge db = do
  verify_wdoge wdoge db
  if wdoge.op == "deposit"
      then wdoge_deposit wdoge db
      else if wdoge.op == "withdraw"
      then wdoge_withdraw wdoge db
      else ok db

-- The branch of `scan` on a decoded message: a failed one leaves its error only.
abbrev pub settle : WDogeInfo → Db → Result Db → Db
settle wdoge db (ok db') = db'
settle wdoge db (err e) = record db {
  wdoge_info =
      update_where (λ (i : WDogeInfo). i.tx_hash == wdoge.tx_hash)
        (λ (i : WDogeInfo). record i { err_info = some e }) db.wdoge_info;
}

unfoldable pub scan_wdoge : WDogeInfo → Db → Db
scan_wdoge wdoge db = settle wdoge db (execute_wdoge wdoge db)
