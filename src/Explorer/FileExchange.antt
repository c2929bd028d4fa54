-- ===== src/Explorer/FileExchange.antt =====
-- explorer/file_exchange.go and the checks of file orders in explorer/verifys.go, with
-- `executeOrderV2` and the branch of `scan` that calls it (explorer/scanner.go).
use dogeuni_indexer.Prelude.{String, not, some, ◌==◌, if◌then◌else◌}
use dogeuni_indexer.Prelude.Int.{pos, leb_ℤ, eqb_ℤ}
use dogeuni_indexer.Prelude.Result.{
  Result, ok, err, ◌>>=◌, ◌>>◌, fail_if, or_err, bad_amount, no_row, unsupported_op, not_holder,
  not_equal, same_address, same_tick,
}
use dogeuni_indexer.Models.{FileExchangeInfo, Db}
use dogeuni_indexer.Tables.{first_where, update_where}
use dogeuni_indexer.Tokens.{find_token}
use dogeuni_indexer.File.{
  is_held_file, is_file_order, file_exchange_create, file_exchange_trade, file_exchange_cancel,
}

-- `Where("tx_hash = ?").Update("order_status", 0)`, and the same of `err_info` for a failed message.
abbrev pub closed : String → Db → Db
closed tx_hash db = record db {
  file_exchange_info =
      update_where (λ (i : FileExchangeInfo). i.tx_hash == tx_hash)
        (λ (i : FileExchangeInfo). record i { order_status = pos 0 }) db.file_exchange_info;
}

abbrev pub settle : FileExchangeInfo → Db → Result Db → Db
settle m db (ok db') = db'
settle m db (err e) = record db {
  file_exchange_info =
      update_where (λ (i : FileExchangeInfo). i.tx_hash == m.tx_hash)
        (λ (i : FileExchangeInfo). record i { err_info = some e }) db.file_exchange_info;
}

unfoldable pub verify_file_exchange_create : FileExchangeInfo → Db → Result (Unit {0})
verify_file_exchange_create m db = do
  card ← or_err (find_token m.tick db.drc20_collect) no_row
  fail_if (leb_ℤ m.amt (pos 0)) bad_amount
  file ←
      or_err (first_where (is_held_file m.file_id m.holder_address) db.file_collect_address) no_row
  ok tt

-- It does not look at `amt_finish`.
unfoldable pub verify_file_exchange_trade : FileExchangeInfo → Db → Result (Unit {0})
verify_file_exchange_trade m db = do
  fail_if (leb_ℤ m.amt (pos 0)) bad_amount
  exc ← or_err (first_where (is_file_order m.ex_id) db.file_exchange_collect) no_row
  fail_if (not (eqb_ℤ m.amt exc.amt)) not_equal
  fail_if (not (m.tick == exc.tick)) same_tick
  fail_if (exc.holder_address == m.holder_address) same_address

unfoldable pub verify_file_exchange_cancel : FileExchangeInfo → Db → Result (Unit {0})
verify_file_exchange_cancel m db = do
  exc ← or_err (first_where (is_file_order m.ex_id) db.file_exchange_collect) no_row
  fail_if (not (exc.holder_address == m.holder_address)) not_holder

unfoldable pub verify_file_exchange : FileExchangeInfo → Db → Result (Unit {0})
verify_file_exchange m db =
    if m.op == "create"
    then verify_file_exchange_create m db
    else if m.op == "trade"
    then verify_file_exchange_trade m db
    else if m.op == "cancel"
    then verify_file_exchange_cancel m db
    else err unsupported_op

unfoldable pub handle_file_trade : FileExchangeInfo → Db → Result Db
handle_file_trade m db = do db' ← file_exchange_trade m db; ok (closed m.tx_hash db')

-- A cancellation that fails is rolled back and reported as done.
unfoldable pub handle_file_cancel : FileExchangeInfo → Db → Result Db
handle_file_cancel m db = elim (file_exchange_cancel m db) [
  | err e ↦ ok db
  | ok db' ↦ ok (closed m.tx_hash db')
]

module _ (script_address : String → String) where
  unfoldable pub handle_file_create : FileExchangeInfo → Db → Result Db
  handle_file_create m db = do
    db' ← file_exchange_create m (script_address m.ex_id) db
    ok (closed m.tx_hash db')

  unfoldable pub execute_order_v2 : FileExchangeInfo → Db → Result Db
  execute_order_v2 m db = do
    verify_file_exchange m db
    if m.op == "create"
        then handle_file_create m db
        else if m.op == "trade"
        then handle_file_trade m db
        else if m.op == "cancel"
        then handle_file_cancel m db
        else ok db

  unfoldable pub scan_order_v2 : FileExchangeInfo → Db → Db
  scan_order_v2 m db = settle m db (execute_order_v2 m db)
