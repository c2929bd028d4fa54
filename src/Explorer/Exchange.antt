-- ===== src/Explorer/Exchange.antt =====
-- explorer/exchange.go's handlers and the order checks of explorer/verifys.go, with `executeOrderV1`
-- and the "order-v1" branch of `scan` (explorer/scanner.go).
pub mod Solid
use dogeuni_indexer.Prelude.{String, Bool, true, false, some, List, ◌==◌, if◌then◌else◌, ◌||◌}
use dogeuni_indexer.Prelude.Int.{pos, leb_ℤ}
use dogeuni_indexer.Prelude.Result.{
  Result, ok, err, ◌>>=◌, ◌>>◌, fail_if, or_err, bad_amount, no_row, same_address, unsupported_op,
}
use dogeuni_indexer.Models.{ExchangeInfo, ExchangeCollect, Db}
use dogeuni_indexer.Tables.{update_where}
use dogeuni_indexer.Tokens.{find_token}
use dogeuni_indexer.Exchange.{find_order, exchange_create, exchange_trade, exchange_cancel}

unfoldable pub verify_exchange_create : ExchangeInfo → Db → Result (Unit {0})
verify_exchange_create ex db = do
  or_err (find_token ex.tick0 db.drc20_collect) no_row >>= λ _. ok tt
  or_err (find_token ex.tick1 db.drc20_collect) no_row >>= λ _. ok tt
  fail_if (leb_ℤ ex.amt0 (pos 0) || leb_ℤ ex.amt1 (pos 0)) bad_amount

unfoldable pub verify_exchange_trade : ExchangeInfo → Db → Result (Unit {0})
verify_exchange_trade ex db = do
  fail_if (leb_ℤ ex.amt1 (pos 0)) bad_amount
  exc ← find_order ex.ex_id db
  fail_if (exc.holder_address == ex.holder_address) same_address

unfoldable pub verify_exchange_cancel : ExchangeInfo → Db → Result (Unit {0})
verify_exchange_cancel ex db = do
  fail_if (leb_ℤ ex.amt0 (pos 0)) bad_amount
  find_order ex.ex_id db >>= λ _. ok tt

unfoldable pub verify_exchange : ExchangeInfo → Db → Result (Unit {0})
verify_exchange ex db =
    if ex.op == "create"
    then verify_exchange_create ex db
    else if ex.op == "trade"
    then verify_exchange_trade ex db
    else if ex.op == "cancel"
    then verify_exchange_cancel ex db
    else err unsupported_op

-- `Where("tx_hash = ?").Updates(...)` on `exchange_info`.
abbrev updated : ExchangeInfo → (ExchangeInfo → ExchangeInfo) → Db → Db
updated ex f db = record db {
  exchange_info = update_where (λ (i : ExchangeInfo). i.tx_hash == ex.tx_hash) f db.exchange_info;
}

unfoldable pub handle_trade : ExchangeInfo → Db → Result Db
handle_trade ex db = do
  r ← exchange_trade ex db
  let f = λ (i : ExchangeInfo). record i {
    order_status = pos 0;
    tick0 = r.0.tick0;
    tick1 = r.0.tick1;
    amt1 = r.0.amt1;
  }
  ok (updated r.0 f r.1)

-- A cancellation that fails is rolled back and reported as done.
unfoldable pub handle_cancel : ExchangeInfo → Db → Result Db
handle_cancel ex db = elim (exchange_cancel ex db) [
  | err e ↦ ok db
  | ok r ↦ ok (
      updated r.0
        (λ (i : ExchangeInfo). record i {
          order_status = pos 0;
          tick0 = r.0.tick0;
          tick1 = r.0.tick1;
        })
        r.1)
]

module _ (script_address : String → String) where
  unfoldable pub handle_create : ExchangeInfo → Db → Result Db
  handle_create ex db = do
    db' ← exchange_create ex (script_address ex.ex_id) db
    ok (updated ex (λ (i : ExchangeInfo). record i { order_status = pos 0 }) db')

  unfoldable pub execute_order_v1 : ExchangeInfo → Db → Result Db
  execute_order_v1 ex db = do
    verify_exchange ex db
    if ex.op == "create"
        then handle_create ex db
        else if ex.op == "trade"
        then handle_trade ex db
        else if ex.op == "cancel"
        then handle_cancel ex db
        else ok db

abbrev pub settle : ExchangeInfo → Db → Result Db → Db
settle ex db (ok db') = db'
settle ex db (err e) = record db {
  exchange_info =
      update_where (λ (i : ExchangeInfo). i.tx_hash == ex.tx_hash)
        (λ (i : ExchangeInfo). record i { err_info = some e }) db.exchange_info;
}

unfoldable pub scan_order_v1 : (String → String) → ExchangeInfo → Db → Db
scan_order_v1 script_address ex db = settle ex db (execute_order_v1 script_address ex db)
