-- ===== src/Exchange.antt =====
-- storage/exchange.go: orders that offer one token for another, and `exchangeFork` of
-- explorer/exchange.go.
pub mod Trade
pub mod Orders
pub mod Cancel
use dogeuni_indexer.Prelude.{String, Bool, true, false, List, [], ◌∷◌, ◌++◌, ◌==◌, if◌then◌else◌}
use dogeuni_indexer.Prelude.Int.{ℤ, pos, ◌+ℤ◌, ◌-ℤ◌, ◌*ℤ◌, ltb_ℤ}
use dogeuni_indexer.Prelude.Div.{div_ℤ}
use dogeuni_indexer.Prelude.Result.{Result, ok, ◌>>=◌, or_err, no_row}
use dogeuni_indexer.Models.{ExchangeInfo, ExchangeCollect, ExchangeRevert, Db}
use dogeuni_indexer.Tables.{find_where, first_where, update_where, delete_where}
use dogeuni_indexer.Drc20.{transfer_drc20}

-- `Where("ex_id = ?")`
abbrev pub has_id : String → ExchangeCollect → Bool
has_id ex_id c = c.ex_id == ex_id

abbrev pub find_order : String → Db → Result ExchangeCollect
find_order ex_id db = or_err (first_where (has_id ex_id) db.exchange_collect) no_row

-- The row that an operation logs. Its `BlockNumber` is not set, which stores 0.
abbrev pub revert_row : String → ExchangeInfo → ℤ → ℤ → ExchangeRevert
revert_row op ex amt0 amt1 = record {
  op = op;
  ex_id = ex.ex_id;
  amt0 = amt0;
  amt1 = amt1;
  tx_hash = ex.tx_hash;
  block_number = pos 0;
}

unfoldable pub exchange_create : ExchangeInfo → String → Db → Result Db
exchange_create ex reserves_address db = do
  let ec : ExchangeCollect = record {
    ex_id = ex.ex_id;
    tick0 = ex.tick0;
    tick1 = ex.tick1;
    amt0 = ex.amt0;
    amt1 = ex.amt1;
    amt0_finish = pos 0;
    amt1_finish = pos 0;
    holder_address = ex.holder_address;
    reserves_address = reserves_address;
  }
  db' ←
      transfer_drc20 ex.tick0 ex.holder_address reserves_address ex.amt0 ex.tx_hash ex.block_number
        false (record db { exchange_collect = db.exchange_collect ++ ec ∷ [] })
  ok (record db' { exchange_revert = revert_row "create" ex (pos 0) (pos 0) ∷ db'.exchange_revert })

-- What a trade gives for the amount that it brings: its share of the offer, and at most the rest.
unfoldable pub trade_out : ExchangeInfo → ExchangeCollect → Result ℤ
trade_out ex exc = do
  let rest = exc.amt0 -ℤ exc.amt0_finish
  amt0_out ← div_ℤ (ex.amt1 *ℤ exc.amt0) exc.amt1
  ok (if ltb_ℤ rest amt0_out then rest else amt0_out)

unfoldable pub exchange_trade : ExchangeInfo → Db → Result (ExchangeInfo × Db)
exchange_trade ex db = do
  exc ← find_order ex.ex_id db
  amt0_out ← trade_out ex exc
  let finish = λ (c : ExchangeCollect). record c {
    amt0_finish = exc.amt0_finish +ℤ amt0_out;
    amt1_finish = exc.amt1_finish +ℤ ex.amt1;
  }
  db1 ←
      transfer_drc20 exc.tick1 ex.holder_address exc.holder_address ex.amt1 ex.tx_hash
        ex.block_number false
        (record db {
          exchange_collect = update_where (has_id ex.ex_id) finish db.exchange_collect;
          exchange_revert = revert_row "trade" ex amt0_out ex.amt1 ∷ db.exchange_revert;
        })
  db2 ←
      transfer_drc20 exc.tick0 exc.reserves_address ex.holder_address amt0_out ex.tx_hash
        ex.block_number false db1
  ok (record ex { tick0 = exc.tick0; tick1 = exc.tick1; amt0 = amt0_out }, db2)

unfoldable pub exchange_cancel : ExchangeInfo → Db → Result (ExchangeInfo × Db)
exchange_cancel ex db = do
  exc ← find_order ex.ex_id db
  db' ←
      transfer_drc20 exc.tick0 exc.reserves_address ex.holder_address ex.amt0 ex.tx_hash
        ex.block_number false db
  let finish = λ (c : ExchangeCollect). record c { amt0_finish = exc.amt0_finish +ℤ ex.amt0 }
  ok (
    record ex { tick0 = exc.tick0; tick1 = exc.tick1 },
    record db' {
      exchange_collect = update_where (has_id ex.ex_id) finish db'.exchange_collect;
      exchange_revert = revert_row "cancel" ex ex.amt0 (pos 0) ∷ db'.exchange_revert;
    },
  )

-- The body of the loop in `exchangeFork`.
unfoldable pub undo : ExchangeRevert → Db → Result Db
undo r db =
    if r.op == "create"
    then ok (record db { exchange_collect = delete_where (has_id r.ex_id) db.exchange_collect })
    else if r.op == "trade"
    then (do
      ec ← find_order r.ex_id db
      let back = λ (c : ExchangeCollect). record c {
        amt0_finish = ec.amt0_finish -ℤ r.amt0;
        amt1_finish = ec.amt1_finish -ℤ r.amt1;
      }
      ok (record db { exchange_collect = update_where (has_id r.ex_id) back db.exchange_collect }))
    else if r.op == "cancel"
    then (do
      ec ← find_order r.ex_id db
      let back = λ (c : ExchangeCollect). record c { amt0_finish = ec.amt0_finish +ℤ r.amt0 }
      ok (record db { exchange_collect = update_where (has_id r.ex_id) back db.exchange_collect }))
    else ok db

unfoldable pub reverts_above : ℤ → List ExchangeRevert → List ExchangeRevert
reverts_above height = find_where (λ (r : ExchangeRevert). ltb_ℤ height r.block_number)

unfoldable pub undo_all : List ExchangeRevert → Db → Result Db
undo_all [] db = ok db
undo_all (r ∷ log) db = undo r db >>= λ db'. undo_all log db'

unfoldable pub exchange_fork : ℤ → Db → Result Db
exchange_fork height db = undo_all (reverts_above height db.exchange_revert) db
