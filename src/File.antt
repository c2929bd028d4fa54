-- ===== src/File.antt =====
-- storage/file.go and file_exchange.go with TransferFile of storage/common.go, and the fork
-- handlers of explorer/file.go and explorer/file_exchange.go.
pub mod Owner
pub mod Fork
pub mod Orders
use dogeuni_indexer.Prelude.{
  String, Bool, true, false, not, ◌&&◌, Option, none, some, List, [], ◌∷◌, ◌++◌, ◌==◌,
  if◌then◌else◌,
}
use dogeuni_indexer.Prelude.Int.{ℤ, pos, ltb_ℤ}
use dogeuni_indexer.Prelude.Result.{Result, ok, err, ◌>>=◌, or_err, no_row, no_column}
use dogeuni_indexer.Models.{
  Schema, FileInfo, FileCollectAddress, FileRevert, FileExchangeInfo, FileExchangeCollect,
  FileExchangeRevert, ExchangeCollect, Db,
}
use dogeuni_indexer.Tables.{find_where, first_where, update_where, update_first, delete_where}
use dogeuni_indexer.Drc20.{transfer_drc20}

unfoldable pub is_file : String → FileCollectAddress → Bool
is_file file_id r = r.file_id == file_id

unfoldable pub is_held_file : String → String → FileCollectAddress → Bool
is_held_file file_id holder r = r.file_id == file_id && r.holder_address == holder

-- `Update("holder_address", to)` of every row that fits, and no error where none does.
unfoldable pub give_file :
    String → String → String → List FileCollectAddress → List FileCollectAddress
give_file file_id src dst =
    update_where (is_held_file file_id src)
      (λ (r : FileCollectAddress). record r { holder_address = dst })

unfoldable pub transfer_file : String → String → String → String → ℤ → Bool → Db → Db
transfer_file src dst file_id tx_hash height fork db = record db {
  file_collect_address = give_file file_id src dst db.file_collect_address;
  file_revert =
      if fork
      then db.file_revert
      else record {
        from_address = src;
        to_address = dst;
        file_id = file_id;
        tx_hash = tx_hash;
        block_number = height;
      }
        ∷ db.file_revert;
}

unfoldable pub file_deploy : FileInfo → Db → Db
file_deploy file db = record db {
  file_collect_address =
      db.file_collect_address
      ++ record {
        file_id = file.file_id;
        file_path = file.file_path;
        holder_address = file.holder_address;
      }
        ∷ [];
  file_revert =
      record {
        from_address = "";
        to_address = file.to_address;
        file_id = file.file_id;
        tx_hash = "";
        block_number = file.block_number;
      }
      ∷ db.file_revert;
}

unfoldable pub file_transfer : FileInfo → Db → Db
file_transfer file db =
    transfer_file file.holder_address file.to_address file.file_id file.tx_hash file.block_number
      false db

-- The body of the loop in `fileFork`.
unfoldable pub undo_file : ℤ → FileRevert → Db → Db
undo_file height r db =
    if not (r.to_address == "") && r.from_address == ""
    then record db {
      file_collect_address =
          delete_where (is_held_file r.file_id r.to_address) db.file_collect_address;
    }
    else transfer_file r.to_address r.from_address r.file_id "" height true db

unfoldable pub undo_files : ℤ → List FileRevert → Db → Db
undo_files height [] db = db
undo_files height (r ∷ log) db = undo_files height log (undo_file height r db)

unfoldable pub files_above : ℤ → List FileRevert → List FileRevert
files_above height = find_where (λ (r : FileRevert). ltb_ℤ height r.block_number)

unfoldable pub file_fork : ℤ → Db → Db
file_fork height db = undo_files height (files_above height db.file_revert) db

-- File orders.
unfoldable pub is_token_order : String → ExchangeCollect → Bool
is_token_order ex_id c = c.ex_id == ex_id

unfoldable pub is_file_order : String → FileExchangeCollect → Bool
is_file_order ex_id c = c.ex_id == ex_id

abbrev pub file_order_revert : String → FileExchangeInfo → ℤ → FileExchangeRevert
file_order_revert op ex amt_finish = record {
  op = op;
  ex_id = ex.ex_id;
  file_id = ex.file_id;
  tick = ex.tick;
  amt = ex.amt;
  amt_finish = amt_finish;
  block_number = ex.block_number;
}

unfoldable pub file_exchange_create : FileExchangeInfo → String → Db → Result Db
file_exchange_create ex reserves_address db = do
  file ← or_err (first_where (is_file ex.file_id) db.file_collect_address) no_row
  let db' =
      transfer_file ex.holder_address reserves_address ex.file_id ex.tx_hash ex.block_number false
        db
  ok (record db' {
    file_exchange_collect =
        db'.file_exchange_collect
        ++ record {
          ex_id = ex.ex_id;
          file_id = ex.file_id;
          tick = ex.tick;
          amt = ex.amt;
          amt_finish = pos 0;
          holder_address = ex.holder_address;
          reserves_address = reserves_address;
        }
          ∷ [];
    file_exchange_revert = file_order_revert "create" ex (pos 0) ∷ db'.file_exchange_revert;
  })

-- `Update("amt_finish", exc.Amt)` of the order that was read, and the row of the log.
unfoldable pub finish_order : String → FileExchangeInfo → FileExchangeCollect → Db → Db
finish_order op ex exc db = record db {
  file_exchange_collect =
      update_first (is_file_order ex.ex_id)
        (λ (c : FileExchangeCollect). record c { amt_finish = exc.amt }) db.file_exchange_collect;
  file_exchange_revert = file_order_revert op ex exc.amt ∷ db.file_exchange_revert;
}

unfoldable pub file_exchange_trade : FileExchangeInfo → Db → Result Db
file_exchange_trade ex db = do
  exc ← or_err (first_where (is_file_order ex.ex_id) db.file_exchange_collect) no_row
  db1 ←
      transfer_drc20 exc.tick ex.holder_address exc.holder_address exc.amt ex.tx_hash
        ex.block_number false db
  let db2 =
      transfer_file exc.reserves_address ex.holder_address exc.file_id ex.tx_hash ex.block_number
        false db1
  ok (finish_order "trade" ex exc db2)

unfoldable pub file_exchange_cancel : FileExchangeInfo → Db → Result Db
file_exchange_cancel ex db = do
  exc ← or_err (first_where (is_file_order ex.ex_id) db.file_exchange_collect) no_row
  let db' =
      transfer_file exc.reserves_address exc.holder_address exc.file_id ex.tx_hash ex.block_number
        false db
  ok (finish_order "cancel" ex exc db')

-- `Update("amt_finish", 0)` on the table of `ExchangeCollect`, the token orders: an error where the
-- table has no such column, and otherwise a write that no statement reads.
unfoldable pub reset_token_order : Schema → Db → Result Db
reset_token_order schema db = if schema.exchange_collect_amt_finish then ok db else err no_column

-- The body of the loop in `fileExchangeFork`. It resets token orders, where file orders are meant.
unfoldable pub undo_file_order : Schema → FileExchangeRevert → Db → Result Db
undo_file_order schema r db =
    if r.op == "create"
    then ok (record db {
      file_exchange_collect = delete_where (is_file_order r.ex_id) db.file_exchange_collect;
    })
    else if r.op == "trade"
    then (or_err (first_where (is_file_order r.ex_id) db.file_exchange_collect) no_row >>= λ ec.
        reset_token_order schema db)
    else if r.op == "cancel"
    then (or_err (first_where (is_token_order r.ex_id) db.exchange_collect) no_row >>= λ ec.
        reset_token_order schema db)
    else ok db

unfoldable pub undo_file_orders : Schema → List FileExchangeRevert → Db → Result Db
undo_file_orders schema [] db = ok db
undo_file_orders schema (r ∷ log) db =
    undo_file_order schema r db >>= λ db'. undo_file_orders schema log db'

unfoldable pub file_orders_above : ℤ → List FileExchangeRevert → List FileExchangeRevert
file_orders_above height = find_where (λ (r : FileExchangeRevert). ltb_ℤ height r.block_number)

unfoldable pub file_exchange_fork : Schema → ℤ → Db → Result Db
file_exchange_fork schema height db =
    undo_file_orders schema (file_orders_above height db.file_exchange_revert) db
