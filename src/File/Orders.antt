-- ===== src/File/Orders.antt =====
-- storage/file_exchange.go `FileExchangeCreate` with explorer/file.go `fileFork` and
-- explorer/file_exchange.go `fileExchangeFork`: file orders that nobody has traded are undone.
use dogeuni_indexer.Prelude.{
  String, true, false, ◌≡◌, ◌≢◌, refl, sym, ap, ◌∙◌, none, some, List, [], ◌∷◌, ◌++◌, eq_iff, arith,
}
use dogeuni_indexer.Prelude.Int.{ℤ, pos, ltb_ℤ}
use dogeuni_indexer.Prelude.Result.{ok, or_err, no_row, >>=-eq-ok, ok-eq-ok}
use dogeuni_indexer.Models.{Schema, FileRevert, FileExchangeInfo, FileExchangeRevert, Db}
use dogeuni_indexer.Tables.{first_where, find_where, delete_where}
use dogeuni_indexer.Tables.Rows.{delete_where-append}
use dogeuni_indexer.File.{
  is_file, transfer_file, undo_file, undo_files, files_above, file_fork, is_file_order,
  file_order_revert, file_exchange_create, undo_file_order, undo_file_orders, file_orders_above,
  file_exchange_fork,
}
use dogeuni_indexer.File.Owner.{owned_by, new_order}
use dogeuni_indexer.File.Fork.{FileReach, here, next, undo_files-FileReach}

-- Orders made in blocks above a height, each with a new id and by the address that has the file.
pub data Listed (above : ℤ) (base : Db) : Db → Type 0 where
  start : Listed above base base
  list :
      {db db' : Db} (ex : FileExchangeInfo) (reserves : String)
      → Listed above base db
      → ltb_ℤ above ex.block_number ≡ true
      → ex.holder_address ≢ ""
      → owned_by ex.file_id db ≡ some ex.holder_address
      → first_where (is_file_order ex.ex_id) db.file_exchange_collect ≡ none
      → file_exchange_create ex reserves db ≡ ok db'
      → Listed above base db'

-- The four tables after an order.
record Made (ex : FileExchangeInfo) (reserves : String) (db db' : Db) : Type 0 where
  orders : db'.file_exchange_collect ≡ db.file_exchange_collect ++ new_order ex reserves ∷ []
  log : db'.file_exchange_revert ≡ file_order_revert "create" ex (pos 0) ∷ db.file_exchange_revert
  files :
      db'.file_collect_address
      ≡ (transfer_file ex.holder_address reserves ex.file_id ex.tx_hash ex.block_number false
          db).file_collect_address
  file_log :
      db'.file_revert
      ≡ (transfer_file ex.holder_address reserves ex.file_id ex.tx_hash ex.block_number false
          db).file_revert

create-Made :
    (ex : FileExchangeInfo) (reserves : String) (db db' : Db)
    → file_exchange_create ex reserves db ≡ ok db'
    → Made ex reserves db db'
unfolding file_exchange_create transfer_file
create-Made ex reserves db db' e =
    let (_, _, f) =
      >>=-eq-ok (or_err (first_where (is_file ex.file_id) db.file_collect_address) no_row) _ e in
    let made = sym (ok-eq-ok f) in
    record {
      orders = ap (λ (d : Db). d.file_exchange_collect) made;
      log = ap (λ (d : Db). d.file_exchange_revert) made;
      files = ap (λ (d : Db). d.file_collect_address) made;
      file_log = ap (λ (d : Db). d.file_revert) made;
    }

-- To the files, orders are transfers to the reserves.
Listed-FileReach :
    {above : ℤ} {base db : Db}
    → Listed above base db
    → (d : Db) × FileReach above base d
      × (d.file_collect_address ≡ db.file_collect_address)
      × (d.file_revert ≡ db.file_revert)
unfolding transfer_file
Listed-FileReach {base} start = (base, here, refl, refl)
Listed-FileReach (list {db} {db'} ex reserves l over named owns new e) =
    let (d, r, files, logs) = Listed-FileReach l in
    let made = create-Made ex reserves db db' e in
    (
      transfer_file ex.holder_address reserves ex.file_id ex.tx_hash ex.block_number false d,
      next ex.holder_address reserves ex.file_id ex.tx_hash ex.block_number r over named
          (rw files owns),
      rw (made.files, files) refl,
      rw (made.file_log, logs) refl,
    )

-- Undoing the files leaves the orders and their log.
undo_files_orders :
    (above : ℤ) (log : List FileRevert) (db : Db)
    → ((undo_files above log db).file_exchange_collect ≡ db.file_exchange_collect)
      × ((undo_files above log db).file_exchange_revert ≡ db.file_exchange_revert)
unfolding undo_files undo_file transfer_file
undo_files_orders above [] db = (refl, refl)
undo_files_orders above (r ∷ log) db =
    let (orders, logs) = undo_files_orders above log (undo_file above r db) in
    (ground (arith, orders), ground (arith, logs))

undo_created :
    (schema : Schema) (ex : FileExchangeInfo) (log : List FileExchangeRevert) (a : Db)
    → undo_file_orders schema (file_order_revert "create" ex (pos 0) ∷ log) a
      ≡ undo_file_orders schema log (record a {
        file_exchange_collect = delete_where (is_file_order ex.ex_id) a.file_exchange_collect;
      })
unfolding undo_file_orders undo_file_order
undo_created schema ex log a = refl

undo_file_orders-Listed :
    {above : ℤ} {base db : Db} (schema : Schema)
    → file_orders_above above base.file_exchange_revert ≡ []
    → Listed above base db
    → (a : Db) → a.file_exchange_collect ≡ db.file_exchange_collect
    → (a' : Db) × (undo_file_orders schema (file_orders_above above db.file_exchange_revert) a
        ≡ ok a')
      × (a'.file_exchange_collect ≡ base.file_exchange_collect)
      × (a'.file_collect_address ≡ a.file_collect_address)
undo_file_orders-Listed schema old start a same =
    (a, rw old (unfold undo_file_orders in refl), same, refl)
undo_file_orders-Listed {above} schema old (list {db} {db'} ex reserves l over named owns new e) a
      same =
    let made = create-Made ex reserves db db' e in
    let a1 = record a {
      file_exchange_collect = delete_where (is_file_order ex.ex_id) a.file_exchange_collect;
    } in
    let deleted : a1.file_exchange_collect ≡ db.file_exchange_collect =
      rw (same, made.orders)
        (delete_where-append (is_file_order ex.ex_id) (new_order ex reserves) _ new
          (unfold is_file_order in ground (arith, eq_iff ex.ex_id ex.ex_id))) in
    let (a', run, orders, files) = undo_file_orders-Listed schema old l a1 deleted in
    let first : file_orders_above above db'.file_exchange_revert
        ≡ file_order_revert "create" ex (pos 0) ∷ file_orders_above above db.file_exchange_revert =
      rw made.log (unfold file_orders_above find_where in rw over refl) in
    (a', rw (first, undo_created schema ex _ a) run, orders, files)

-- From a database whose logs of the files and of the file orders have no row above the height: after
-- any orders of files made in blocks above the height, each with a new id and by the address that has
-- the file, which is not empty, the fork of the files to the height and then that of the file orders
-- succeed, whatever columns the table of the token orders has; the file orders are those of before, and
-- every file has its holder of before.
pub file_orders_undone :
    (schema : Schema) (above : ℤ) (base db : Db)
    → files_above above base.file_revert ≡ []
    → file_orders_above above base.file_exchange_revert ≡ []
    → Listed above base db
    → (db' : Db) × (file_exchange_fork schema above (file_fork above db) ≡ ok db')
      × (db'.file_exchange_collect ≡ base.file_exchange_collect)
      × ((f : String) → owned_by f db' ≡ owned_by f base)
unfolding file_exchange_fork file_fork
file_orders_undone schema above base db old old_orders l =
    let (d, r, files, logs) = Listed-FileReach l in
    let undone = undo_files above (files_above above db.file_revert) db in
    let (kept, kept_log) = undo_files_orders above (files_above above db.file_revert) db in
    let (db', run, orders, same) = undo_file_orders-Listed schema old_orders l undone kept in
    (
      db',
      ap
            (λ (log : List FileExchangeRevert).
              undo_file_orders schema (file_orders_above above log) undone)
            kept_log
          ∙ run,
      orders,
      λ f. rw same (rw logs at (undo_files-FileReach old r db (λ f'. rw files refl) f)),
    )
