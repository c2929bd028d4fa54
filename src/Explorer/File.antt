-- ===== src/Explorer/File.antt =====
-- explorer/file.go and the file checks of explorer/verifys.go, with `executeFile` and the branch of
-- `scan` that calls it (explorer/scanner.go).
use dogeuni_indexer.Prelude.{String, some, ◌==◌, if◌then◌else◌}
use dogeuni_indexer.Prelude.Int.{pos}
use dogeuni_indexer.Prelude.Result.{Result, ok, err, ◌>>=◌, ◌>>◌, or_err, no_row, unsupported_op}
use dogeuni_indexer.Models.{FileInfo, Db}
use dogeuni_indexer.Tables.{first_where, update_where}
use dogeuni_indexer.File.{is_held_file, file_deploy, file_transfer}

-- `Where("tx_hash = ?").Update("order_status", 0)`, and the same of `err_info` for a failed message.
abbrev pub closed : String → Db → Db
closed tx_hash db = record db {
  file_info =
      update_where (λ (i : FileInfo). i.tx_hash == tx_hash)
        (λ (i : FileInfo). record i { order_status = pos 0 }) db.file_info;
}

abbrev pub settle : FileInfo → Db → Result Db → Db
settle m db (ok db') = db'
settle m db (err e) = record db {
  file_info =
      update_where (λ (i : FileInfo). i.tx_hash == m.tx_hash)
        (λ (i : FileInfo). record i { err_info = some e }) db.file_info;
}

unfoldable pub verify_file : FileInfo → Db → Result (Unit {0})
verify_file m db =
    if m.op == "deploy"
    then ok tt
    else if m.op == "transfer"
    then (or_err (first_where (is_held_file m.file_id m.holder_address) db.file_collect_address)
          no_row
        >>= λ fca. ok tt)
    else err unsupported_op

unfoldable pub execute_file : FileInfo → Db → Result Db
execute_file m db = do
  verify_file m db
  if m.op == "deploy"
      then ok (closed m.tx_hash (file_deploy m db))
      else if m.op == "transfer"
      then ok (closed m.tx_hash (file_transfer m db))
      else ok db

unfoldable pub scan_file : FileInfo → Db → Db
scan_file m db = settle m db (execute_file m db)
