-- ===== src/File/Fork.antt =====
-- explorer/file.go `fileFork` and explorer/file_exchange.go `fileExchangeFork`: files come back to
-- their holders, and what a fork of the file orders that succeeds has in its log.
use dogeuni_indexer.Prelude.{
  String, Bool, true, false, ◌≡◌, ◌≢◌, refl, some, List, [], ◌∷◌, ◌==◌, eq_iff, if◌then◌else◌,
  arith,
}
use dogeuni_indexer.Prelude.Int.{ℤ, ltb_ℤ}
use dogeuni_indexer.Prelude.Result.{ok, >>=-eq-ok}
use dogeuni_indexer.Models.{Schema, FileRevert, FileExchangeRevert, Db}
use dogeuni_indexer.Tables.{find_where}
use dogeuni_indexer.File.{
  transfer_file, undo_file, undo_files, files_above, file_fork, undo_file_order, reset_token_order,
  undo_file_orders,
}
use dogeuni_indexer.File.Owner.{owned_by, passed_on, owner-give_file}

-- Transfers of files in blocks above a height, by those who have them, one after the other.
pub data FileReach (above : ℤ) (base : Db) : Db → Type 0 where
  here : FileReach above base base
  next :
      {db : Db} (src dst file_id tx_hash : String) (height : ℤ)
      → FileReach above base db
      → ltb_ℤ above height ≡ true
      → src ≢ ""
      → owned_by file_id db ≡ some src
      → FileReach above base (transfer_file src dst file_id tx_hash height false db)

owner-transfer_file :
    (f src dst file_id tx_hash : String) (height : ℤ) (fork : Bool) (db : Db)
    → owned_by f (transfer_file src dst file_id tx_hash height fork db)
      ≡ (if file_id == f then passed_on src dst (owned_by f db) else owned_by f db)
unfolding transfer_file
owner-transfer_file f src dst file_id tx_hash height fork db =
    owner-give_file file_id f src dst db.file_collect_address

abbrev transferred : String → String → String → String → ℤ → FileRevert
transferred src dst file_id tx_hash height = record {
  from_address = src;
  to_address = dst;
  file_id = file_id;
  tx_hash = tx_hash;
  block_number = height;
}

undo_transferred :
    (above : ℤ) (src dst file_id tx_hash : String) (height : ℤ) (a : Db)
    → src ≢ ""
    → undo_file above (transferred src dst file_id tx_hash height) a
      ≡ transfer_file dst src file_id "" above true a
unfolding undo_file
undo_transferred above src dst file_id tx_hash height a ne = ground (arith, eq_iff src "")

files_above-transfer :
    (above : ℤ) (src dst file_id tx_hash : String) (height : ℤ) (db : Db)
    → ltb_ℤ above height ≡ true
    → files_above above (transfer_file src dst file_id tx_hash height false db).file_revert
      ≡ transferred src dst file_id tx_hash height ∷ files_above above db.file_revert
unfolding transfer_file find_where files_above
files_above-transfer above src dst file_id tx_hash height db over = rw over refl

-- The holders after a transfer and its way back.
back :
    (above : ℤ) (f src dst file_id tx_hash : String) (height : ℤ) (a db : Db)
    → owned_by file_id db ≡ some src
    → ((f' : String)
        → owned_by f' a ≡ owned_by f' (transfer_file src dst file_id tx_hash height false db))
    → owned_by f (transfer_file dst src file_id "" above true a) ≡ owned_by f db
back above f src dst file_id tx_hash height a db owns same = ground (
  arith,
  owner-transfer_file f dst src file_id "" above true a,
  same f,
  owner-transfer_file f src dst file_id tx_hash height false db,
  eq_iff file_id f,
  eq_iff src src,
  eq_iff dst dst,
  owns,
)

undo_files-cons :
    (above : ℤ) (row : FileRevert) (log : List FileRevert) (a b : Db)
    → undo_file above row a ≡ b
    → undo_files above (row ∷ log) a ≡ undo_files above log b
unfolding undo_files
undo_files-cons above row log a b e = rw e refl

pub undo_files-FileReach :
    {above : ℤ} {base db : Db}
    → files_above above base.file_revert ≡ []
    → FileReach above base db
    → (a : Db) → ((f : String) → owned_by f a ≡ owned_by f db)
    → (f : String)
    → owned_by f (undo_files above (files_above above db.file_revert) a) ≡ owned_by f base
unfolding undo_files
undo_files-FileReach old here a same f = rw old (same f)
undo_files-FileReach {above} old (next {db} src dst file_id tx_hash height r over named owns) a same
      f =
    rw
      (
        files_above-transfer above src dst file_id tx_hash height db over,
        undo_files-cons above _ _ a _
            (undo_transferred above src dst file_id tx_hash height a named),
      )
      (undo_files-FileReach old r (transfer_file dst src file_id "" above true a)
        (λ f'. back above f' src dst file_id tx_hash height a db owns same) f)

-- From a database with no row above the height in the log of the files: after any transfers of files
-- in blocks above the height, each by the address that has the file, which is not empty, a fork of the
-- files to the height gives every file its holder of before.
pub file_fork-FileReach :
    (above : ℤ) (base db : Db)
    → files_above above base.file_revert ≡ []
    → FileReach above base db
    → (f : String) → owned_by f (file_fork above db) ≡ owned_by f base
unfolding file_fork
file_fork-FileReach above base db old r = undo_files-FileReach old r db (λ f. refl)

-- No trade and no cancellation.
abbrev pub NoneDone : List FileExchangeRevert → Type 0
NoneDone [] = Unit {0}
NoneDone (r ∷ log) = (r.op ≢ "trade") × (r.op ≢ "cancel") × NoneDone log

undo_file_order-eq-ok :
    (schema : Schema) (r : FileExchangeRevert) (db db' : Db)
    → schema.exchange_collect_amt_finish ≡ false
    → undo_file_order schema r db ≡ ok db'
    → (r.op ≢ "trade") × (r.op ≢ "cancel")
unfolding undo_file_order reset_token_order
undo_file_order-eq-ok schema r db db' lacking e = (
  λ p. ground (arith, eq_iff r.op "trade", eq_iff r.op "create", eq_iff "trade" "create"),
  λ p. ground (
    arith,
    eq_iff r.op "cancel",
    eq_iff r.op "create",
    eq_iff r.op "trade",
    eq_iff "cancel" "create",
    eq_iff "cancel" "trade",
  ),
)

pub undo_file_orders-NoneDone :
    (schema : Schema) (log : List FileExchangeRevert) (db db' : Db)
    → schema.exchange_collect_amt_finish ≡ false
    → undo_file_orders schema log db ≡ ok db'
    → NoneDone log
unfolding undo_file_orders
undo_file_orders-NoneDone schema [] db db' lacking e = tt
undo_file_orders-NoneDone schema (r ∷ log) db db' lacking e =
    let (d, f, g) = >>=-eq-ok (undo_file_order schema r db) _ e in
    let (p, q) = undo_file_order-eq-ok schema r db d lacking f in
    (p, q, undo_file_orders-NoneDone schema log d db' lacking g)
