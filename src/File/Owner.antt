-- ===== src/File/Owner.antt =====
-- storage/file.go and file_exchange.go: who holds a file, after a transfer and through an order.
use dogeuni_indexer.Prelude.{
  String, false, ◌≡◌, ◌≢◌, refl, sym, ap, ◌∙◌, Option, none, some, List, [], ◌∷◌, ◌==◌, eq_iff,
  if◌then◌else◌, arith,
}
use dogeuni_indexer.Prelude.Int.{ℤ, pos, ◌+ℤ◌, ◌-ℤ◌, ◌≤ℤ◌}
use dogeuni_indexer.Prelude.Result.{ok, or_err, no_row, >>=-eq-ok, or_err-eq-ok, ok-eq-ok}
use dogeuni_indexer.Models.{FileCollectAddress, FileExchangeInfo, FileExchangeCollect, Db}
use dogeuni_indexer.Tables.{first_where, update_where}
use dogeuni_indexer.Tables.Rows.{first_where-append}
use dogeuni_indexer.Drc20.{transfer_drc20}
use dogeuni_indexer.Drc20.Balances.{held_by, held_by-transfer_drc20, transfer_src, transfer_dst}
use dogeuni_indexer.Drc20.Effects.{transfer_drc20-eq-ok}
use dogeuni_indexer.File.{
  is_file, is_held_file, give_file, transfer_file, is_file_order, finish_order,
  file_exchange_create, file_exchange_trade,
}

abbrev pub holder_of : Option FileCollectAddress → Option String
holder_of none = none
holder_of (some r) = some r.holder_address

-- The holder in the file's row.
unfoldable pub owner : String → List FileCollectAddress → Option String
owner file_id rs = holder_of (first_where (is_file file_id) rs)

abbrev pub owned_by : String → Db → Option String
owned_by file_id db = owner file_id db.file_collect_address

abbrev pub passed_on : String → String → Option String → Option String
passed_on src dst none = none
passed_on src dst (some h) = some (if h == src then dst else h)

-- A transfer passes the file on where the sender has it, and moves no other file.
pub owner-give_file :
    (f f' src dst : String) (rs : List FileCollectAddress)
    → owner f' (give_file f src dst rs)
      ≡ (if f == f' then passed_on src dst (owner f' rs) else owner f' rs)
unfolding owner give_file first_where update_where is_file is_held_file
owner-give_file f f' src dst [] = ground arith
owner-give_file f f' src dst (r ∷ rs) =
    ground
      (arith, owner-give_file f f' src dst rs, eq_iff r.file_id f, eq_iff r.file_id f', eq_iff f f')

-- The steps of a trade that succeeds.
trade_steps :
    (ex : FileExchangeInfo) (db db' : Db) (exc : FileExchangeCollect)
    → first_where (is_file_order ex.ex_id) db.file_exchange_collect ≡ some exc
    → file_exchange_trade ex db ≡ ok db'
    → (db1 : Db) × (transfer_drc20 exc.tick ex.holder_address exc.holder_address exc.amt ex.tx_hash
          ex.block_number false db
        ≡ ok db1)
      × (db'.file_collect_address
          ≡ give_file exc.file_id exc.reserves_address ex.holder_address db1.file_collect_address)
      × (db'.drc20_collect_address ≡ db1.drc20_collect_address)
unfolding file_exchange_trade transfer_file finish_order
trade_steps ex db db' exc found e =
    let (c, f, e1) =
      >>=-eq-ok (or_err (first_where (is_file_order ex.ex_id) db.file_exchange_collect) no_row) _
        e in
    let got = or_err-eq-ok _ no_row f in
    let same : c ≡ exc = cc (got, found) in
    let (db1, paid, e2) =
      >>=-eq-ok
        (transfer_drc20 c.tick ex.holder_address c.holder_address c.amt ex.tx_hash ex.block_number
          false db)
        _ e1 in
    let made = ok-eq-ok e2 in
    rw (← same) (
      db1,
      paid,
      ap (λ (d : Db). d.file_collect_address) (sym made),
      ap (λ (d : Db). d.drc20_collect_address) (sym made),
    )

-- A token transfer moves no file.
transfer_drc20_files :
    (t s d : String) (amt : ℤ) (x : String) (h : ℤ) (db db' : Db)
    → transfer_drc20 t s d amt x h false db ≡ ok db'
    → db'.file_collect_address ≡ db.file_collect_address
transfer_drc20_files t s d amt x h db db' e =
    ap (λ (a : Db). a.file_collect_address) (transfer_drc20-eq-ok t s d amt x h false db db' e).1

-- A trade of a file order that succeeds: the buyer pays the order's positive price to its holder,
-- whoever has the file; the file is the buyer's then if the order's reserves had it, and stays where
-- it is otherwise, as after a first trade or a cancellation; no other file moves.
pub file_exchange_trade_moves :
    (ex : FileExchangeInfo) (db db' : Db) (exc : FileExchangeCollect)
    → first_where (is_file_order ex.ex_id) db.file_exchange_collect ≡ some exc
    → file_exchange_trade ex db ≡ ok db'
    → (pos 1 ≤ℤ exc.amt)
      × (held_by exc.tick ex.holder_address db' ≡ held_by exc.tick ex.holder_address db -ℤ exc.amt)
      × (held_by exc.tick exc.holder_address db'
          ≡ held_by exc.tick exc.holder_address db +ℤ exc.amt)
      × ((f : String)
          → owned_by f db' ≡ (
              if exc.file_id == f
              then passed_on exc.reserves_address ex.holder_address (owned_by f db)
              else owned_by f db))
file_exchange_trade_moves ex db db' exc found e =
    let (db1, paid, files, holders) = trade_steps ex db db' exc found e in
    let (positive, _, _, _) =
      held_by-transfer_drc20 exc.tick exc.amt ex.tx_hash ex.block_number false db db1
        ex.holder_address exc.holder_address paid in
    (
      positive,
      rw holders (
          transfer_src exc.tick exc.amt ex.tx_hash ex.block_number false db db1 ex.holder_address
            exc.holder_address paid),
      rw holders (
          transfer_dst exc.tick exc.amt ex.tx_hash ex.block_number false db db1 ex.holder_address
            exc.holder_address paid),
      λ f. rw files (
          owner-give_file exc.file_id f exc.reserves_address ex.holder_address
            db1.file_collect_address
          ∙ rw
              (transfer_drc20_files exc.tick ex.holder_address exc.holder_address exc.amt ex.tx_hash
                ex.block_number db db1 paid)
              refl),
    )

-- The row that `FileExchangeCreate` makes.
abbrev pub new_order : FileExchangeInfo → String → FileExchangeCollect
new_order ex reserves = record {
  ex_id = ex.ex_id;
  file_id = ex.file_id;
  tick = ex.tick;
  amt = ex.amt;
  amt_finish = pos 0;
  holder_address = ex.holder_address;
  reserves_address = reserves;
}

create_steps :
    (ex : FileExchangeInfo) (reserves : String) (db db' : Db)
    → first_where (is_file_order ex.ex_id) db.file_exchange_collect ≡ none
    → file_exchange_create ex reserves db ≡ ok db'
    → (first_where (is_file_order ex.ex_id) db'.file_exchange_collect
        ≡ some (new_order ex reserves))
      × (db'.file_collect_address
          ≡ give_file ex.file_id ex.holder_address reserves db.file_collect_address)
      × (db'.drc20_collect_address ≡ db.drc20_collect_address)
unfolding file_exchange_create transfer_file is_file_order
create_steps ex reserves db db' fresh e =
    let (c, f, e1) =
      >>=-eq-ok (or_err (first_where (is_file ex.file_id) db.file_collect_address) no_row) _ e in
    let made = ok-eq-ok e1 in
    (
      rw (sym made) (
          ground (
            arith,
            first_where-append (is_file_order ex.ex_id) (new_order ex reserves)
                db.file_exchange_collect,
            eq_iff ex.ex_id ex.ex_id,
          )),
      ap (λ (d : Db). d.file_collect_address) (sym made),
      ap (λ (d : Db). d.drc20_collect_address) (sym made),
    )

-- An order of a file that its holder has, under an id that is new, and then a trade of the order by
-- anyone, both of which succeed: the file is the buyer's, no other file has moved, and the buyer has
-- paid the price of the order to its holder.
pub file_order_settles :
    (offer bid : FileExchangeInfo) (reserves : String) (db db1 db2 : Db)
    → owned_by offer.file_id db ≡ some offer.holder_address
    → first_where (is_file_order offer.ex_id) db.file_exchange_collect ≡ none
    → bid.ex_id ≡ offer.ex_id
    → file_exchange_create offer reserves db ≡ ok db1
    → file_exchange_trade bid db1 ≡ ok db2
    → (owned_by offer.file_id db2 ≡ some bid.holder_address)
      × ((f : String) → offer.file_id ≢ f → owned_by f db2 ≡ owned_by f db)
      × (held_by offer.tick bid.holder_address db2
          ≡ held_by offer.tick bid.holder_address db -ℤ offer.amt)
      × (held_by offer.tick offer.holder_address db2
          ≡ held_by offer.tick offer.holder_address db +ℤ offer.amt)
file_order_settles offer bid reserves db db1 db2 owns fresh same made traded =
    let (order, files, holders) = create_steps offer reserves db db1 fresh made in
    let (positive, pays, gets, moves) =
      file_exchange_trade_moves bid db1 db2 (new_order offer reserves) (rw same order) traded in
    let created = λ (f : String).
      owner-give_file offer.file_id f offer.holder_address reserves db.file_collect_address in
    (
      moves offer.file_id
          ∙ rw files (
              ground (
                arith,
                created offer.file_id,
                eq_iff offer.file_id offer.file_id,
                eq_iff offer.holder_address offer.holder_address,
                eq_iff reserves reserves,
                owns,
              )),
      λ f ne. moves f ∙ rw files (ground (arith, created f, eq_iff offer.file_id f, ne)),
      rw holders at pays,
      rw holders at gets,
    )
