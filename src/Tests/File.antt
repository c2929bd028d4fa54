-- ===== src/Tests/File.antt =====
-- A file ordered and traded, passed on and forked back.
use dogeuni_indexer.Prelude.{
  String, none, some, false, ◌≡◌, ◌≢◌, refl, ◌==◌, if◌then◌else◌, [], ◌∷◌,
}
use dogeuni_indexer.Prelude.Int.{pos, ◌+ℤ◌, ◌-ℤ◌, ◌≤ℤ◌}
use dogeuni_indexer.Prelude.Result.{ok}
use dogeuni_indexer.Models.{FileExchangeInfo, Db}
use dogeuni_indexer.Tables.{find_where, first_where, update_where, update_first}
use dogeuni_indexer.Holders.{same_key, row_is, find_holder, set_amt_sum, create_missing}
use dogeuni_indexer.Tokens.{find_token, set_token}
use dogeuni_indexer.Drc20.{mint_drc20, transfer_drc20}
use dogeuni_indexer.Drc20.Balances.{held_by}
use dogeuni_indexer.File.{
  is_file, is_held_file, give_file, transfer_file, is_file_order, finish_order, files_above,
  file_fork, file_exchange_create, file_exchange_trade, file_orders_above, file_exchange_fork,
}
use dogeuni_indexer.File.Owner.{
  owner, owned_by, passed_on, new_order, file_exchange_trade_moves, file_order_settles,
}
use dogeuni_indexer.File.Orders.{start, list, file_orders_undone}
use dogeuni_indexer.File.Fork.{here, next, file_fork-FileReach}
use dogeuni_indexer.Tests.Data.{funded, columns, db_of}
use dogeuni_indexer.Tests.Drc20.{differ}

-- Bob holds a file, and Alice tokens.
abbrev gallery : Db
gallery = record funded {
  file_collect_address =
      record { file_id = "file1"; file_path = "path1"; holder_address = "bob" } ∷ [];
}

abbrev offer : FileExchangeInfo
offer = record {
  op = "create";
  ex_id = "tx30";
  file_id = "file1";
  tick = "dogi";
  amt = pos 700;
  holder_address = "bob";
  tx_hash = "tx30";
  block_number = pos 30;
  err_info = none;
  order_status = pos 0;
}

abbrev bid : FileExchangeInfo
bid = record offer {
  op = "trade";
  holder_address = "alice";
  tx_hash = "tx31";
  block_number = pos 31;
}

abbrev pub listed : Db
listed = db_of (file_exchange_create offer "vault" gallery)

listed_ok : file_exchange_create offer "vault" gallery ≡ ok listed
unfolding file_exchange_create transfer_file give_file first_where update_where is_file is_held_file
    mint_drc20 find_token find_holder row_is same_key set_amt_sum create_missing set_token
listed_ok = refl

abbrev traded : Db
traded = db_of (file_exchange_trade bid listed)

traded_ok : file_exchange_trade bid listed ≡ ok traded
unfolding file_exchange_trade file_exchange_create transfer_file give_file first_where update_where
    update_first is_file is_held_file is_file_order finish_order mint_drc20 transfer_drc20
    find_token find_holder row_is same_key set_amt_sum create_missing set_token ◌+ℤ◌ ◌-ℤ◌
traded_ok = refl

bob_owns : owned_by "file1" gallery ≡ some "bob"
unfolding owner first_where is_file
bob_owns = refl

order_is_new : first_where (is_file_order "tx30") gallery.file_exchange_collect ≡ none
unfolding first_where mint_drc20 find_token find_holder set_token set_amt_sum create_missing row_is
    same_key
order_is_new = refl

order_found :
    first_where (is_file_order "tx30") listed.file_exchange_collect ≡ some (new_order offer "vault")
unfolding file_exchange_create transfer_file give_file first_where update_where is_file is_held_file
    is_file_order mint_drc20 find_token find_holder row_is same_key set_amt_sum create_missing
    set_token
order_found = refl

file_exchange_trade_moves_example :
    (pos 1 ≤ℤ pos 700)
    × (held_by "dogi" "alice" traded ≡ held_by "dogi" "alice" listed -ℤ pos 700)
    × (held_by "dogi" "bob" traded ≡ held_by "dogi" "bob" listed +ℤ pos 700)
    × ((f : String)
        → owned_by f traded ≡ (
            if "file1" == f
            then passed_on "vault" "alice" (owned_by f listed)
            else owned_by f listed))
file_exchange_trade_moves_example =
    file_exchange_trade_moves bid listed traded (new_order offer "vault") order_found traded_ok

file_order_settles_example :
    (owned_by "file1" traded ≡ some "alice")
    × ((f : String) → "file1" ≢ f → owned_by f traded ≡ owned_by f gallery)
    × (held_by "dogi" "alice" traded ≡ held_by "dogi" "alice" gallery -ℤ pos 700)
    × (held_by "dogi" "bob" traded ≡ held_by "dogi" "bob" gallery +ℤ pos 700)
file_order_settles_example =
    file_order_settles offer bid "vault" gallery listed traded bob_owns order_is_new refl listed_ok
      traded_ok

abbrev passed1 : Db
passed1 = transfer_file "bob" "carol" "file1" "tx32" (pos 32) false gallery

abbrev passed2 : Db
passed2 = transfer_file "carol" "alice" "file1" "tx33" (pos 33) false passed1

carol_owns : owned_by "file1" passed1 ≡ some "carol"
unfolding owner first_where is_file transfer_file give_file update_where is_held_file
carol_owns = refl

no_old_row : files_above (pos 31) gallery.file_revert ≡ []
unfolding find_where files_above mint_drc20 find_token find_holder set_token set_amt_sum
    create_missing row_is same_key
no_old_row = refl

file_fork-FileReach_example :
    owned_by "file1" (file_fork (pos 31) passed2) ≡ owned_by "file1" gallery
file_fork-FileReach_example =
    file_fork-FileReach (pos 31) gallery passed2 no_old_row
      (next "carol" "alice" "file1" "tx33" (pos 33)
        (next "bob" "carol" "file1" "tx32" (pos 32) here refl (differ "bob" "" refl) bob_owns) refl
        (differ "carol" "" refl) carol_owns)
      "file1"

no_old_file : files_above (pos 29) gallery.file_revert ≡ []
unfolding find_where files_above mint_drc20 find_token find_holder set_token set_amt_sum
    create_missing row_is same_key
no_old_file = refl

no_old_order : file_orders_above (pos 29) gallery.file_exchange_revert ≡ []
unfolding find_where file_orders_above mint_drc20 find_token find_holder set_token set_amt_sum
    create_missing row_is same_key
no_old_order = refl

file_orders_undone_example :
    (db' : Db) × (file_exchange_fork columns (pos 29) (file_fork (pos 29) listed) ≡ ok db')
    × (db'.file_exchange_collect ≡ gallery.file_exchange_collect)
    × ((f : String) → owned_by f db' ≡ owned_by f gallery)
file_orders_undone_example =
    file_orders_undone columns (pos 29) gallery listed no_old_file no_old_order
      (list offer "vault" start refl (differ "bob" "" refl) bob_owns order_is_new listed_ok)
