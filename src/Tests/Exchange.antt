-- ===== src/Tests/Exchange.antt =====
-- An order created, traded, and cancelled by an address that does not hold it.
use dogeuni_indexer.Prelude.{◌≡◌, refl, false, none, [], arith}
use dogeuni_indexer.Prelude.Int.{pos, ◌+ℤ◌, ◌-ℤ◌, ◌*ℤ◌, ◌≤ℤ◌}
use dogeuni_indexer.Prelude.Div.{div_ℤ}
use dogeuni_indexer.Prelude.Result.{Result, ok, err}
use dogeuni_indexer.Models.{ExchangeInfo, ExchangeCollect, Db}
use dogeuni_indexer.Tables.{find_where, first_where, update_where}
use dogeuni_indexer.Holders.{same_key, row_is, find_holder, set_amt_sum, create_missing}
use dogeuni_indexer.Holders.Balance.{balance}
use dogeuni_indexer.Tokens.{find_token, set_token}
use dogeuni_indexer.Drc20.{mint_drc20, transfer_drc20}
use dogeuni_indexer.Drc20.Balances.{held_by}
use dogeuni_indexer.Exchange.{
  trade_out, exchange_create, exchange_trade, exchange_cancel, exchange_fork, reverts_above,
}
use dogeuni_indexer.Exchange.Trade.{rest_of, FoundIn, trade_out_bounds}
use dogeuni_indexer.Exchange.Orders.{IsHonoured, exchange_trade-IsHonoured, exchange_trade_moves}
use dogeuni_indexer.Exchange.Cancel.{
  Steps, here, next, create, cancel, exchange_cancel_moves, exchange_fork-Steps,
}
use dogeuni_indexer.Tests.Data.{funded, db_of, genesis}
use dogeuni_indexer.Tests.Drc20.{differ}

abbrev market : Db
market = db_of (mint_drc20 "woof" "bob" (pos 500) "tx8" (pos 13) false funded)

abbrev pub offer : ExchangeInfo
offer = record {
  op = "create";
  ex_id = "tx9";
  tick0 = "dogi";
  tick1 = "woof";
  amt0 = pos 1000;
  amt1 = pos 300;
  holder_address = "alice";
  tx_hash = "tx9";
  block_number = pos 14;
  err_info = none;
  order_status = pos 0;
}

abbrev listed : Db
listed = db_of (exchange_create offer "orders" market)

listed_ok : exchange_create offer "orders" market ≡ ok listed
unfolding exchange_create mint_drc20 transfer_drc20 find_token find_holder row_is same_key
    set_amt_sum create_missing set_token ◌+ℤ◌ ◌-ℤ◌
listed_ok = refl

abbrev row : ExchangeCollect
row = record {
  ex_id = "tx9";
  tick0 = "dogi";
  tick1 = "woof";
  amt0 = pos 1000;
  amt1 = pos 300;
  amt0_finish = pos 0;
  amt1_finish = pos 0;
  holder_address = "alice";
  reserves_address = "orders";
}

row_found : FoundIn listed "tx9" row
unfolding first_where exchange_create mint_drc20 transfer_drc20 find_token find_holder row_is
    same_key set_amt_sum create_missing set_token ◌+ℤ◌ ◌-ℤ◌
row_found = refl

row-IsHonoured : IsHonoured listed row
unfolding balance exchange_create mint_drc20 transfer_drc20 find_token find_holder row_is same_key
    set_amt_sum create_missing set_token ◌+ℤ◌ ◌-ℤ◌
row-IsHonoured = record {
  offer = omega arith;
  asked = omega arith;
  rest = omega arith;
  held = omega arith;
  apart = differ "alice" "orders" refl;
}

abbrev bid : ExchangeInfo
bid = record offer {
  op = "trade";
  amt0 = pos 0;
  amt1 = pos 100;
  holder_address = "bob";
  tx_hash = "tx10";
}

abbrev bid_done : ExchangeInfo
bid_done = record bid { amt0 = pos 333 }

abbrev after_pair : Result (ExchangeInfo × Db) → Db
after_pair (ok (s, db)) = db
after_pair (err e) = genesis

abbrev traded : Db
traded = after_pair (exchange_trade bid listed)

traded_ok : exchange_trade bid listed ≡ ok (bid_done, traded)
unfolding exchange_trade trade_out div_ℤ first_where update_where exchange_create mint_drc20
    transfer_drc20 find_token find_holder row_is same_key set_amt_sum create_missing set_token ◌+ℤ◌
    ◌-ℤ◌ ◌*ℤ◌
traded_ok = refl

trade_out_ok : trade_out bid row ≡ ok (pos 333)
unfolding trade_out div_ℤ ◌-ℤ◌ ◌*ℤ◌
trade_out_ok = refl

trade_out_bounds_example :
    (pos 0 ≤ℤ pos 333) × (pos 333 ≤ℤ rest_of row) × (pos 333 *ℤ pos 300 ≤ℤ pos 100 *ℤ pos 1000)
trade_out_bounds_example =
    trade_out_bounds bid row (pos 333) (omega arith) (omega arith) (omega arith) row-IsHonoured.rest
      trade_out_ok

exchange_trade-IsHonoured_example :
    (d : ExchangeCollect) × FoundIn traded "tx9" d
    × IsHonoured traded d
    × (d.amt0 ≡ pos 1000)
    × (d.amt1 ≡ pos 300)
    × (rest_of d ≤ℤ rest_of row)
exchange_trade-IsHonoured_example =
    exchange_trade-IsHonoured bid bid_done listed traded row row_found row-IsHonoured traded_ok

exchange_trade_moves_example :
    (pos 1 ≤ℤ pos 100)
    × (held_by "woof" "bob" traded ≡ held_by "woof" "bob" listed -ℤ pos 100)
    × (held_by "woof" "alice" traded ≡ held_by "woof" "alice" listed +ℤ pos 100)
    × (held_by "dogi" "bob" traded ≡ held_by "dogi" "bob" listed +ℤ pos 333)
    × (held_by "dogi" "orders" traded ≡ held_by "dogi" "orders" listed -ℤ pos 333)
    × (pos 333 ≤ℤ rest_of row)
    × (pos 333 *ℤ pos 300 ≤ℤ pos 100 *ℤ pos 1000)
exchange_trade_moves_example =
    exchange_trade_moves bid bid_done listed traded row row_found row-IsHonoured
      (differ "dogi" "woof" refl) traded_ok

-- The order is Alice's, and Mallory cancels it.
abbrev theft : ExchangeInfo
theft = record offer {
  op = "cancel";
  amt0 = pos 1000;
  holder_address = "mallory";
  tx_hash = "tx11";
}

abbrev stolen : Db
stolen = after_pair (exchange_cancel theft listed)

stolen_ok : exchange_cancel theft listed ≡ ok (theft, stolen)
unfolding exchange_cancel first_where update_where exchange_create mint_drc20 transfer_drc20
    find_token find_holder row_is same_key set_amt_sum create_missing set_token ◌+ℤ◌ ◌-ℤ◌
stolen_ok = refl

exchange_cancel_moves_example :
    (pos 1000 ≤ℤ held_by "dogi" "orders" listed)
    × (held_by "dogi" "mallory" stolen ≡ held_by "dogi" "mallory" listed +ℤ pos 1000)
    × (held_by "dogi" "orders" stolen ≡ held_by "dogi" "orders" listed -ℤ pos 1000)
    × ((d : ExchangeCollect) × FoundIn stolen "tx9" d × (rest_of d ≡ rest_of row -ℤ pos 1000))
exchange_cancel_moves_example =
    exchange_cancel_moves theft theft listed stolen row row_found stolen_ok

no_orders : reverts_above (pos 10) market.exchange_revert ≡ []
unfolding find_where reverts_above mint_drc20 find_token set_token
no_orders = refl

steps : Steps market stolen
steps =
    next (next here (create offer "orders" market listed listed_ok))
      (cancel theft theft listed stolen stolen_ok)

exchange_fork-Steps_example : exchange_fork (pos 10) stolen ≡ ok stolen
exchange_fork-Steps_example =
    exchange_fork-Steps (pos 10) market stolen (omega arith) no_orders steps
