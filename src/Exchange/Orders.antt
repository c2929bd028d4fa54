-- ===== src/Exchange/Orders.antt =====
-- storage/exchange.go: what a trade and a cancellation move, and that an order's reserves hold the
-- rest of its offer.
use dogeuni_indexer.Prelude.{◌≡◌, ◌≢◌, false, arith, refl}
use dogeuni_indexer.Prelude.Int.{pos, ◌+ℤ◌, ◌-ℤ◌, ◌*ℤ◌, ◌≤ℤ◌, int_laws}
use dogeuni_indexer.Prelude.Result.{ok}
use dogeuni_indexer.Models.{ExchangeInfo, ExchangeCollect, Db}
use dogeuni_indexer.Drc20.Balances.{held_by, held_by-transfer_drc20}
use dogeuni_indexer.Exchange.{exchange_trade}
use dogeuni_indexer.Exchange.Trade.{
  rest_of, trade_out_bounds, FoundIn, TradeRun, exchange_trade-eq-ok, filled, found_after,
  reserves_after, trader_pays,
}

-- The rest of an order's offer is not negative and its reserves hold it.
pub record IsHonoured (db : Db) (c : ExchangeCollect) : Type 0 where
  pub offer : pos 0 ≤ℤ c.amt0
  pub asked : pos 0 ≤ℤ c.amt1
  pub rest : pos 0 ≤ℤ rest_of c
  pub held : rest_of c ≤ℤ held_by c.tick0 c.reserves_address db
  pub apart : c.holder_address ≢ c.reserves_address

run-IsHonoured :
    {ex ex' : ExchangeInfo} {db db' : Db} (run : TradeRun ex db ex' db')
    → IsHonoured db run.exc
    → (d : ExchangeCollect) × FoundIn db' ex.ex_id d
      × IsHonoured db' d
      × (d.amt0 ≡ run.exc.amt0)
      × (d.amt1 ≡ run.exc.amt1)
      × (rest_of d ≤ℤ rest_of run.exc)
run-IsHonoured {ex} {ex'} {db} {db'} run fine =
    let c = run.exc in
    let (positive, _, _, _) =
      held_by-transfer_drc20 c.tick1 ex.amt1 ex.tx_hash ex.block_number false run.db0 run.db1
        ex.holder_address c.holder_address run.brought in
    let (low, least, _) =
      trade_out_bounds ex c run.out (omega (arith, positive)) fine.offer fine.asked fine.rest
        run.computed in
    let left = reserves_after run fine.apart in
    (
      filled run,
      found_after run,
      record {
        offer = fine.offer;
        asked = fine.asked;
        rest = omega (int_laws, least);
        held = rw left (omega (int_laws, fine.held));
        apart = fine.apart;
      },
      refl,
      refl,
      omega (int_laws, low),
    )

-- A trade that succeeds, on an order that offers and asks amounts that are not negative, is held
-- by another address than its reserves, and has a rest of its offer that is not negative and that
-- its reserves hold: the order that is found afterwards is such an order too, with the same two
-- amounts and a rest that is no larger than before.
pub exchange_trade-IsHonoured :
    (ex ex' : ExchangeInfo) (db db' : Db) (c : ExchangeCollect)
    → FoundIn db ex.ex_id c
    → IsHonoured db c
    → exchange_trade ex db ≡ ok (ex', db')
    → (d : ExchangeCollect) × FoundIn db' ex.ex_id d
      × IsHonoured db' d
      × (d.amt0 ≡ c.amt0)
      × (d.amt1 ≡ c.amt1)
      × (rest_of d ≤ℤ rest_of c)
exchange_trade-IsHonoured ex ex' db db' c found fine e =
    let run = exchange_trade-eq-ok ex ex' db db' e in
    let same : c ≡ run.exc = cc (found, run.found) in
    rw same (run-IsHonoured run (rw (← same) fine))

-- A trade that succeeds, on an order of two different tokens that offers and asks amounts that are
-- not negative, is held by another address than its reserves, and has a rest of its offer that is
-- not negative and that its reserves hold: the trader pays the whole positive amount that the
-- message brings to the order's holder, and gets from the reserves an amount that is at most the
-- rest of the offer and at most the share of the offer that the payment is of the amount asked.
pub exchange_trade_moves :
    (ex ex' : ExchangeInfo) (db db' : Db) (c : ExchangeCollect)
    → FoundIn db ex.ex_id c
    → IsHonoured db c
    → c.tick0 ≢ c.tick1
    → exchange_trade ex db ≡ ok (ex', db')
    → (pos 1 ≤ℤ ex.amt1)
      × (held_by c.tick1 ex.holder_address db' ≡ held_by c.tick1 ex.holder_address db -ℤ ex.amt1)
      × (held_by c.tick1 c.holder_address db' ≡ held_by c.tick1 c.holder_address db +ℤ ex.amt1)
      × (held_by c.tick0 ex.holder_address db' ≡ held_by c.tick0 ex.holder_address db +ℤ ex'.amt0)
      × (held_by c.tick0 c.reserves_address db' ≡ held_by c.tick0 c.reserves_address db -ℤ ex'.amt0)
      × (ex'.amt0 ≤ℤ rest_of c)
      × (ex'.amt0 *ℤ c.amt1 ≤ℤ ex.amt1 *ℤ c.amt0)
exchange_trade_moves ex ex' db db' c found fine ne e =
    let run = exchange_trade-eq-ok ex ex' db db' e in
    let same : c ≡ run.exc = cc (found, run.found) in
    let ne' : run.exc.tick0 ≢ run.exc.tick1 = rw (← same) ne in
    let fine' : IsHonoured db run.exc = rw (← same) fine in
    let (positive, _, _, _) =
      held_by-transfer_drc20 run.exc.tick1 ex.amt1 ex.tx_hash ex.block_number false run.db0 run.db1
        ex.holder_address run.exc.holder_address run.brought in
    let (_, least, fair) =
      trade_out_bounds ex run.exc run.out (omega (arith, positive)) fine'.offer fine'.asked
        fine'.rest run.computed in
    let (pays, gets, receives) = trader_pays run ne' in
    rw (same, run.result)
      ((positive, pays, gets, receives, reserves_after run fine'.apart, least, fair))
