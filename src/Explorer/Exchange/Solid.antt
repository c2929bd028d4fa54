-- ===== src/Explorer/Exchange/Solid.antt =====
-- The order messages keep every token's supply the sum of its balances.
use dogeuni_indexer.Prelude.{String, ◌≡◌, refl, sym, false, inl, inr, ◌⊎◌, arith}
use dogeuni_indexer.Prelude.Result.{Result, ok, err, >>=-eq-ok, ok-eq-ok, ok-eq-ok_pair}
use dogeuni_indexer.Models.{ExchangeInfo, Db}
use dogeuni_indexer.Pools.Solid.{IsSolid, same-IsSolid}
use dogeuni_indexer.Pools.Tokens.{transfer_drc20-IsSolid}
use dogeuni_indexer.Drc20.{transfer_drc20}
use dogeuni_indexer.Exchange.{
  find_order, trade_out, exchange_create, exchange_trade, exchange_cancel,
}
use dogeuni_indexer.Explorer.Exchange.{
  verify_exchange, handle_create, handle_trade, handle_cancel, execute_order_v1, settle,
  scan_order_v1,
}

exchange_create-IsSolid :
    (ex : ExchangeInfo) (r : String) (db db' : Db)
    → IsSolid db
    → exchange_create ex r db ≡ ok db'
    → IsSolid db'
unfolding exchange_create
exchange_create-IsSolid ex r db db' v e =
    let (d, f, g) =
      >>=-eq-ok
        (transfer_drc20 ex.tick0 ex.holder_address r ex.amt0 ex.tx_hash ex.block_number false _) _
        e in
    let w =
      transfer_drc20-IsSolid ex.tick0 ex.amt0 ex.tx_hash ex.block_number false _ d
        (same-IsSolid refl refl refl v) ex.holder_address r f in
    rw (sym (ok-eq-ok g)) (same-IsSolid refl refl refl w)

exchange_trade-IsSolid :
    (ex ex' : ExchangeInfo) (db db' : Db)
    → IsSolid db
    → exchange_trade ex db ≡ ok (ex', db')
    → IsSolid db'
unfolding exchange_trade
exchange_trade-IsSolid ex ex' db db' v e =
    let (c, _, e1) = >>=-eq-ok (find_order ex.ex_id db) _ e in
    let (out, _, e3) = >>=-eq-ok (trade_out ex c) _ e1 in
    let (d1, e4, e5) =
      >>=-eq-ok
        (transfer_drc20 c.tick1 ex.holder_address c.holder_address ex.amt1 ex.tx_hash
          ex.block_number false _)
        _ e3 in
    let (d2, e6, e7) =
      >>=-eq-ok
        (transfer_drc20 c.tick0 c.reserves_address ex.holder_address out ex.tx_hash ex.block_number
          false d1)
        _ e5 in
    let v1 =
      transfer_drc20-IsSolid c.tick1 ex.amt1 ex.tx_hash ex.block_number false _ d1
        (same-IsSolid refl refl refl v) ex.holder_address c.holder_address e4 in
    rw (sym (ok-eq-ok_pair e7).1) (
      transfer_drc20-IsSolid c.tick0 out ex.tx_hash ex.block_number false d1 d2 v1
        c.reserves_address ex.holder_address e6)

exchange_cancel-IsSolid :
    (ex ex' : ExchangeInfo) (db db' : Db)
    → IsSolid db
    → exchange_cancel ex db ≡ ok (ex', db')
    → IsSolid db'
unfolding exchange_cancel
exchange_cancel-IsSolid ex ex' db db' v e =
    let (c, _, e1) = >>=-eq-ok (find_order ex.ex_id db) _ e in
    let (d1, f, g) =
      >>=-eq-ok
        (transfer_drc20 c.tick0 c.reserves_address ex.holder_address ex.amt0 ex.tx_hash
          ex.block_number false db)
        _ e1 in
    rw (sym (ok-eq-ok_pair g).1) (
      same-IsSolid refl refl refl (
        transfer_drc20-IsSolid c.tick0 ex.amt0 ex.tx_hash ex.block_number false db d1 v
          c.reserves_address ex.holder_address f))

cancelled-IsSolid :
    (ex : ExchangeInfo) (db : Db) (r : Result (ExchangeInfo × Db)) (db' : Db)
    → IsSolid db
    → ((ex' : ExchangeInfo) (d : Db) → r ≡ ok (ex', d) → IsSolid d)
    → (f : ExchangeInfo × Db → Db) → ((p : ExchangeInfo × Db) → IsSolid p.1 → IsSolid (f p))
    → elim r [ err e ↦ ok db | ok p ↦ ok (f p) ] ≡ ok db'
    → IsSolid db'
cancelled-IsSolid ex db (ok p) db' v h f k e = rw (sym (ok-eq-ok e)) (k p (h p.0 p.1 refl))
cancelled-IsSolid ex db (err x) db' v h f k e = rw (sym (ok-eq-ok e)) v

module _ (script_address : String → String) (ex : ExchangeInfo) (db db' : Db) (v : IsSolid db) where
  handle_create-IsSolid : handle_create script_address ex db ≡ ok db' → IsSolid db'
  unfolding handle_create
  handle_create-IsSolid e =
      let (d, f, g) = >>=-eq-ok (exchange_create ex (script_address ex.ex_id) db) _ e in
      rw (sym (ok-eq-ok g)) (same-IsSolid refl refl refl (exchange_create-IsSolid ex _ db d v f))

  handle_trade-IsSolid : handle_trade ex db ≡ ok db' → IsSolid db'
  unfolding handle_trade
  handle_trade-IsSolid e =
      let (r, f, g) = >>=-eq-ok (exchange_trade ex db) _ e in
      rw (sym (ok-eq-ok g)) (same-IsSolid refl refl refl (exchange_trade-IsSolid ex r.0 db r.1 v f))

  handle_cancel-IsSolid : handle_cancel ex db ≡ ok db' → IsSolid db'
  unfolding handle_cancel
  handle_cancel-IsSolid e =
      cancelled-IsSolid ex db (exchange_cancel ex db) db' v
        (λ ex' d f. exchange_cancel-IsSolid ex ex' db d v f) _
        (λ p w. same-IsSolid refl refl refl w) e

  execute_order_cases :
      execute_order_v1 script_address ex db ≡ ok db'
      → (handle_create script_address ex db ≡ ok db')
        ⊎ (handle_trade ex db ≡ ok db')
        ⊎ (handle_cancel ex db ≡ ok db')
  unfolding execute_order_v1 verify_exchange
  execute_order_cases e = ground arith

  execute_order_v1-IsSolid : execute_order_v1 script_address ex db ≡ ok db' → IsSolid db'
  execute_order_v1-IsSolid e = elim (execute_order_cases e) [
    | inl f ↦ handle_create-IsSolid f
    | inr (inl f) ↦ handle_trade-IsSolid f
    | inr (inr f) ↦ handle_cancel-IsSolid f
  ]

settle-IsSolid :
    (ex : ExchangeInfo) (db : Db) (r : Result Db)
    → IsSolid db
    → ((db' : Db) → r ≡ ok db' → IsSolid db')
    → IsSolid (settle ex db r)
settle-IsSolid ex db (ok db') v h = h db' refl
settle-IsSolid ex db (err e) v h = same-IsSolid refl refl refl v

pub scan_order_v1-IsSolid :
    (script_address : String → String) (ex : ExchangeInfo) (db : Db)
    → IsSolid db
    → IsSolid (scan_order_v1 script_address ex db)
unfolding scan_order_v1
scan_order_v1-IsSolid script_address ex db v =
    settle-IsSolid ex db (execute_order_v1 script_address ex db) v
      (λ db' e. execute_order_v1-IsSolid script_address ex db db' v e)
