-- ===== src/Exchange/Trade.antt =====
-- storage/exchange.go `ExchangeTrade`: what a trade pays out, and the steps of one that succeeds.
use dogeuni_indexer.Prelude.{
  ◌*◌, ◌/◌, String, ◌≡◌, ◌≢◌, false, some, if◌then◌else◌, arith, sym, ap, ◌∙◌, refl,
}
use dogeuni_indexer.Prelude.Int.{ℤ, pos, negsuc, ◌+ℤ◌, ◌-ℤ◌, ◌*ℤ◌, ◌≤ℤ◌, *ℤ_mono, ltb_ℤ, pos_mul}
use dogeuni_indexer.Prelude.Div.{div_ℤ}
use dogeuni_indexer.Prelude.Result.{ok, >>=-eq-ok, or_err-eq-ok, no_row, ok-eq-ok, ok-eq-ok_pair}
use dogeuni_indexer.Models.{ExchangeInfo, ExchangeCollect, Db}
use dogeuni_indexer.Tables.{first_where, update_where, first_where-update_where}
use dogeuni_indexer.Drc20.{transfer_drc20}
use dogeuni_indexer.Drc20.Balances.{
  held_by, held_by-transfer_drc20, transfer_src, transfer_dst, transfer_other_tick,
  transfer_other_holder, transfer_orders,
}
use dogeuni_indexer.Swap.Amounts.{div_nat}
use dogeuni_indexer.Exchange.{has_id, find_order, trade_out, exchange_trade}

abbrev pub rest_of : ExchangeCollect → ℤ
rest_of c = c.amt0 -ℤ c.amt0_finish

div_bounds :
    (a b d q : ℤ)
    → pos 0 ≤ℤ a
    → pos 0 ≤ℤ b
    → pos 0 ≤ℤ d
    → div_ℤ (a *ℤ b) d ≡ ok q
    → (pos 0 ≤ℤ q) × (q *ℤ d ≤ℤ a *ℤ b)
div_bounds (pos a) (pos b) (pos d) q x y z e =
    let (_, same, paid) = div_nat a b d e in
    rw same (omega arith, rw (pos_mul (a * b / d) d, pos_mul a b) (omega (arith, paid)))
div_bounds (negsuc a) _ _ q x y z e = absurd (omega arith)
div_bounds (pos a) (negsuc b) _ q x y z e = absurd (omega arith)
div_bounds (pos a) (pos b) (negsuc d) q x y z e = absurd (omega arith)

smaller :
    (a b c : ℤ)
    → pos 0 ≤ℤ a
    → pos 0 ≤ℤ b
    → (if ltb_ℤ a b then a else b) ≡ c
    → (pos 0 ≤ℤ c) × (c ≤ℤ a) × (c ≤ℤ b)
smaller a b c p q e = ground arith

-- For amounts that are not negative and an order whose rest is not negative, a trade gives nothing
-- negative, at most the rest of the offer, and at most the share of the offer that the amount
-- brought is of the amount asked.
pub trade_out_bounds :
    (ex : ExchangeInfo) (exc : ExchangeCollect) (out : ℤ)
    → pos 0 ≤ℤ ex.amt1
    → pos 0 ≤ℤ exc.amt0
    → pos 0 ≤ℤ exc.amt1
    → pos 0 ≤ℤ rest_of exc
    → trade_out ex exc ≡ ok out
    → (pos 0 ≤ℤ out) × (out ≤ℤ rest_of exc) × (out *ℤ exc.amt1 ≤ℤ ex.amt1 *ℤ exc.amt0)
unfolding trade_out
trade_out_bounds ex exc out p q r s e =
    let (o, f, g) = >>=-eq-ok (div_ℤ (ex.amt1 *ℤ exc.amt0) exc.amt1) _ e in
    let (positive, paid) = div_bounds ex.amt1 exc.amt0 exc.amt1 o p q r f in
    let (low, least, reach) = smaller (rest_of exc) o out s positive (ok-eq-ok g) in
    let mono = *ℤ_mono out o exc.amt1 exc.amt1 low r reach (omega arith) in
    (low, least, omega (arith, mono, paid))

abbrev pub FoundIn : Db → String → ExchangeCollect → Type 0
FoundIn db ex_id c = first_where (has_id ex_id) db.exchange_collect ≡ some c

abbrev pub finished : ExchangeInfo → ExchangeCollect → ℤ → ExchangeCollect → ExchangeCollect
finished ex exc out c = record c {
  amt0_finish = exc.amt0_finish +ℤ out;
  amt1_finish = exc.amt1_finish +ℤ ex.amt1;
}

pub record TradeRun (ex : ExchangeInfo) (db : Db) (ex' : ExchangeInfo) (db' : Db) : Type 0 where
  pub exc : ExchangeCollect
  pub found : FoundIn db ex.ex_id exc
  pub out : ℤ
  pub computed : trade_out ex exc ≡ ok out
  pub db0 : Db
  pub db1 : Db
  pub balances : db0.drc20_collect_address ≡ db.drc20_collect_address
  pub orders :
      db0.exchange_collect
      ≡ update_where (has_id ex.ex_id) (finished ex exc out) db.exchange_collect
  pub brought :
      transfer_drc20 exc.tick1 ex.holder_address exc.holder_address ex.amt1 ex.tx_hash
        ex.block_number false db0
      ≡ ok db1
  pub given :
      transfer_drc20 exc.tick0 exc.reserves_address ex.holder_address out ex.tx_hash ex.block_number
        false db1
      ≡ ok db'
  pub result : ex' ≡ record ex { tick0 = exc.tick0; tick1 = exc.tick1; amt0 = out }

pub exchange_trade-eq-ok :
    (ex ex' : ExchangeInfo) (db db' : Db)
    → exchange_trade ex db ≡ ok (ex', db')
    → TradeRun ex db ex' db'
unfolding exchange_trade
exchange_trade-eq-ok ex ex' db db' e =
    let (c, e0, e1) = >>=-eq-ok (find_order ex.ex_id db) _ e in
    let (out, e2, e3) = >>=-eq-ok (trade_out ex c) _ e1 in
    let (db1, e4, e5) =
      >>=-eq-ok
        (transfer_drc20 c.tick1 ex.holder_address c.holder_address ex.amt1 ex.tx_hash
          ex.block_number false _)
        _ e3 in
    let (db2, e6, e7) =
      >>=-eq-ok
        (transfer_drc20 c.tick0 c.reserves_address ex.holder_address out ex.tx_hash ex.block_number
          false db1)
        _ e5 in
    let (same_ex, same_db) = ok-eq-ok_pair e7 in
    record {
      exc = c;
      found = or_err-eq-ok _ no_row e0;
      out = out;
      computed = e2;
      db0 = _;
      db1 = db1;
      balances = refl;
      orders = refl;
      brought = e4;
      given = e6 ∙ ap ok same_db;
      result = sym same_ex;
    }

-- The order that is found after a trade, and who has what.
module _ {ex ex' : ExchangeInfo} {db db' : Db} (run : TradeRun ex db ex' db') where
  abbrev c : ExchangeCollect
  c = run.exc

  abbrev pub filled : ExchangeCollect
  filled = finished ex c run.out c

  pub found_after : FoundIn db' ex.ex_id filled
  found_after =
      let moved =
        transfer_orders c.tick0 run.out ex.tx_hash ex.block_number false run.db1 db'
          c.reserves_address ex.holder_address run.given
        ∙ transfer_orders c.tick1 ex.amt1 ex.tx_hash ex.block_number false run.db0 run.db1
            ex.holder_address c.holder_address run.brought
        ∙ run.orders in
      rw moved (
        first_where-update_where (has_id ex.ex_id) (finished ex c run.out) db.exchange_collect
          (λ r. refl) run.found)

  same_start : (t h : String) → held_by t h run.db0 ≡ held_by t h db
  same_start t h = rw run.balances

  trader_apart : ex.holder_address ≢ c.reserves_address
  trader_apart p =
      (held_by-transfer_drc20 c.tick0 run.out ex.tx_hash ex.block_number false run.db1 db'
          c.reserves_address ex.holder_address run.given).1
        (sym p)

  -- The reserves give what the trade pays out.
  pub reserves_after :
      c.holder_address ≢ c.reserves_address
      → held_by c.tick0 c.reserves_address db' ≡ held_by c.tick0 c.reserves_address db -ℤ run.out
  reserves_after apart =
      transfer_src c.tick0 run.out ex.tx_hash ex.block_number false run.db1 db' c.reserves_address
        ex.holder_address run.given
      ∙ ap (λ (x : ℤ). x -ℤ run.out)
          (transfer_other_holder c.tick1 ex.amt1 ex.tx_hash ex.block_number false run.db0 run.db1
              ex.holder_address c.holder_address run.brought c.tick0 c.reserves_address trader_apart
              apart
            ∙ same_start c.tick0 c.reserves_address)

  pub trader_pays :
      c.tick0 ≢ c.tick1
      → (held_by c.tick1 ex.holder_address db' ≡ held_by c.tick1 ex.holder_address db -ℤ ex.amt1)
        × (held_by c.tick1 c.holder_address db' ≡ held_by c.tick1 c.holder_address db +ℤ ex.amt1)
        × (held_by c.tick0 ex.holder_address db' ≡ held_by c.tick0 ex.holder_address db +ℤ run.out)
  trader_pays ne =
      let later = λ (h : String).
        transfer_other_tick c.tick0 run.out ex.tx_hash ex.block_number false run.db1 db'
          c.reserves_address ex.holder_address run.given c.tick1 h ne in
      (
        later ex.holder_address
            ∙ transfer_src c.tick1 ex.amt1 ex.tx_hash ex.block_number false run.db0 run.db1
                ex.holder_address c.holder_address run.brought
            ∙ ap (λ (x : ℤ). x -ℤ ex.amt1) (same_start c.tick1 ex.holder_address),
        later c.holder_address
            ∙ transfer_dst c.tick1 ex.amt1 ex.tx_hash ex.block_number false run.db0 run.db1
                ex.holder_address c.holder_address run.brought
            ∙ ap (λ (x : ℤ). x +ℤ ex.amt1) (same_start c.tick1 c.holder_address),
        transfer_dst c.tick0 run.out ex.tx_hash ex.block_number false run.db1 db' c.reserves_address
              ex.holder_address run.given
            ∙ ap (λ (x : ℤ). x +ℤ run.out)
                (transfer_other_tick c.tick1 ex.amt1 ex.tx_hash ex.block_number false run.db0
                    run.db1 ex.holder_address c.holder_address run.brought c.tick0 ex.holder_address
                    (λ p. ne (sym p))
                  ∙ same_start c.tick0 ex.holder_address),
      )
