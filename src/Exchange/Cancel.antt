-- ===== src/Exchange/Cancel.antt =====
-- storage/exchange.go `ExchangeCancel`, and what the fork handler finds to undo.
use dogeuni_indexer.Prelude.{String, ◌≡◌, false, List, [], ◌∷◌, arith, sym, ap, ◌∙◌, refl}
use dogeuni_indexer.Prelude.Int.{ℤ, pos, ◌+ℤ◌, ◌-ℤ◌, ◌≤ℤ◌, int_laws}
use dogeuni_indexer.Prelude.Result.{ok, >>=-eq-ok, or_err-eq-ok, no_row, ok-eq-ok, ok-eq-ok_pair}
use dogeuni_indexer.Models.{ExchangeInfo, ExchangeCollect, ExchangeRevert, Db}
use dogeuni_indexer.Tables.{find_where, first_where, update_where, first_where-update_where}
use dogeuni_indexer.Drc20.{transfer_drc20}
use dogeuni_indexer.Drc20.Balances.{
  held_by, held_by-transfer_drc20, transfer_src, transfer_dst, transfer_orders, transfer_order_log,
}
use dogeuni_indexer.Exchange.{
  has_id, find_order, revert_row, trade_out, exchange_create, exchange_trade, exchange_cancel,
  undo_all, reverts_above, exchange_fork,
}
use dogeuni_indexer.Exchange.Trade.{rest_of, FoundIn}

-- A cancellation that succeeds, whoever sends it, pays its sender from the order's reserves the
-- amount that the message states, which the reserves have, and takes that amount from the order's
-- rest.
pub exchange_cancel_moves :
    (ex ex' : ExchangeInfo) (db db' : Db) (c : ExchangeCollect)
    → FoundIn db ex.ex_id c
    → exchange_cancel ex db ≡ ok (ex', db')
    → (ex.amt0 ≤ℤ held_by c.tick0 c.reserves_address db)
      × (held_by c.tick0 ex.holder_address db' ≡ held_by c.tick0 ex.holder_address db +ℤ ex.amt0)
      × (held_by c.tick0 c.reserves_address db' ≡ held_by c.tick0 c.reserves_address db -ℤ ex.amt0)
      × ((d : ExchangeCollect) × FoundIn db' ex.ex_id d × (rest_of d ≡ rest_of c -ℤ ex.amt0))
unfolding exchange_cancel
exchange_cancel_moves ex ex' db db' c found e =
    let (k, e0, e1) = >>=-eq-ok (find_order ex.ex_id db) _ e in
    let same : k ≡ c = cc (found, or_err-eq-ok _ no_row e0) in
    let (d1, e2, e3) =
      >>=-eq-ok
        (transfer_drc20 k.tick0 k.reserves_address ex.holder_address ex.amt0 ex.tx_hash
          ex.block_number false db)
        _ e1 in
    let (_, _, covered, _) =
      held_by-transfer_drc20 k.tick0 ex.amt0 ex.tx_hash ex.block_number false db d1
        k.reserves_address ex.holder_address e2 in
    let result = sym (ok-eq-ok_pair e3).1 in
    let orders =
      transfer_orders k.tick0 ex.amt0 ex.tx_hash ex.block_number false db d1 k.reserves_address
        ex.holder_address e2 in
    let finish = λ (x : ExchangeCollect). record x { amt0_finish = k.amt0_finish +ℤ ex.amt0 } in
    let after =
      first_where-update_where (has_id ex.ex_id) finish db.exchange_collect (λ r. refl) found in
    (
      rw (← same) covered,
      rw (← same) (
          ap (held_by k.tick0 ex.holder_address) result
          ∙ transfer_dst k.tick0 ex.amt0 ex.tx_hash ex.block_number false db d1 k.reserves_address
              ex.holder_address e2),
      rw (← same) (
          ap (held_by k.tick0 k.reserves_address) result
          ∙ transfer_src k.tick0 ex.amt0 ex.tx_hash ex.block_number false db d1 k.reserves_address
              ex.holder_address e2),
      (
        finish c,
        ap (λ (x : Db). first_where (has_id ex.ex_id) x.exchange_collect) result
            ∙ ap
                (λ (l : List ExchangeCollect).
                  first_where (has_id ex.ex_id) (update_where (has_id ex.ex_id) finish l))
                orders
            ∙ after,
        rw same (omega int_laws),
      ),
    )

-- One operation on the orders.
pub data Step : Db → Db → Type 0 where
  create :
      (ex : ExchangeInfo) (reserves_address : String) (db db' : Db)
      → exchange_create ex reserves_address db ≡ ok db'
      → Step db db'
  trade : (ex ex' : ExchangeInfo) (db db' : Db) → exchange_trade ex db ≡ ok (ex', db') → Step db db'
  cancel :
      (ex ex' : ExchangeInfo) (db db' : Db) → exchange_cancel ex db ≡ ok (ex', db') → Step db db'

pub data Steps (base : Db) : Db → Type 0 where
  here : Steps base base
  next : {db db' : Db} → Steps base db → Step db db' → Steps base db'

-- A step logs one row, without the number of its block.
record Logs (db db' : Db) : Type 0 where
  row : ExchangeRevert
  unset : row.block_number ≡ pos 0
  logged : db'.exchange_revert ≡ row ∷ db.exchange_revert

create-Logs :
    (ex : ExchangeInfo) (r : String) (db db' : Db) → exchange_create ex r db ≡ ok db' → Logs db db'
unfolding exchange_create
create-Logs ex r db db' e =
    let (d1, f, g) =
      >>=-eq-ok
        (transfer_drc20 ex.tick0 ex.holder_address r ex.amt0 ex.tx_hash ex.block_number false _) _
        e in
    record {
      row = revert_row "create" ex (pos 0) (pos 0);
      unset = refl;
      logged =
          ap (λ (x : Db). x.exchange_revert) (sym (ok-eq-ok g))
          ∙ ap (λ (l : List ExchangeRevert). revert_row "create" ex (pos 0) (pos 0) ∷ l)
              (transfer_order_log ex.tick0 ex.amt0 ex.tx_hash ex.block_number false _ d1
                ex.holder_address r f);
    }

trade-Logs :
    (ex ex' : ExchangeInfo) (db db' : Db) → exchange_trade ex db ≡ ok (ex', db') → Logs db db'
unfolding exchange_trade
trade-Logs ex ex' db db' e =
    let (c, _, e1) = >>=-eq-ok (find_order ex.ex_id db) _ e in
    let (out, _, e3) = >>=-eq-ok (trade_out ex c) _ e1 in
    let (d1, e4, e5) =
      >>=-eq-ok
        (transfer_drc20 c.tick1 ex.holder_address c.holder_address ex.amt1 ex.tx_hash
          ex.block_number false _)
        _ e3 in
    let (d2, e6, e7) =
      >>=-eq-ok
        (transfer_drc20 c.tick0 c.reserves_address ex.holder_address out ex.tx_hash ex.block_number
          false d1)
        _ e5 in
    record {
      row = revert_row "trade" ex out ex.amt1;
      unset = refl;
      logged =
          ap (λ (x : Db). x.exchange_revert) (sym (ok-eq-ok_pair e7).1)
          ∙ transfer_order_log c.tick0 out ex.tx_hash ex.block_number false d1 d2 c.reserves_address
              ex.holder_address e6
          ∙ transfer_order_log c.tick1 ex.amt1 ex.tx_hash ex.block_number false _ d1
              ex.holder_address c.holder_address e4;
    }

cancel-Logs :
    (ex ex' : ExchangeInfo) (db db' : Db) → exchange_cancel ex db ≡ ok (ex', db') → Logs db db'
unfolding exchange_cancel
cancel-Logs ex ex' db db' e =
    let (c, _, e1) = >>=-eq-ok (find_order ex.ex_id db) _ e in
    let (d1, f, g) =
      >>=-eq-ok
        (transfer_drc20 c.tick0 c.reserves_address ex.holder_address ex.amt0 ex.tx_hash
          ex.block_number false db)
        _ e1 in
    record {
      row = revert_row "cancel" ex ex.amt0 (pos 0);
      unset = refl;
      logged =
          ap (λ (x : Db). x.exchange_revert) (sym (ok-eq-ok_pair g).1)
          ∙ ap (λ (l : List ExchangeRevert). revert_row "cancel" ex ex.amt0 (pos 0) ∷ l)
              (transfer_order_log c.tick0 ex.amt0 ex.tx_hash ex.block_number false db d1
                c.reserves_address ex.holder_address f);
    }

Step-Logs : {db db' : Db} → Step db db' → Logs db db'
Step-Logs (create ex r db db' e) = create-Logs ex r db db' e
Step-Logs (trade ex ex' db db' e) = trade-Logs ex ex' db db' e
Step-Logs (cancel ex ex' db db' e) = cancel-Logs ex ex' db db' e

passed_over :
    (height : ℤ) (r : ExchangeRevert) (log : List ExchangeRevert)
    → pos 0 ≤ℤ height
    → r.block_number ≡ pos 0
    → reverts_above height (r ∷ log) ≡ reverts_above height log
unfolding find_where reverts_above
passed_over height r log p unset = ground (arith, unset)

reverts_above-Steps :
    {base db : Db} (height : ℤ)
    → pos 0 ≤ℤ height
    → reverts_above height base.exchange_revert ≡ []
    → Steps base db
    → reverts_above height db.exchange_revert ≡ []
reverts_above-Steps height p old here = old
reverts_above-Steps height p old (next {db} r st) =
    let g = Step-Logs st in
    rw g.logged (passed_over height g.row _ p g.unset ∙ reverts_above-Steps height p old r)

-- From a database with no order to undo above a height that is not negative, after any orders
-- created, traded and cancelled, at any heights, a fork to the height changes nothing.
pub exchange_fork-Steps :
    (height : ℤ) (base db : Db)
    → pos 0 ≤ℤ height
    → reverts_above height base.exchange_revert ≡ []
    → Steps base db
    → exchange_fork height db ≡ ok db
unfolding exchange_fork
exchange_fork-Steps height base db p old r =
    rw (reverts_above-Steps height p old r) (unfold undo_all in refl)
