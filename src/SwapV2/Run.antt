-- ===== src/SwapV2/Run.antt =====
-- storage/swap_v2.go: the steps of an exchange and of an addition that succeed.
use dogeuni_indexer.Prelude.{String, false, ◌≡◌, some, sym}
use dogeuni_indexer.Prelude.Int.{ℤ}
use dogeuni_indexer.Prelude.Result.{ok, >>=-eq-ok, or_err, or_err-eq-ok, no_row, ok-eq-ok_pair}
use dogeuni_indexer.Models.{SwapV2Info, SwapV2Liquidity, Db}
use dogeuni_indexer.Tables.{first_where}
use dogeuni_indexer.Swap.{exec_out}
use dogeuni_indexer.Meme20.{mint_meme20}
use dogeuni_indexer.SwapV2.{
  is_pair, pay_v2, oriented_v2, reserve_of_v2, add_amounts_v2, add_liquidity_v2,
  update_v2_liquidity, with_ticks, swap_v2_exec, swap_v2_add,
}
use dogeuni_indexer.SwapV2.Pay.{Paid, pay_v2-Paid}

pub record ExecRun (swap : SwapV2Info) (db : Db) (swap' : SwapV2Info) (db' : Db) : Type 0 where
  pub pool : SwapV2Liquidity
  pub found : first_where (is_pair swap.pair_id) db.swap_v2_liquidity ≡ some pool
  pub turned : SwapV2Info
  pub oriented : oriented_v2 swap pool ≡ ok turned
  pub reserve_out : ℤ
  pub reserve_in : ℤ
  pub amtout : ℤ
  pub out_of : reserve_of_v2 turned.tick1_id pool ≡ ok reserve_out
  pub in_of : reserve_of_v2 turned.tick0_id pool ≡ ok reserve_in
  pub computed : exec_out turned.amt0 reserve_in reserve_out ≡ ok amtout
  pub db1 : Db
  pub db2 : Db
  pub received : Paid turned.tick0_id turned.holder_address pool.reserves_address turned.amt0 db db1
  pub sent : Paid turned.tick1_id pool.reserves_address turned.holder_address amtout db1 db2
  pub result_swap : swap' ≡ record turned { amt1_out = amtout }
  pub result_db : db' ≡ update_v2_liquidity turned.pair_id db2

pub swap_v2_exec-eq-ok :
    (swap : SwapV2Info) (db : Db) (swap' : SwapV2Info) (db' : Db)
    → swap_v2_exec swap db ≡ ok (swap', db')
    → ExecRun swap db swap' db'
unfolding swap_v2_exec
swap_v2_exec-eq-ok swap db swap' db' e =
    let (p, e0, e1) =
      >>=-eq-ok (or_err (first_where (is_pair swap.pair_id) db.swap_v2_liquidity) no_row) _ e in
    let (s, t0, t1) = >>=-eq-ok (oriented_v2 swap p) _ e1 in
    let (ro, e2, e3) = >>=-eq-ok (reserve_of_v2 s.tick1_id p) _ t1 in
    let (ri, e4, e5) = >>=-eq-ok (reserve_of_v2 s.tick0_id p) _ e3 in
    let (out, e6, e7) = >>=-eq-ok (exec_out s.amt0 ri ro) _ e5 in
    let (d1, e8, e9) =
      >>=-eq-ok (pay_v2 s s.tick0_id s.holder_address p.reserves_address s.amt0 db) _ e7 in
    let (d2, e10, e11) =
      >>=-eq-ok (pay_v2 s s.tick1_id p.reserves_address s.holder_address out d1) _ e9 in
    record {
      pool = p;
      found = or_err-eq-ok _ _ e0;
      turned = s;
      oriented = t0;
      reserve_out = ro;
      reserve_in = ri;
      amtout = out;
      out_of = e2;
      in_of = e4;
      computed = e6;
      db1 = d1;
      db2 = d2;
      received = pay_v2-Paid s s.tick0_id s.holder_address p.reserves_address s.amt0 db d1 e8;
      sent = pay_v2-Paid s s.tick1_id p.reserves_address s.holder_address out d1 d2 e10;
      result_swap = sym (ok-eq-ok_pair e11).0;
      result_db = sym (ok-eq-ok_pair e11).1;
    }

pub record AddRun (script_address : String → String) (swap : SwapV2Info) (db : Db)
    (swap' : SwapV2Info) (db' : Db) : Type 0 where
  pub pool : SwapV2Liquidity
  pub found : first_where (is_pair swap.pair_id) db.swap_v2_liquidity ≡ some pool
  pub amounts : ℤ × ℤ
  pub liquidity : ℤ
  pub counted : add_amounts_v2 swap pool ≡ ok amounts
  pub computed : add_liquidity_v2 amounts.0 amounts.1 pool ≡ ok liquidity
  pub db1 : Db
  pub db2 : Db
  pub db3 : Db
  pub paid0 : Paid pool.tick0_id swap.holder_address (script_address swap.pair_id) swap.amt0 db db1
  pub paid1 : Paid pool.tick1_id swap.holder_address (script_address swap.pair_id) swap.amt1 db1 db2
  pub issued :
      mint_meme20 pool.pair_id swap.holder_address liquidity swap.tx_hash swap.block_number false
        db2
      ≡ ok db3
  pub result_swap : swap' ≡ record (with_ticks swap pool) {
    amt0_out = amounts.0;
    amt1_out = amounts.1;
    liquidity = liquidity;
  }
  pub result_db : db' ≡ update_v2_liquidity swap.pair_id db3

pub swap_v2_add-eq-ok :
    (script_address : String → String) (swap : SwapV2Info) (db : Db) (swap' : SwapV2Info) (db' : Db)
    → swap_v2_add script_address swap db ≡ ok (swap', db')
    → AddRun script_address swap db swap' db'
unfolding swap_v2_add
swap_v2_add-eq-ok script_address swap db swap' db' e =
    let r = script_address swap.pair_id in
    let (p, e0, e1) =
      >>=-eq-ok (or_err (first_where (is_pair swap.pair_id) db.swap_v2_liquidity) no_row) _ e in
    let (am, e2, e3) = >>=-eq-ok (add_amounts_v2 swap p) _ e1 in
    let (l, e4, e5) = >>=-eq-ok (add_liquidity_v2 am.0 am.1 p) _ e3 in
    let (d1, e6, e7) = >>=-eq-ok (pay_v2 swap p.tick0_id swap.holder_address r swap.amt0 db) _ e5 in
    let (d2, e8, e9) = >>=-eq-ok (pay_v2 swap p.tick1_id swap.holder_address r swap.amt1 d1) _ e7 in
    let (d3, e10, e11) =
      >>=-eq-ok
        (mint_meme20 p.pair_id swap.holder_address l swap.tx_hash swap.block_number false d2) _
        e9 in
    record {
      pool = p;
      found = or_err-eq-ok _ _ e0;
      amounts = am;
      liquidity = l;
      counted = e2;
      computed = e4;
      db1 = d1;
      db2 = d2;
      db3 = d3;
      paid0 = pay_v2-Paid swap p.tick0_id swap.holder_address r swap.amt0 db d1 e6;
      paid1 = pay_v2-Paid swap p.tick1_id swap.holder_address r swap.amt1 d1 d2 e8;
      issued = e10;
      result_swap = sym (ok-eq-ok_pair e11).0;
      result_db = sym (ok-eq-ok_pair e11).1;
    }
