-- ===== src/Swap/Run.antt =====
-- storage/swap.go `SwapExec`: the steps of an exchange that succeeds, and the reserves it reads.
use dogeuni_indexer.Prelude.{String, ◌≡◌, some, eq_iff, arith, sym}
use dogeuni_indexer.Prelude.Int.{ℤ, pos, ◌≤ℤ◌}
use dogeuni_indexer.Prelude.Result.{ok, >>=-eq-ok, or_err, or_err-eq-ok, no_row, ok-eq-ok_pair}
use dogeuni_indexer.Models.{SwapInfo, SwapLiquidity, Db}
use dogeuni_indexer.Drc20.Balances.{held_by}
use dogeuni_indexer.Pools.{find_pool, update_liquidity}
use dogeuni_indexer.Swap.{sort_tokens, reserve_of, exec_out, swap_exec, pay}

-- The run of an exchange that succeeds.
pub record ExecRun (swap : SwapInfo) (db : Db) (swap' : SwapInfo) (db' : Db) : Type 0 where
  pub pool : SwapLiquidity
  pub found :
      find_pool (sort_tokens swap).tick0 (sort_tokens swap).tick1 db.swap_liquidity ≡ some pool
  pub reserve_out : ℤ
  pub reserve_in : ℤ
  pub amtout : ℤ
  pub out_of : reserve_of swap.tick1 pool ≡ ok reserve_out
  pub in_of : reserve_of swap.tick0 pool ≡ ok reserve_in
  pub computed : exec_out swap.amt0 reserve_in reserve_out ≡ ok amtout
  pub db1 : Db
  pub db2 : Db
  pub received : pay swap swap.tick0 swap.holder_address pool.reserves_address swap.amt0 db ≡ ok db1
  pub sent : pay swap swap.tick1 pool.reserves_address swap.holder_address amtout db1 ≡ ok db2
  pub result_swap : swap' ≡ record swap { amt1_out = amtout }
  pub result_db : db' ≡ update_liquidity pool.tick db2

pub swap_exec-eq-ok :
    (swap : SwapInfo) (db : Db) (swap' : SwapInfo) (db' : Db)
    → swap_exec swap db ≡ ok (swap', db')
    → ExecRun swap db swap' db'
unfolding swap_exec
swap_exec-eq-ok swap db swap' db' e =
    let sorted = sort_tokens swap in
    let (p, e0, e1) =
      >>=-eq-ok (or_err (find_pool sorted.tick0 sorted.tick1 db.swap_liquidity) no_row) _ e in
    let (ro, e2, e3) = >>=-eq-ok (reserve_of swap.tick1 p) _ e1 in
    let (ri, e4, e5) = >>=-eq-ok (reserve_of swap.tick0 p) _ e3 in
    let (out, e6, e7) = >>=-eq-ok (exec_out swap.amt0 ri ro) _ e5 in
    let (d1, e8, e9) =
      >>=-eq-ok (pay swap swap.tick0 swap.holder_address p.reserves_address swap.amt0 db) _ e7 in
    let (d2, e10, e11) =
      >>=-eq-ok (pay swap swap.tick1 p.reserves_address swap.holder_address out d1) _ e9 in
    record {
      pool = p;
      found = or_err-eq-ok _ _ e0;
      reserve_out = ro;
      reserve_in = ri;
      amtout = out;
      out_of = e2;
      in_of = e4;
      computed = e6;
      db1 = d1;
      db2 = d2;
      received = e8;
      sent = e10;
      result_swap = sym (ok-eq-ok_pair e11).0;
      result_db = sym (ok-eq-ok_pair e11).1;
    }

-- The pool's recorded amounts are not negative and the reserves hold at least them. (A transfer
-- straight to the reserves' address leaves them with more.)
pub record IsCovered (db : Db) (p : SwapLiquidity) : Type 0 where
  pub positive0 : pos 0 ≤ℤ p.amt0
  pub positive1 : pos 0 ≤ℤ p.amt1
  pub covered0 : p.amt0 ≤ℤ held_by p.tick0 p.reserves_address db
  pub covered1 : p.amt1 ≤ℤ held_by p.tick1 p.reserves_address db

pub reserve_of_covered :
    (t : String) (p : SwapLiquidity) (db : Db) {r : ℤ}
    → IsCovered db p
    → reserve_of t p ≡ ok r
    → (pos 0 ≤ℤ r) × (r ≤ℤ held_by t p.reserves_address db)
unfolding reserve_of
reserve_of_covered t p db c e = ground (arith, eq_iff t p.tick0, eq_iff t p.tick1)
