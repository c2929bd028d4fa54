-- ===== src/Swap/Conservation.antt =====
-- storage/swap.go: the four pool operations keep every token's supply the sum of its balances, and
-- no pool's amounts negative.
use Prim.Native.String.{◌++◌ as ◌^^◌}
use dogeuni_indexer.Prelude.{String, ◌≡◌, false, [], ◌∷◌, ◌++◌, arith, sym, ◌∙◌, refl, ◌||◌}
use dogeuni_indexer.Prelude.Int.{ℤ, pos, ◌*ℤ◌, ◌≤ℤ◌, ltb_ℤ, -ℤ_parts}
use dogeuni_indexer.Prelude.Div.{sqrt_ℤ}
use dogeuni_indexer.Prelude.Result.{
  ok, >>=-eq-ok, or_err, or_err-eq-ok, fail_if, no_row, insufficient, ok-eq-ok_pair,
}
use dogeuni_indexer.Models.{Drc20Collect, SwapInfo, SwapLiquidity, SwapRevert, Db}
use dogeuni_indexer.Tokens.Supply.{supply-append}
use dogeuni_indexer.Drc20.{burn_drc20}
use dogeuni_indexer.Drc20.Effects.{transfer_drc20-eq-ok}
use dogeuni_indexer.Pools.{find_pool}
use dogeuni_indexer.Pools.Solid.{
  IsSolid, IsNonNegative, find_pool-IsNonNegative, append-AllNonNegative, update_liquidity-IsSolid,
}
use dogeuni_indexer.Pools.Tokens.{transfer_drc20-IsSolid, mint_drc20-IsSolid, burn_drc20-IsSolid}
use dogeuni_indexer.Swap.{
  mini_liquidity, pay, issue, first_liquidity, add_amounts, add_liquidity, remove_share,
  swap_create, swap_add, swap_remove, swap_exec, pair_tick,
}
use dogeuni_indexer.Swap.Run.{swap_exec-eq-ok}
use dogeuni_indexer.Swap.Amounts.{add_liquidity_bounds}

add_amounts_positive :
    (s : SwapInfo) (db db1 db2 : Db) (r : String) (a b : ℤ)
    → pay s s.tick0 s.holder_address r a db ≡ ok db1
    → pay s s.tick1 s.holder_address r b db1 ≡ ok db2
    → (pos 1 ≤ℤ a) × (pos 1 ≤ℤ b)
add_amounts_positive s db db1 db2 r a b e f = (
  (transfer_drc20-eq-ok s.tick0 s.holder_address r a s.tx_hash s.block_number false db db1
      e).0.positive,
  (transfer_drc20-eq-ok s.tick1 s.holder_address r b s.tx_hash s.block_number false db1 db2
      f).0.positive,
)

module _ (script_address : String → String) (swap swap' : SwapInfo) (db db' : Db)
    (v : IsSolid db) where
  pub swap_add-IsSolid : swap_add script_address swap db ≡ ok (swap', db') → IsSolid db'
  unfolding swap_add
  swap_add-IsSolid e =
      let r = script_address (swap.tick0 ^^ swap.tick1) in
      let tick = pair_tick swap.tick0 swap.tick1 in
      let h = swap.holder_address in
      let (p, e0, e1) =
        >>=-eq-ok (or_err (find_pool swap.tick0 swap.tick1 db.swap_liquidity) no_row) _ e in
      let (amounts, _, e3) = >>=-eq-ok (add_amounts swap p) _ e1 in
      let (liquidity, e4, e5) = >>=-eq-ok (add_liquidity amounts.0 amounts.1 p) _ e3 in
      let (db1, e6, e7) = >>=-eq-ok (pay swap swap.tick0 h r amounts.0 db) _ e5 in
      let (db2, e8, e9) = >>=-eq-ok (pay swap swap.tick1 h r amounts.1 db1) _ e7 in
      let (db3, e10, e11) = >>=-eq-ok (issue swap tick h liquidity db2) _ e9 in
      let (a, b) = add_amounts_positive swap db db1 db2 r amounts.0 amounts.1 e6 e8 in
      let (n0, n1, n2) =
        find_pool-IsNonNegative swap.tick0 swap.tick1 db.swap_liquidity v.pools
          (or_err-eq-ok _ no_row e0) in
      let (positive, _, _) =
        add_liquidity_bounds amounts.0 amounts.1 liquidity p (omega (arith, a)) (omega (arith, b))
          n2 n0 n1 e4 in
      let v1 =
        transfer_drc20-IsSolid swap.tick0 amounts.0 swap.tx_hash swap.block_number false db db1 v h
          r e6 in
      let v2 =
        transfer_drc20-IsSolid swap.tick1 amounts.1 swap.tx_hash swap.block_number false db1 db2 v1
          h r e8 in
      let v3 =
        mint_drc20-IsSolid tick liquidity swap.tx_hash swap.block_number false db2 db3 v2 h positive
          e10 in
      rw (sym (ok-eq-ok_pair e11).1) (update_liquidity-IsSolid tick db3 v3)

pub swap_remove-IsSolid :
    (swap swap' : SwapInfo) (db db' : Db)
    → IsSolid db
    → swap_remove swap db ≡ ok (swap', db')
    → IsSolid db'
unfolding swap_remove
swap_remove-IsSolid swap swap' db db' v e =
    let h = swap.holder_address in
    let (p, e0, e1) =
      >>=-eq-ok (or_err (find_pool swap.tick0 swap.tick1 db.swap_liquidity) no_row) _ e in
    let (a, _, e3) = >>=-eq-ok (remove_share swap.liquidity p.amt0 p.liquidity_total) _ e1 in
    let (b, _, e5) = >>=-eq-ok (remove_share swap.liquidity p.amt1 p.liquidity_total) _ e3 in
    let (_, _, e7) = >>=-eq-ok (fail_if (ltb_ℤ p.amt0 a || ltb_ℤ p.amt1 b) insufficient) _ e5 in
    let (db1, f1, e8) = >>=-eq-ok (pay swap swap.tick0 p.reserves_address h a db) _ e7 in
    let (db2, f2, e9) = >>=-eq-ok (pay swap swap.tick1 p.reserves_address h b db1) _ e8 in
    let (db3, f3, e10) =
      >>=-eq-ok (burn_drc20 p.tick h swap.liquidity swap.tx_hash swap.block_number false db2) _
        e9 in
    let v1 =
      transfer_drc20-IsSolid swap.tick0 a swap.tx_hash swap.block_number false db db1 v
        p.reserves_address h f1 in
    let v2 =
      transfer_drc20-IsSolid swap.tick1 b swap.tx_hash swap.block_number false db1 db2 v1
        p.reserves_address h f2 in
    let v3 =
      burn_drc20-IsSolid p.tick swap.liquidity swap.tx_hash swap.block_number false db2 db3 v2 h
        f3 in
    rw (sym (ok-eq-ok_pair e10).1) (update_liquidity-IsSolid p.tick db3 v3)

pub swap_exec-IsSolid :
    (swap swap' : SwapInfo) (db db' : Db)
    → IsSolid db
    → swap_exec swap db ≡ ok (swap', db')
    → IsSolid db'
swap_exec-IsSolid swap swap' db db' v e =
    let run = swap_exec-eq-ok swap db swap' db' e in
    let r = run.pool.reserves_address in
    let v1 =
      transfer_drc20-IsSolid swap.tick0 swap.amt0 swap.tx_hash swap.block_number false db run.db1 v
        swap.holder_address r run.received in
    let v2 =
      transfer_drc20-IsSolid swap.tick1 run.amtout swap.tx_hash swap.block_number false run.db1
        run.db2 v1 r swap.holder_address run.sent in
    rw run.result_db (update_liquidity-IsSolid run.pool.tick run.db2 v2)

first_liquidity_positive : (a b l : ℤ) → first_liquidity a b ≡ ok l → pos 1 ≤ℤ l
unfolding first_liquidity
first_liquidity_positive a b l e =
    let (base, _, f) = >>=-eq-ok (sqrt_ℤ (a *ℤ b)) _ e in ground (arith, -ℤ_parts base (pos 1000))

pub new_token-IsSolid :
    (c : Drc20Collect) (db : Db)
    → c.amt_sum ≡ pos 0
    → IsSolid db
    → IsSolid (record db { drc20_collect = db.drc20_collect ++ c ∷ [] })
new_token-IsSolid c db zero v = record {
  is_backed = record {
    sound = v.is_backed.sound;
    backed = λ t. v.is_backed.backed t ∙ sym (supply-append t c db.drc20_collect zero);
  };
  pools = v.pools;
}

new_pool-IsSolid :
    (p : SwapLiquidity) (db : Db)
    → IsNonNegative p
    → IsSolid db
    → IsSolid (record db { swap_liquidity = db.swap_liquidity ++ p ∷ [] })
new_pool-IsSolid p db n v = record {
  is_backed = record { sound = v.is_backed.sound; backed = v.is_backed.backed };
  pools = append-AllNonNegative p db.swap_liquidity n v.pools;
}

new_revert-IsSolid :
    (r : SwapRevert) (db : Db)
    → IsSolid db
    → IsSolid (record db { swap_revert = r ∷ db.swap_revert })
new_revert-IsSolid r db v = record {
  is_backed = record { sound = v.is_backed.sound; backed = v.is_backed.backed };
  pools = v.pools;
}

pub swap_create-IsSolid :
    (script_address : String → String) (swap swap' : SwapInfo) (db db' : Db)
    → IsSolid db
    → swap_create script_address swap db ≡ ok (swap', db')
    → IsSolid db'
unfolding swap_create
swap_create-IsSolid script_address swap swap' db db' v e =
    let r = script_address (swap.tick0 ^^ swap.tick1) in
    let tick = pair_tick swap.tick0 swap.tick1 in
    let h = swap.holder_address in
    let hash = swap.tx_hash in
    let height = swap.block_number in
    let (base, e0, e1) = >>=-eq-ok (first_liquidity swap.amt0 swap.amt1) _ e in
    let positive = first_liquidity_positive swap.amt0 swap.amt1 base e0 in
    let v0 = new_pool-IsSolid _ db (omega arith, omega arith, omega (arith, positive)) v in
    let (db1, f1, e2) = >>=-eq-ok (pay swap swap.tick0 h r swap.amt0 _) _ e1 in
    let v1 = transfer_drc20-IsSolid swap.tick0 swap.amt0 hash height false _ db1 v0 h r f1 in
    let (db2, f2, e3) = >>=-eq-ok (pay swap swap.tick1 h r swap.amt1 db1) _ e2 in
    let v2 = transfer_drc20-IsSolid swap.tick1 swap.amt1 hash height false db1 db2 v1 h r f2 in
    let v3 = new_token-IsSolid _ db2 refl v2 in
    let (db3, f3, e4) = >>=-eq-ok (issue swap tick h base _) _ e3 in
    let v4 =
      mint_drc20-IsSolid tick base hash height false _ db3 v3 h (omega (arith, positive)) f3 in
    let (db4, f4, e5) = >>=-eq-ok (issue swap tick r mini_liquidity db3) _ e4 in
    let v5 =
      mint_drc20-IsSolid tick mini_liquidity hash height false db3 db4 v4 r (omega arith) f4 in
    rw (sym (ok-eq-ok_pair e5).1) (new_revert-IsSolid _ _ (update_liquidity-IsSolid tick db4 v5))
