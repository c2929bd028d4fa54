-- ===== src/Swap/Exchange.antt =====
-- storage/swap.go `SwapExec`: what an exchange does to the pool and to the tokens.
use dogeuni_indexer.Prelude.{String, false, ◌≡◌, ◌≢◌, ◌⊎◌, inl, inr, some, eq_iff, arith, sym, ◌∙◌}
use dogeuni_indexer.Prelude.Int.{◌+ℤ◌, ◌-ℤ◌, ◌*ℤ◌, ◌≤ℤ◌, int_laws, *ℤ_mono, *ℤ_comm}
use dogeuni_indexer.Prelude.Result.{ok}
use dogeuni_indexer.Models.{SwapInfo, SwapLiquidity, Db}
use dogeuni_indexer.Holders.Balance.{IsHeld}
use dogeuni_indexer.Drc20.Balances.{
  held_by, held_by-transfer_drc20, transfer_src, transfer_dst, transfer_other_tick,
  transfer-IsHeld_src, transfer-IsHeld_dst, transfer-keeps_IsHeld, transfer_pools,
}
use dogeuni_indexer.Drc20.Conservation.{IsBacked, transfer_drc20-IsBacked}
use dogeuni_indexer.Pools.{find_pool, update_liquidity, refresh}
use dogeuni_indexer.Pools.Current.{
  IsCurrent, find_pool_keys, find_pool-refresh_pools, refresh-IsCurrent, refresh_keys,
}
use dogeuni_indexer.Swap.{sort_tokens, reserve_of, swap_exec}
use dogeuni_indexer.Swap.Amounts.{exec_out_product}
use dogeuni_indexer.Swap.Run.{ExecRun, swap_exec-eq-ok, IsCovered, reserve_of_covered}

module _ {swap : SwapInfo} {db : Db} {swap' : SwapInfo} {db' : Db} (run : ExecRun swap db swap' db')
    (inv : IsBacked db) (cov : IsCovered db run.pool) (ne : swap.tick0 ≢ swap.tick1) where
  abbrev r : String
  r = run.pool.reserves_address

  exec-IsBacked : IsBacked run.db2
  exec-IsBacked =
      transfer_drc20-IsBacked swap.tick1 run.amtout swap.tx_hash swap.block_number false run.db1
        run.db2 r swap.holder_address
        (transfer_drc20-IsBacked swap.tick0 swap.amt0 swap.tx_hash swap.block_number false db
          run.db1 swap.holder_address r inv run.received)
        run.sent

  in_after : held_by swap.tick0 r run.db2 ≡ held_by swap.tick0 r db +ℤ swap.amt0
  in_after =
      transfer_other_tick swap.tick1 run.amtout swap.tx_hash swap.block_number false run.db1 run.db2
        r swap.holder_address run.sent swap.tick0 r (λ p. ne (sym p))
      ∙ transfer_dst swap.tick0 swap.amt0 swap.tx_hash swap.block_number false db run.db1
          swap.holder_address r run.received

  out_after : held_by swap.tick1 r run.db2 ≡ held_by swap.tick1 r db -ℤ run.amtout
  out_after =
      transfer_src swap.tick1 run.amtout swap.tx_hash swap.block_number false run.db1 run.db2 r
        swap.holder_address run.sent
      ∙ rw (
          transfer_other_tick swap.tick0 swap.amt0 swap.tx_hash swap.block_number false db run.db1
            swap.holder_address r run.received swap.tick1 r ne)

  product_grows :
      run.reserve_in *ℤ run.reserve_out
      ≤ℤ held_by swap.tick0 r run.db2 *ℤ held_by swap.tick1 r run.db2
  product_grows =
      let (p0, c0) = reserve_of_covered swap.tick0 run.pool db cov run.in_of in
      let (p1, c1) = reserve_of_covered swap.tick1 run.pool db cov run.out_of in
      let (amt_positive, _, _, _) =
        held_by-transfer_drc20 swap.tick0 swap.amt0 swap.tx_hash swap.block_number false db run.db1
          swap.holder_address r run.received in
      let (_, reach, grows) =
        exec_out_product swap.amt0 run.reserve_in run.reserve_out run.amtout (omega arith) p0 p1
          run.computed in
      let mono =
        *ℤ_mono (run.reserve_in +ℤ swap.amt0) (held_by swap.tick0 r db +ℤ swap.amt0)
          (run.reserve_out -ℤ run.amtout) (held_by swap.tick1 r db -ℤ run.amtout) (omega int_laws)
          (omega int_laws) (omega int_laws) (omega int_laws) in
      rw (in_after, out_after) (omega (arith, grows, mono))

  in-IsHeld : IsHeld swap.tick0 r run.db2.drc20_collect_address
  in-IsHeld =
      transfer-keeps_IsHeld swap.tick1 run.amtout swap.tx_hash swap.block_number false run.db1
        run.db2 r swap.holder_address run.sent swap.tick0 r
        (transfer-IsHeld_dst swap.tick0 swap.amt0 swap.tx_hash swap.block_number false db run.db1
          swap.holder_address r run.received)

  out-IsHeld : IsHeld swap.tick1 r run.db2.drc20_collect_address
  out-IsHeld =
      transfer-keeps_IsHeld swap.tick1 run.amtout swap.tx_hash swap.block_number false run.db1
        run.db2 r swap.holder_address run.sent swap.tick1 r
        (transfer-IsHeld_src swap.tick1 run.amtout swap.tx_hash swap.block_number false run.db1
          run.db2 r swap.holder_address run.sent)

  same_pools : run.db2.swap_liquidity ≡ db.swap_liquidity
  same_pools =
      transfer_pools swap.tick1 run.amtout swap.tx_hash swap.block_number false run.db1 run.db2 r
        swap.holder_address run.sent
      ∙ transfer_pools swap.tick0 swap.amt0 swap.tx_hash swap.block_number false db run.db1
          swap.holder_address r run.received

  abbrev after : SwapLiquidity
  after = refresh run.db2.drc20_collect run.db2.drc20_collect_address run.pool

  after_found :
      find_pool
        (sort_tokens swap).tick0
        (sort_tokens swap).tick1
        (update_liquidity run.pool.tick run.db2).swap_liquidity
      ≡ some after
  unfolding update_liquidity
  after_found =
      find_pool-refresh_pools run.db2.drc20_collect run.db2.drc20_collect_address run.pool.tick
        (sort_tokens swap).tick0 (sort_tokens swap).tick1 run.db2.swap_liquidity
      ∙ rw (same_pools, run.found) (ground (arith, eq_iff run.pool.tick run.pool.tick))

  -- The pool lists the tokens in the order of the exchange, or in the other one.
  abbrev IsOriented : Type 0
  IsOriented =
      ((run.pool.tick0 ≡ swap.tick0)
        × (run.pool.tick1 ≡ swap.tick1)
        × (run.pool.amt0 ≡ run.reserve_in)
        × (run.pool.amt1 ≡ run.reserve_out))
      ⊎ ((run.pool.tick0 ≡ swap.tick1)
          × (run.pool.tick1 ≡ swap.tick0)
          × (run.pool.amt0 ≡ run.reserve_out)
          × (run.pool.amt1 ≡ run.reserve_in))

  oriented : IsOriented
  unfolding sort_tokens reserve_of
  oriented =
      let keys =
        find_pool_keys (sort_tokens swap).tick0 (sort_tokens swap).tick1 db.swap_liquidity
          run.found in
      let in_of = run.in_of in
      let out_of = run.out_of in
      ground (
        arith,
        keys,
        in_of,
        out_of,
        eq_iff swap.tick0 run.pool.tick0,
        eq_iff swap.tick0 run.pool.tick1,
        eq_iff swap.tick1 run.pool.tick0,
        eq_iff swap.tick1 run.pool.tick1,
      )

  after-IsCurrent : IsCurrent run.db2.drc20_collect_address after
  after-IsCurrent = elim oriented [
    | inl (t0, t1, _, _) ↦
        refresh-IsCurrent run.db2.drc20_collect run.db2.drc20_collect_address run.pool
          (rw t0 in-IsHeld) (rw t1 out-IsHeld)
    | inr (t0, t1, _, _) ↦
        refresh-IsCurrent run.db2.drc20_collect run.db2.drc20_collect_address run.pool
          (rw t0 out-IsHeld) (rw t1 in-IsHeld)
  ]

  after_product : run.pool.amt0 *ℤ run.pool.amt1 ≤ℤ after.amt0 *ℤ after.amt1
  after_product =
      let cs = run.db2.drc20_collect in
      let rs = run.db2.drc20_collect_address in
      let (_, k0, k1, kr) = refresh_keys cs rs run.pool in
      let now = after-IsCurrent in
      let now0 : after.amt0 ≡ held_by run.pool.tick0 r run.db2 = now.reserve0 ∙ rw (k0, kr) in
      let now1 : after.amt1 ≡ held_by run.pool.tick1 r run.db2 = now.reserve1 ∙ rw (k1, kr) in
      rw (now0, now1)
        (elim oriented [
          | inl (t0, t1, a0, a1) ↦ rw (t0, t1, a0, a1) product_grows
          | inr (t0, t1, a0, a1) ↦
              rw
                (
                  t0,
                  t1,
                  a0,
                  a1,
                  *ℤ_comm run.reserve_out run.reserve_in,
                  *ℤ_comm (held_by swap.tick1 r run.db2) (held_by swap.tick0 r run.db2),
                )
                product_grows
        ])

update_liquidity-IsBacked :
    (tick : String) (db : Db) → IsBacked db → IsBacked (update_liquidity tick db)
unfolding update_liquidity
update_liquidity-IsBacked tick db inv = record { sound = inv.sound; backed = inv.backed }

exec_found :
    {swap : SwapInfo} {db : Db} {swap' : SwapInfo} {db' : Db} (run : ExecRun swap db swap' db')
    → IsBacked db
    → IsCovered db run.pool
    → swap.tick0 ≢ swap.tick1
    → IsBacked (update_liquidity run.pool.tick run.db2)
      × ((q : SwapLiquidity) × (find_pool
              (sort_tokens swap).tick0
              (sort_tokens swap).tick1
              (update_liquidity run.pool.tick run.db2).swap_liquidity
            ≡ some q)
          × IsCurrent (update_liquidity run.pool.tick run.db2).drc20_collect_address q
          × (run.pool.amt0 *ℤ run.pool.amt1 ≤ℤ q.amt0 *ℤ q.amt1))
unfolding update_liquidity
exec_found run inv cov ne = (
  update_liquidity-IsBacked run.pool.tick run.db2 (exec-IsBacked run inv cov ne),
  (
    after run inv cov ne,
    after_found run inv cov ne,
    after-IsCurrent run inv cov ne,
    after_product run inv cov ne,
  ),
)

-- An exchange of two different tokens that succeeds on a pool whose recorded amounts are not
-- negative and are covered by its reserves, where every token's supply is the sum of its balances:
-- afterwards the pool's recorded amounts are what the reserves hold, their product is at least the
-- recorded product before, and every supply is still the sum of its balances.
pub swap_exec_product :
    (swap : SwapInfo) (db : Db) (swap' : SwapInfo) (db' : Db) (p : SwapLiquidity)
    → IsBacked db
    → swap.tick0 ≢ swap.tick1
    → find_pool (sort_tokens swap).tick0 (sort_tokens swap).tick1 db.swap_liquidity ≡ some p
    → IsCovered db p
    → swap_exec swap db ≡ ok (swap', db')
    → IsBacked db'
      × ((q : SwapLiquidity) × (find_pool
              (sort_tokens swap).tick0
              (sort_tokens swap).tick1
              db'.swap_liquidity
            ≡ some q)
          × IsCurrent db'.drc20_collect_address q
          × (p.amt0 *ℤ p.amt1 ≤ℤ q.amt0 *ℤ q.amt1))
swap_exec_product swap db swap' db' p inv ne found cov e =
    let run = swap_exec-eq-ok swap db swap' db' e in
    let same : p ≡ run.pool = cc (found, run.found) in
    let done = exec_found run inv (rw (← same) cov) ne in rw (run.result_db, same) done
