-- ===== src/Explorer/Swap/Limits.antt =====
-- What an order that is carried out costs and gives its holder, against the limits that it states.
use dogeuni_indexer.Prelude.{
  subst, subst₂, String, ◌≡◌, ◌≢◌, refl, sym, ap, ◌∙◌, false, some, eq_iff, arith,
}
use dogeuni_indexer.Prelude.Int.{ℤ, pos, ◌+ℤ◌, ◌-ℤ◌, ◌≤ℤ◌}
use dogeuni_indexer.Prelude.Result.{ok, ◌>>=◌, >>=-eq-ok, ok-eq-ok_pair}
use dogeuni_indexer.Models.{SwapInfo, SwapLiquidity, Db}
use dogeuni_indexer.Drc20.Balances.{
  held_by, transfer_src, transfer_dst, transfer_other_tick, held_by-transfer_drc20,
}
use dogeuni_indexer.Pools.{find_pool, update_liquidity}
use dogeuni_indexer.Swap.{sort_tokens, exec_out, reserve_of, swap_exec}
use dogeuni_indexer.Swap.Run.{ExecRun, swap_exec-eq-ok}
use dogeuni_indexer.Explorer.Swap.{verify_swap, verify_swap_exec, handle_exec}
use dogeuni_indexer.Explorer.Swap.Execute.{execute_order}

module _ (script_address : String → String) (s : SwapInfo) (db : Db) where
  execute_exec :
      s.op ≡ "swap"
      → execute_order script_address s db ≡ (verify_swap_exec s db >>= λ _. handle_exec s db)
  unfolding execute_order verify_swap
  execute_exec e = rw e refl

  -- The checks compute the same amount as the exchange does after them.
  verify_swap_exec_min :
      (p : SwapLiquidity) (ro ri out : ℤ)
      → verify_swap_exec s db ≡ ok tt
      → find_pool (sort_tokens s).tick0 (sort_tokens s).tick1 db.swap_liquidity ≡ some p
      → reserve_of s.tick1 p ≡ ok ro
      → reserve_of s.tick0 p ≡ ok ri
      → exec_out s.amt0 ri ro ≡ ok out
      → (s.amt1_min ≤ℤ out) × (s.tick0 ≢ s.tick1)
  unfolding verify_swap_exec
  verify_swap_exec_min p ro ri out e f g h k = ground (arith, eq_iff s.tick0 s.tick1)

held_by-update_liquidity :
    (tick t h : String) (db : Db) → held_by t h (update_liquidity tick db) ≡ held_by t h db
unfolding update_liquidity
held_by-update_liquidity tick t h db = refl

exec_moves :
    {s s' : SwapInfo} {db db' : Db} (run : ExecRun s db s' db')
    → s.tick0 ≢ s.tick1
    → (pos 1 ≤ℤ s.amt0)
      × (held_by s.tick0 s.holder_address db' ≡ held_by s.tick0 s.holder_address db -ℤ s.amt0)
      × (held_by s.tick1 s.holder_address db' ≡ held_by s.tick1 s.holder_address db +ℤ run.amtout)
exec_moves {s} {s'} {db} {db'} run ne =
    let r = run.pool.reserves_address in
    let h = s.holder_address in
    let (positive, _, _, _) =
      held_by-transfer_drc20 s.tick0 s.amt0 s.tx_hash s.block_number false db run.db1 h r
        run.received in
    (
      positive,
      ap (held_by s.tick0 h) run.result_db
          ∙ held_by-update_liquidity run.pool.tick s.tick0 h run.db2
          ∙ transfer_other_tick s.tick1 run.amtout s.tx_hash s.block_number false run.db1 run.db2 r
              h run.sent s.tick0 h (λ p. ne (sym p))
          ∙ transfer_src s.tick0 s.amt0 s.tx_hash s.block_number false db run.db1 h r run.received,
      ap (held_by s.tick1 h) run.result_db
          ∙ held_by-update_liquidity run.pool.tick s.tick1 h run.db2
          ∙ transfer_dst s.tick1 run.amtout s.tx_hash s.block_number false run.db1 run.db2 r h
              run.sent
          ∙ ap (λ (x : ℤ). x +ℤ run.amtout)
              (transfer_other_tick s.tick0 s.amt0 s.tx_hash s.block_number false db run.db1 h r
                run.received s.tick1 h ne),
    )

-- An order of kind "swap" that is carried out costs its holder exactly the amount stated, which is
-- positive, and gives what it records as paid out, which is at least the minimum stated.
pub execute_order_exec :
    (script_address : String → String) (s s' : SwapInfo) (db db' : Db)
    → s.op ≡ "swap"
    → execute_order script_address s db ≡ ok (s', db')
    → (s.amt1_min ≤ℤ s'.amt1_out)
      × (pos 1 ≤ℤ s.amt0)
      × (held_by s.tick0 s.holder_address db' ≡ held_by s.tick0 s.holder_address db -ℤ s.amt0)
      × (held_by s.tick1 s.holder_address db' ≡ held_by s.tick1 s.holder_address db +ℤ s'.amt1_out)
unfolding handle_exec
execute_order_exec script_address s s' db db' op e =
    let (_, checked, done) =
      >>=-eq-ok (verify_swap_exec s db) _ (rw (execute_exec script_address s db op) at e) in
    let (r, f, g) = >>=-eq-ok (swap_exec s db) _ done in
    let run = swap_exec-eq-ok s db r.0 r.1 f in
    let (low, ne) =
      verify_swap_exec_min script_address s db run.pool run.reserve_out run.reserve_in run.amtout
        checked run.found run.out_of run.in_of run.computed in
    let (positive, pays, gets) = exec_moves run ne in
    let (same, same_db) = ok-eq-ok_pair g in
    subst₂
      (λ (a : SwapInfo) (b : Db).
        (s.amt1_min ≤ℤ a.amt1_out)
        × (pos 1 ≤ℤ s.amt0)
        × (held_by s.tick0 s.holder_address b ≡ held_by s.tick0 s.holder_address db -ℤ s.amt0)
        × (held_by s.tick1 s.holder_address b ≡ held_by s.tick1 s.holder_address db +ℤ a.amt1_out))
      same same_db
      (subst
        (λ (a : SwapInfo).
          (s.amt1_min ≤ℤ a.amt1_out)
          × (pos 1 ≤ℤ s.amt0)
          × (held_by s.tick0 s.holder_address r.1 ≡ held_by s.tick0 s.holder_address db -ℤ s.amt0)
          × (held_by s.tick1 s.holder_address r.1
              ≡ held_by s.tick1 s.holder_address db +ℤ a.amt1_out))
        (sym run.result_swap) (low, positive, pays, gets))
