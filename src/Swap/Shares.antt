-- ===== src/Swap/Shares.antt =====
-- storage/swap.go `SwapAdd`: what a share of the pool is worth before and after.
use Prim.Native.String.{◌++◌ as ◌^^◌}
use dogeuni_indexer.Prelude.{
  ◌*◌, ◌+◌, ◌≤◌, String, ◌≡◌, ◌≢◌, refl, sym, ap, ◌∙◌, false, some, List, eq_iff, arith,
}
use dogeuni_indexer.Prelude.Int.{
  ℤ, pos, negsuc, ◌+ℤ◌, ◌*ℤ◌, ◌≤ℤ◌, int_laws, pos_mul, pos_add, *ℤ_mono,
}
use dogeuni_indexer.Prelude.Result.{ok, >>=-eq-ok, ok-eq-ok_pair, or_err, or_err-eq-ok, no_row}
use dogeuni_indexer.Models.{SwapInfo, SwapLiquidity, Db}
use dogeuni_indexer.Holders.Balance.{IsHeld}
use dogeuni_indexer.Drc20.{transfer_drc20, mint_drc20}
use dogeuni_indexer.Drc20.Balances.{
  held_by, held_by-transfer_drc20, transfer_dst, transfer_other_tick, transfer-IsHeld_dst,
  transfer-keeps_IsHeld, transfer_pools,
}
use dogeuni_indexer.Drc20.Issue.{issued, mint_drc20_effect}
use dogeuni_indexer.Drc20.Frames.{transfer_issued, mint_pools, mint-keeps_IsHeld, mint_other_holder}
use dogeuni_indexer.Pools.{
  find_pool, refresh, update_liquidity, refresh_total, refresh_amt0, refresh_amt1,
}
use dogeuni_indexer.Pools.Current.{
  refresh-IsCurrent, refresh_keys, find_pool-refresh_pools, find_pool_keys,
}
use dogeuni_indexer.Swap.{pay, issue, pair_tick, add_amounts, add_liquidity, swap_add}
use dogeuni_indexer.Swap.Amounts.{add_liquidity_bounds}
use dogeuni_indexer.Swap.Run.{IsCovered}

-- Adding `x` to a reserve of `a` or more, for `l` new shares on `t`, at most in proportion.
kept_by_adding :
    (a t l x a' : ℤ)
    → pos 0 ≤ℤ a
    → pos 0 ≤ℤ t
    → pos 0 ≤ℤ l
    → pos 0 ≤ℤ x
    → l *ℤ a ≤ℤ x *ℤ t
    → a +ℤ x ≤ℤ a'
    → a *ℤ (t +ℤ l) ≤ℤ a' *ℤ t
kept_by_adding (pos a) (pos t) (pos l) (pos x) a' p q r s fair more =
    let mono =
      *ℤ_mono (pos (a + x)) a' (pos t) (pos t) (omega arith) (omega arith) (omega (int_laws, more))
        (omega arith) in
    let cross : pos (l * a) ≤ℤ pos (x * t) = rw (pos_mul l a, pos_mul x t) at fair in
    let fair' : l * a ≤ x * t = omega (arith, cross) in
    let mono' : pos ((a + x) * t) ≤ℤ a' *ℤ pos t = rw (pos_mul (a + x) t) at mono in
    let sum : a * (t + l) ≤ (a + x) * t = grind (arith, fair') in
    rw (pos_add t l, pos_mul a (t + l)) (omega (arith, sum, mono'))
kept_by_adding (negsuc a) t l x a' p q r s fair more = absurd (omega arith)
kept_by_adding (pos a) (negsuc t) l x a' p q r s fair more = absurd (omega arith)
kept_by_adding (pos a) (pos t) (negsuc l) x a' p q r s fair more = absurd (omega arith)
kept_by_adding (pos a) (pos t) (pos l) (negsuc x) a' p q r s fair more = absurd (omega arith)

-- A pool as `SwapCreate` makes it, of two different tokens, whose recorded liquidity is the supply of
-- its shares.
pub record IsPool (script_address : String → String) (db : Db) (p : SwapLiquidity) : Type 0 where
  pub tick : p.tick ≡ pair_tick p.tick0 p.tick1
  pub reserves : p.reserves_address ≡ script_address (p.tick0 ^^ p.tick1)
  pub apart : p.tick0 ≢ p.tick1
  pub counted : p.liquidity_total ≡ issued p.tick db
  pub some_issued : pos 0 ≤ℤ p.liquidity_total

-- A share of the pool is worth as much of both tokens in `q` as in `p`, or more: the reserve for each
-- share does not fall.
abbrev pub KeepsShares : SwapLiquidity → SwapLiquidity → Type 0
KeepsShares p q =
    (p.amt0 *ℤ q.liquidity_total ≤ℤ q.amt0 *ℤ p.liquidity_total)
    × (p.amt1 *ℤ q.liquidity_total ≤ℤ q.amt1 *ℤ p.liquidity_total)

refreshed_total :
    (db : Db) (p : SwapLiquidity)
    → (refresh db.drc20_collect db.drc20_collect_address p).liquidity_total ≡ issued p.tick db
unfolding refresh refresh_total refresh_amt0 refresh_amt1
refreshed_total db p = ground arith

-- The pool that is found after an update, and its columns.
pub updated_pool :
    (db0 db : Db) (p : SwapLiquidity)
    → find_pool p.tick0 p.tick1 db0.swap_liquidity ≡ some p
    → db.swap_liquidity ≡ db0.swap_liquidity
    → IsHeld p.tick0 p.reserves_address db.drc20_collect_address
    → IsHeld p.tick1 p.reserves_address db.drc20_collect_address
    → (q : SwapLiquidity) × (find_pool p.tick0 p.tick1 (update_liquidity p.tick db).swap_liquidity
        ≡ some q)
      × (q.amt0 ≡ held_by p.tick0 p.reserves_address db)
      × (q.amt1 ≡ held_by p.tick1 p.reserves_address db)
      × (q.liquidity_total ≡ issued p.tick db)
unfolding update_liquidity
updated_pool db0 db p found same h0 h1 =
    let cs = db.drc20_collect in
    let rs = db.drc20_collect_address in
    let (_, k0, k1, kr) = refresh_keys cs rs p in
    let now = refresh-IsCurrent cs rs p h0 h1 in
    (
      refresh cs rs p,
      find_pool-refresh_pools cs rs p.tick p.tick0 p.tick1 db.swap_liquidity
          ∙ rw (same, found) (ground (arith, eq_iff p.tick p.tick)),
      now.reserve0 ∙ rw (k0, kr),
      now.reserve1 ∙ rw (k1, kr),
      refreshed_total db p,
    )

module _ (script_address : String → String) (p : SwapLiquidity) (h hash : String) (height : ℤ)
    (db : Db) (cov : IsCovered db p) (pool : IsPool script_address db p)
    (found : find_pool p.tick0 p.tick1 db.swap_liquidity ≡ some p) where
  abbrev r : String
  r = p.reserves_address

  -- The three calls of an addition.
  added :
      (x y l : ℤ) (db1 db2 db3 : Db)
      → transfer_drc20 p.tick0 h r x hash height false db ≡ ok db1
      → transfer_drc20 p.tick1 h r y hash height false db1 ≡ ok db2
      → mint_drc20 p.tick h l hash height false db2 ≡ ok db3
      → pos 0 ≤ℤ l
      → l *ℤ p.amt0 ≤ℤ x *ℤ p.liquidity_total
      → l *ℤ p.amt1 ≤ℤ y *ℤ p.liquidity_total
      → (q : SwapLiquidity) × (find_pool p.tick0 p.tick1
            (update_liquidity p.tick db3).swap_liquidity
          ≡ some q)
        × (q.liquidity_total ≡ p.liquidity_total +ℤ l)
        × KeepsShares p q
  added x y l db1 db2 db3 e1 e2 e3 l0 fair0 fair1 =
      let (x_positive, away, _, _) =
        held_by-transfer_drc20 p.tick0 x hash height false db db1 h r e1 in
      let (y_positive, _, _, _) =
        held_by-transfer_drc20 p.tick1 y hash height false db1 db2 h r e2 in
      let now0 : held_by p.tick0 r db3 ≡ held_by p.tick0 r db +ℤ x =
        mint_other_holder p.tick l hash height false db2 db3 h e3 p.tick0 r away
        ∙ transfer_other_tick p.tick1 y hash height false db1 db2 h r e2 p.tick0 r
            (λ s. pool.apart (sym s))
        ∙ transfer_dst p.tick0 x hash height false db db1 h r e1 in
      let now1 : held_by p.tick1 r db3 ≡ held_by p.tick1 r db +ℤ y =
        mint_other_holder p.tick l hash height false db2 db3 h e3 p.tick1 r away
        ∙ transfer_dst p.tick1 y hash height false db1 db2 h r e2
        ∙ ap (λ (z : ℤ). z +ℤ y)
            (transfer_other_tick p.tick0 x hash height false db db1 h r e1 p.tick1 r pool.apart) in
      let total : issued p.tick db3 ≡ p.liquidity_total +ℤ l =
        (mint_drc20_effect p.tick l hash height false db2 db3 h e3).1 p.tick
        ∙ rw ((eq_iff p.tick p.tick).1 refl) (
            ap (λ (z : ℤ). z +ℤ l)
              (transfer_issued p.tick1 y hash height false db1 db2 h r e2 p.tick
                ∙ transfer_issued p.tick0 x hash height false db db1 h r e1 p.tick
                ∙ sym pool.counted)) in
      let pools : db3.swap_liquidity ≡ db.swap_liquidity =
        mint_pools p.tick l hash height false db2 db3 h e3
        ∙ transfer_pools p.tick1 y hash height false db1 db2 h r e2
        ∙ transfer_pools p.tick0 x hash height false db db1 h r e1 in
      let held0 = mint-keeps_IsHeld p.tick l hash height false db2 db3 h e3 p.tick0 r (
        transfer-keeps_IsHeld p.tick1 y hash height false db1 db2 h r e2 p.tick0 r
          (transfer-IsHeld_dst p.tick0 x hash height false db db1 h r e1)) in
      let held1 =
        mint-keeps_IsHeld p.tick l hash height false db2 db3 h e3 p.tick1 r
          (transfer-IsHeld_dst p.tick1 y hash height false db1 db2 h r e2) in
      let (q, there, q0, q1, qt) = updated_pool db db3 p found pools held0 held1 in
      let same_total = qt ∙ total in
      (
        q,
        there,
        same_total,
        (
          rw (same_total, q0, now0)
              (kept_by_adding p.amt0 p.liquidity_total l x (held_by p.tick0 r db +ℤ x) cov.positive0
                pool.some_issued l0 (omega (arith, x_positive)) fair0
                (omega (int_laws, cov.covered0))),
          rw (same_total, q1, now1)
              (kept_by_adding p.amt1 p.liquidity_total l y (held_by p.tick1 r db +ℤ y) cov.positive1
                pool.some_issued l0 (omega (arith, y_positive)) fair1
                (omega (int_laws, cov.covered1))),
        ),
      )

grows : (a b : ℤ) → pos 0 ≤ℤ b → a ≤ℤ a +ℤ b
grows a b p = omega int_laws

pub same_find :
    (p : SwapLiquidity) (s : SwapInfo) (ps : List SwapLiquidity)
    → p.tick0 ≡ s.tick0
    → p.tick1 ≡ s.tick1
    → find_pool p.tick0 p.tick1 ps ≡ find_pool s.tick0 s.tick1 ps
same_find p s ps k0 k1 =
    ap (λ (x : String). find_pool x p.tick1 ps) k0 ∙ ap (λ (x : String). find_pool s.tick0 x ps) k1

-- An addition that succeeds, on a pool as `SwapCreate` makes it, of two different tokens, whose
-- recorded amounts are not negative and are covered by its reserves and whose recorded liquidity
-- is the supply of its shares: the pool that is found afterwards has at least the liquidity it
-- had, and in both tokens its reserve for each share is at least the one before.
pub swap_add-KeepsShares :
    (script_address : String → String) (swap swap' : SwapInfo) (db db' : Db) (p : SwapLiquidity)
    → find_pool swap.tick0 swap.tick1 db.swap_liquidity ≡ some p
    → IsCovered db p
    → IsPool script_address db p
    → swap_add script_address swap db ≡ ok (swap', db')
    → (q : SwapLiquidity) × (find_pool swap.tick0 swap.tick1 db'.swap_liquidity ≡ some q)
      × (p.liquidity_total ≤ℤ q.liquidity_total)
      × KeepsShares p q
unfolding swap_add
swap_add-KeepsShares script_address swap swap' db db' p found cov pool e =
    let r = script_address (swap.tick0 ^^ swap.tick1) in
    let h = swap.holder_address in
    let hash = swap.tx_hash in
    let height = swap.block_number in
    let (p', e0, e1) =
      >>=-eq-ok (or_err (find_pool swap.tick0 swap.tick1 db.swap_liquidity) no_row) _ e in
    let same : p' ≡ p = cc (found, or_err-eq-ok _ no_row e0) in
    let (amounts, _, e3) = >>=-eq-ok (add_amounts swap p') _ e1 in
    let (l, e4, e5) = >>=-eq-ok (add_liquidity amounts.0 amounts.1 p') _ e3 in
    let (db1, f1, e6) = >>=-eq-ok (pay swap swap.tick0 h r amounts.0 db) _ e5 in
    let (db2, f2, e7) = >>=-eq-ok (pay swap swap.tick1 h r amounts.1 db1) _ e6 in
    let (db3, f3, e8) = >>=-eq-ok (issue swap (pair_tick swap.tick0 swap.tick1) h l db2) _ e7 in
    let (k0, k1) = find_pool_keys swap.tick0 swap.tick1 db.swap_liquidity found in
    let (x_positive, _, _, _) =
      held_by-transfer_drc20 swap.tick0 amounts.0 hash height false db db1 h r f1 in
    let (y_positive, _, _, _) =
      held_by-transfer_drc20 swap.tick1 amounts.1 hash height false db1 db2 h r f2 in
    let (l0, fair0, fair1) =
      add_liquidity_bounds amounts.0 amounts.1 l p (omega (arith, x_positive))
        (omega (arith, y_positive)) pool.some_issued cov.positive0 cov.positive1 (rw same at e4) in
    let (q, there, total, keeps) =
      added script_address p h hash height db cov pool
        (same_find p swap db.swap_liquidity k0 k1 ∙ found) amounts.0 amounts.1 l db1 db2 db3
        (rw (pool.reserves, k0, k1) f1) (rw (pool.reserves, k0, k1) f2) (rw (pool.tick, k0, k1) f3)
        l0 fair0 fair1 in
    let named : pair_tick swap.tick0 swap.tick1 ≡ p.tick = sym (rw (pool.tick, k0, k1)) in
    let result = sym (ok-eq-ok_pair e8).1 ∙ ap (λ (t : String). update_liquidity t db3) named in
    (
      q,
      ap (λ (d : Db). find_pool swap.tick0 swap.tick1 d.swap_liquidity) result
          ∙ sym (same_find p swap (update_liquidity p.tick db3).swap_liquidity k0 k1)
          ∙ there,
      rw total (grows p.liquidity_total l l0),
      keeps,
    )
