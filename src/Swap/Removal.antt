-- ===== src/Swap/Removal.antt =====
-- storage/swap.go `SwapRemove`: what a share of the pool is worth before and after.
use dogeuni_indexer.Prelude.{
  ◌*◌, ◌+◌, ◌-◌, ◌≤◌, ℕ, String, ◌≡◌, refl, sym, ap, ◌∙◌, false, some, eq_iff, arith, ◌||◌,
}
use dogeuni_indexer.Prelude.Int.{
  ℤ, pos, negsuc, ◌-ℤ◌, ◌*ℤ◌, ◌≤ℤ◌, ltb_ℤ, int_laws, pos_mul, pos_sub, *ℤ_mono,
}
use dogeuni_indexer.Prelude.Result.{
  ok, >>=-eq-ok, ok-eq-ok_pair, or_err, or_err-eq-ok, no_row, fail_if, insufficient,
}
use dogeuni_indexer.Models.{SwapInfo, SwapLiquidity, Db}
use dogeuni_indexer.Drc20.{transfer_drc20, burn_drc20}
use dogeuni_indexer.Drc20.Balances.{
  held_by, held_by-transfer_drc20, transfer_src, transfer_other_tick, transfer-IsHeld_src,
  transfer-keeps_IsHeld, transfer_pools,
}
use dogeuni_indexer.Drc20.Issue.{issued, burn_drc20_effect}
use dogeuni_indexer.Drc20.Frames.{transfer_issued, burn_pools, burn-keeps_IsHeld, burn_other_holder}
use dogeuni_indexer.Pools.{find_pool, update_liquidity}
use dogeuni_indexer.Pools.Current.{find_pool_keys}
use dogeuni_indexer.Swap.{pay, remove_share, swap_remove}
use dogeuni_indexer.Swap.Amounts.{remove_share_bounds}
use dogeuni_indexer.Swap.Run.{IsCovered}
use dogeuni_indexer.Swap.Shares.{IsPool, KeepsShares, updated_pool, same_find}

kept_nat : (u l b x : ℕ) → x * (u + l) ≤ l * (b + x) → (b + x) * u ≤ b * (u + l)
kept_nat u l b x h = grind arith

kept_split : (a t l x : ℕ) → l ≤ t → x ≤ a → x * t ≤ l * a → a * (t - l) ≤ (a - x) * t
kept_split a t l x p q h =
    let u : t ≡ t - l + l = omega arith in
    let b : a ≡ a - x + x = omega arith in
    let k = kept_nat (t - l) l (a - x) x (rw (← u, ← b) h) in rw (← u, ← b) at k

-- Taking `x` from a reserve that leaves `a - x` or more, for `l` of the `t` shares, at most in
-- proportion.
kept_by_removing :
    (a t l x a' : ℤ)
    → pos 0 ≤ℤ a
    → pos 0 ≤ℤ l
    → l ≤ℤ t
    → pos 0 ≤ℤ x
    → x ≤ℤ a
    → x *ℤ t ≤ℤ l *ℤ a
    → a -ℤ x ≤ℤ a'
    → a *ℤ (t -ℤ l) ≤ℤ a' *ℤ t
kept_by_removing (pos a) (pos t) (pos l) (pos x) a' p q le s le' fair more =
    let lt : l ≤ t = omega arith in
    let xa : x ≤ a = omega arith in
    let cross : pos (x * t) ≤ℤ pos (l * a) = rw (pos_mul x t, pos_mul l a) at fair in
    let fair' : x * t ≤ l * a = omega (arith, cross) in
    let left : pos (a - x) ≤ℤ a' = rw (pos_sub a x xa) at more in
    let mono =
      *ℤ_mono (pos (a - x)) a' (pos t) (pos t) (omega arith) (omega arith) left (omega arith) in
    let mono' : pos ((a - x) * t) ≤ℤ a' *ℤ pos t = rw (pos_mul (a - x) t) at mono in
    let kept = kept_split a t l x lt xa fair' in
    rw (pos_sub t l lt, pos_mul a (t - l)) (omega (arith, kept, mono'))
kept_by_removing (negsuc a) t l x a' p q le s le' fair more = absurd (omega arith)
kept_by_removing (pos a) t (negsuc l) x a' p q le s le' fair more = absurd (omega arith)
kept_by_removing (pos a) (negsuc t) (pos l) x a' p q le s le' fair more = absurd (omega arith)
kept_by_removing (pos a) (pos t) (pos l) (negsuc x) a' p q le s le' fair more = absurd (omega arith)

less : (a b c : ℤ) → a ≤ℤ b → a -ℤ c ≤ℤ b -ℤ c
less a b c p = omega int_laws

module _ (script_address : String → String) (p : SwapLiquidity) (h hash : String) (height : ℤ)
    (db : Db) (cov : IsCovered db p) (pool : IsPool script_address db p)
    (found : find_pool p.tick0 p.tick1 db.swap_liquidity ≡ some p) where
  abbrev r : String
  r = p.reserves_address

  -- The three calls of a removal.
  removed :
      (x y l : ℤ) (db1 db2 db3 : Db)
      → transfer_drc20 p.tick0 r h x hash height false db ≡ ok db1
      → transfer_drc20 p.tick1 r h y hash height false db1 ≡ ok db2
      → burn_drc20 p.tick h l hash height false db2 ≡ ok db3
      → pos 0 ≤ℤ l
      → (l ≤ℤ p.liquidity_total → (x *ℤ p.liquidity_total ≤ℤ l *ℤ p.amt0) × (x ≤ℤ p.amt0))
      → (l ≤ℤ p.liquidity_total → (y *ℤ p.liquidity_total ≤ℤ l *ℤ p.amt1) × (y ≤ℤ p.amt1))
      → (q : SwapLiquidity) × (find_pool p.tick0 p.tick1
            (update_liquidity p.tick db3).swap_liquidity
          ≡ some q)
        × (q.liquidity_total ≡ p.liquidity_total -ℤ l)
        × KeepsShares p q
  removed x y l db1 db2 db3 e1 e2 e3 l0 fair0 fair1 =
      let (x_positive, away, _, _) =
        held_by-transfer_drc20 p.tick0 x hash height false db db1 r h e1 in
      let (y_positive, _, _, _) =
        held_by-transfer_drc20 p.tick1 y hash height false db1 db2 r h e2 in
      let (_, in_supply, _, supplies) = burn_drc20_effect p.tick l hash height false db2 db3 h e3 in
      let still : issued p.tick db2 ≡ p.liquidity_total =
        transfer_issued p.tick1 y hash height false db1 db2 r h e2 p.tick
        ∙ transfer_issued p.tick0 x hash height false db db1 r h e1 p.tick
        ∙ sym pool.counted in
      let within : l ≤ℤ p.liquidity_total = rw still at in_supply in
      let (share0, most0) = fair0 within in
      let (share1, most1) = fair1 within in
      let now0 : held_by p.tick0 r db3 ≡ held_by p.tick0 r db -ℤ x =
        burn_other_holder p.tick l hash height false db2 db3 h e3 p.tick0 r (λ s. away (sym s))
        ∙ transfer_other_tick p.tick1 y hash height false db1 db2 r h e2 p.tick0 r
            (λ s. pool.apart (sym s))
        ∙ transfer_src p.tick0 x hash height false db db1 r h e1 in
      let now1 : held_by p.tick1 r db3 ≡ held_by p.tick1 r db -ℤ y =
        burn_other_holder p.tick l hash height false db2 db3 h e3 p.tick1 r (λ s. away (sym s))
        ∙ transfer_src p.tick1 y hash height false db1 db2 r h e2
        ∙ ap (λ (z : ℤ). z -ℤ y)
            (transfer_other_tick p.tick0 x hash height false db db1 r h e1 p.tick1 r pool.apart) in
      let total : issued p.tick db3 ≡ p.liquidity_total -ℤ l =
        supplies p.tick ∙ rw ((eq_iff p.tick p.tick).1 refl) (ap (λ (z : ℤ). z -ℤ l) still) in
      let pools : db3.swap_liquidity ≡ db.swap_liquidity =
        burn_pools p.tick l hash height false db2 db3 h e3
        ∙ transfer_pools p.tick1 y hash height false db1 db2 r h e2
        ∙ transfer_pools p.tick0 x hash height false db db1 r h e1 in
      let held0 = burn-keeps_IsHeld p.tick l hash height false db2 db3 h e3 p.tick0 r (
        transfer-keeps_IsHeld p.tick1 y hash height false db1 db2 r h e2 p.tick0 r (
          transfer-keeps_IsHeld p.tick0 x hash height false db db1 r h e1 p.tick0 r
            (transfer-IsHeld_src p.tick0 x hash height false db db1 r h e1))) in
      let held1 = burn-keeps_IsHeld p.tick l hash height false db2 db3 h e3 p.tick1 r (
        transfer-keeps_IsHeld p.tick1 y hash height false db1 db2 r h e2 p.tick1 r
          (transfer-IsHeld_src p.tick1 y hash height false db1 db2 r h e2)) in
      let (q, there, q0, q1, qt) = updated_pool db db3 p found pools held0 held1 in
      let same_total = qt ∙ total in
      (
        q,
        there,
        same_total,
        (
          rw (same_total, q0, now0)
              (kept_by_removing p.amt0 p.liquidity_total l x (held_by p.tick0 r db -ℤ x)
                cov.positive0 l0 within (omega (arith, x_positive)) most0 share0
                (less p.amt0 (held_by p.tick0 r db) x cov.covered0)),
          rw (same_total, q1, now1)
              (kept_by_removing p.amt1 p.liquidity_total l y (held_by p.tick1 r db -ℤ y)
                cov.positive1 l0 within (omega (arith, y_positive)) most1 share1
                (less p.amt1 (held_by p.tick1 r db) y cov.covered1)),
        ),
      )

record RemoveRun (swap : SwapInfo) (db db' : Db) : Type 0 where
  pool : SwapLiquidity
  found : find_pool swap.tick0 swap.tick1 db.swap_liquidity ≡ some pool
  out0 : ℤ
  out1 : ℤ
  share0 : remove_share swap.liquidity pool.amt0 pool.liquidity_total ≡ ok out0
  share1 : remove_share swap.liquidity pool.amt1 pool.liquidity_total ≡ ok out1
  db1 : Db
  db2 : Db
  db3 : Db
  paid0 : pay swap swap.tick0 pool.reserves_address swap.holder_address out0 db ≡ ok db1
  paid1 : pay swap swap.tick1 pool.reserves_address swap.holder_address out1 db1 ≡ ok db2
  burned :
      burn_drc20 pool.tick swap.holder_address swap.liquidity swap.tx_hash swap.block_number false
        db2
      ≡ ok db3
  result : db' ≡ update_liquidity pool.tick db3

swap_remove-eq-ok :
    (swap swap' : SwapInfo) (db db' : Db)
    → swap_remove swap db ≡ ok (swap', db')
    → RemoveRun swap db db'
unfolding swap_remove
swap_remove-eq-ok swap swap' db db' e =
    let h = swap.holder_address in
    let (p, e0, e1) =
      >>=-eq-ok (or_err (find_pool swap.tick0 swap.tick1 db.swap_liquidity) no_row) _ e in
    let (a, g0, e3) = >>=-eq-ok (remove_share swap.liquidity p.amt0 p.liquidity_total) _ e1 in
    let (b, g1, e5) = >>=-eq-ok (remove_share swap.liquidity p.amt1 p.liquidity_total) _ e3 in
    let (_, _, e7) = >>=-eq-ok (fail_if (ltb_ℤ p.amt0 a || ltb_ℤ p.amt1 b) insufficient) _ e5 in
    let (db1, f1, e8) = >>=-eq-ok (pay swap swap.tick0 p.reserves_address h a db) _ e7 in
    let (db2, f2, e9) = >>=-eq-ok (pay swap swap.tick1 p.reserves_address h b db1) _ e8 in
    let (db3, f3, e10) =
      >>=-eq-ok (burn_drc20 p.tick h swap.liquidity swap.tx_hash swap.block_number false db2) _
        e9 in
    record {
      pool = p;
      found = or_err-eq-ok _ no_row e0;
      out0 = a;
      out1 = b;
      share0 = g0;
      share1 = g1;
      db1 = db1;
      db2 = db2;
      db3 = db3;
      paid0 = f1;
      paid1 = f2;
      burned = f3;
      result = sym (ok-eq-ok_pair e10).1;
    }

run-KeepsShares :
    (script_address : String → String) (swap : SwapInfo) (db db' : Db) (run : RemoveRun swap db db')
    → IsCovered db run.pool
    → IsPool script_address db run.pool
    → pos 0 ≤ℤ swap.liquidity
    → (q : SwapLiquidity) × (find_pool swap.tick0 swap.tick1 db'.swap_liquidity ≡ some q)
      × (q.liquidity_total ≡ run.pool.liquidity_total -ℤ swap.liquidity)
      × KeepsShares run.pool q
run-KeepsShares script_address swap db db' run cov pool l0 =
    let p = run.pool in
    let (k0, k1) = find_pool_keys swap.tick0 swap.tick1 db.swap_liquidity run.found in
    let bound0 = λ (le : swap.liquidity ≤ℤ p.liquidity_total).
      (remove_share_bounds swap.liquidity p.amt0 p.liquidity_total run.out0 l0 cov.positive0 le
        run.share0) in
    let bound1 = λ (le : swap.liquidity ≤ℤ p.liquidity_total).
      (remove_share_bounds swap.liquidity p.amt1 p.liquidity_total run.out1 l0 cov.positive1 le
        run.share1) in
    let (q, there, total, keeps) =
      removed script_address p swap.holder_address swap.tx_hash swap.block_number db cov pool
        (same_find p swap db.swap_liquidity k0 k1 ∙ run.found) run.out0 run.out1 swap.liquidity
        run.db1 run.db2 run.db3 (rw k0 run.paid0) (rw k1 run.paid1) run.burned l0
        (λ le. ((bound0 le).1, (bound0 le).2)) (λ le. ((bound1 le).1, (bound1 le).2)) in
    (
      q,
      ap (λ (d : Db). find_pool swap.tick0 swap.tick1 d.swap_liquidity) run.result
          ∙ sym (same_find p swap (update_liquidity p.tick run.db3).swap_liquidity k0 k1)
          ∙ there,
      total,
      keeps,
    )

-- A removal of liquidity that is not negative, which succeeds on a pool as `SwapCreate` makes it,
-- of two different tokens, whose recorded amounts are not negative and are covered by its reserves
-- and whose recorded liquidity is the supply of its shares: the pool that is found afterwards has
-- that much less liquidity, and in both tokens its reserve for each share is at least the one
-- before.
pub swap_remove-KeepsShares :
    (script_address : String → String) (swap swap' : SwapInfo) (db db' : Db) (p : SwapLiquidity)
    → find_pool swap.tick0 swap.tick1 db.swap_liquidity ≡ some p
    → IsCovered db p
    → IsPool script_address db p
    → pos 0 ≤ℤ swap.liquidity
    → swap_remove swap db ≡ ok (swap', db')
    → (q : SwapLiquidity) × (find_pool swap.tick0 swap.tick1 db'.swap_liquidity ≡ some q)
      × (q.liquidity_total ≡ p.liquidity_total -ℤ swap.liquidity)
      × KeepsShares p q
swap_remove-KeepsShares script_address swap swap' db db' p found cov pool l0 e =
    let run = swap_remove-eq-ok swap swap' db db' e in
    let same : p ≡ run.pool = cc (found, run.found) in
    rw same (run-KeepsShares script_address swap db db' run (rw (← same) cov) (rw (← same) pool) l0)
