-- ===== src/SwapV2/Exchange.antt =====
-- storage/swap_v2.go `SwapV2Exec`: what an exchange does to the reserves and to the sender.
use dogeuni_indexer.Prelude.{
  String, ◌≡◌, ◌≢◌, ◌⊎◌, inl, inr, refl, some, eq_iff, arith, sym, ap, ◌∙◌,
}
use dogeuni_indexer.Prelude.Int.{ℤ, pos, ◌+ℤ◌, ◌-ℤ◌, ◌*ℤ◌, ◌≤ℤ◌, int_laws, *ℤ_mono, *ℤ_comm}
use dogeuni_indexer.Prelude.Result.{ok}
use dogeuni_indexer.Models.{SwapV2Info, SwapV2Liquidity, Db}
use dogeuni_indexer.Tables.{first_where}
use dogeuni_indexer.Swap.Amounts.{exec_out_product}
use dogeuni_indexer.SwapV2.{is_pair, oriented_v2, reserve_of_v2, update_v2_liquidity, swap_v2_exec}
use dogeuni_indexer.SwapV2.Pay.{funds}
use dogeuni_indexer.SwapV2.Run.{ExecRun, swap_v2_exec-eq-ok}

-- The pool's two tokens differ, its recorded amounts are not negative, and its reserves have at
-- least them.
pub record IsCovered (db : Db) (p : SwapV2Liquidity) : Type 0 where
  pub apart : p.tick0_id ≢ p.tick1_id
  pub positive0 : pos 0 ≤ℤ p.amt0
  pub positive1 : pos 0 ≤ℤ p.amt1
  pub covered0 : p.amt0 ≤ℤ funds p.tick0_id p.reserves_address db
  pub covered1 : p.amt1 ≤ℤ funds p.tick1_id p.reserves_address db

-- The tokens of an exchange are those of the pool, in one of the two orders, with the reserves.
abbrev IsOriented : SwapV2Info → SwapV2Liquidity → ℤ → ℤ → Type 0
IsOriented s p reserve_in reserve_out =
    ((s.tick0_id ≡ p.tick0_id)
      × (s.tick1_id ≡ p.tick1_id)
      × (reserve_in ≡ p.amt0)
      × (reserve_out ≡ p.amt1))
    ⊎ ((s.tick0_id ≡ p.tick1_id)
        × (s.tick1_id ≡ p.tick0_id)
        × (reserve_in ≡ p.amt1)
        × (reserve_out ≡ p.amt0))

oriented_v2-IsOriented :
    (swap s : SwapV2Info) (p : SwapV2Liquidity) (reserve_in reserve_out : ℤ)
    → p.tick0_id ≢ p.tick1_id
    → oriented_v2 swap p ≡ ok s
    → reserve_of_v2 s.tick0_id p ≡ ok reserve_in
    → reserve_of_v2 s.tick1_id p ≡ ok reserve_out
    → IsOriented s p reserve_in reserve_out
unfolding oriented_v2 reserve_of_v2
oriented_v2-IsOriented swap s p ri ro ne o i u = ground (
  arith,
  eq_iff swap.tick0_id p.tick0_id,
  eq_iff swap.tick0_id p.tick1_id,
  eq_iff p.tick0_id p.tick1_id,
  eq_iff p.tick1_id p.tick1_id,
  eq_iff p.tick0_id p.tick0_id,
)

oriented_keeps :
    (swap s : SwapV2Info) (p : SwapV2Liquidity)
    → oriented_v2 swap p ≡ ok s
    → (s.tick0_id ≡ swap.tick0_id)
      × (s.amt0 ≡ swap.amt0)
      × (s.holder_address ≡ swap.holder_address)
      × (s.pair_id ≡ swap.pair_id)
unfolding oriented_v2
oriented_keeps swap s p o = ground arith

-- The amounts of the pools are no balance.
pub funds-update_v2_liquidity :
    (t h pair_id : String) (db : Db) → funds t h (update_v2_liquidity pair_id db) ≡ funds t h db
unfolding funds update_v2_liquidity
funds-update_v2_liquidity t h pair_id db = refl

module _ {swap : SwapV2Info} {db : Db} {swap' : SwapV2Info} {db' : Db}
    (run : ExecRun swap db swap' db') (cov : IsCovered db run.pool) where
  abbrev s : SwapV2Info
  s = run.turned

  abbrev p : SwapV2Liquidity
  p = run.pool

  way : IsOriented s p run.reserve_in run.reserve_out
  way =
      oriented_v2-IsOriented swap s p run.reserve_in run.reserve_out cov.apart run.oriented
        run.in_of run.out_of

  ticks_apart : s.tick0_id ≢ s.tick1_id
  ticks_apart e = elim way [
    | inl (t0, t1, _, _) ↦ cov.apart (sym t0 ∙ e ∙ t1)
    | inr (t0, t1, _, _) ↦ cov.apart (sym t1 ∙ sym e ∙ t0)
  ]

  at_end : (t h : String) → funds t h db' ≡ funds t h run.db2
  at_end t h = ap (funds t h) run.result_db ∙ funds-update_v2_liquidity t h s.pair_id run.db2

  in_after : (h : String) → funds s.tick0_id h db' ≡ funds s.tick0_id h run.db1
  in_after h = at_end s.tick0_id h ∙ run.sent.others s.tick0_id h (λ e. ticks_apart (sym e))

  out_before : (h : String) → funds s.tick1_id h run.db1 ≡ funds s.tick1_id h db
  out_before h = run.received.others s.tick1_id h ticks_apart

  product_grows :
      run.reserve_in *ℤ run.reserve_out
      ≤ℤ funds s.tick0_id p.reserves_address db' *ℤ funds s.tick1_id p.reserves_address db'
  product_grows =
      let r = p.reserves_address in
      let (p0, c0, p1, c1) = covers in
      let (_, reach, grows) =
        exec_out_product s.amt0 run.reserve_in run.reserve_out run.amtout
          (omega (arith, run.received.positive)) p0 p1 run.computed in
      let mono =
        *ℤ_mono (run.reserve_in +ℤ s.amt0) (funds s.tick0_id r db +ℤ s.amt0)
          (run.reserve_out -ℤ run.amtout) (funds s.tick1_id r db -ℤ run.amtout)
          (let amt = run.received.positive in omega (int_laws, p0, amt)) (omega int_laws)
          (omega int_laws) (omega int_laws) in
      rw
        (
          in_after r ∙ run.received.payee,
          at_end s.tick1_id r ∙ run.sent.payer ∙ ap (λ (v : ℤ). v -ℤ run.amtout) (out_before r),
        )
        (omega (arith, grows, mono))
    where
      covers :
          (pos 0 ≤ℤ run.reserve_in)
          × (run.reserve_in ≤ℤ funds s.tick0_id p.reserves_address db)
          × (pos 0 ≤ℤ run.reserve_out)
          × (run.reserve_out ≤ℤ funds s.tick1_id p.reserves_address db)
      covers = elim way [
        | inl (t0, t1, ri, ro) ↦
            rw (t0, t1, ri, ro) (cov.positive0, cov.covered0, cov.positive1, cov.covered1)
        | inr (t0, t1, ri, ro) ↦
            rw (t0, t1, ri, ro) (cov.positive1, cov.covered1, cov.positive0, cov.covered0)
      ]

  pool_product :
      p.amt0 *ℤ p.amt1
      ≤ℤ funds p.tick0_id p.reserves_address db' *ℤ funds p.tick1_id p.reserves_address db'
  pool_product = elim way [
    | inl (t0, t1, ri, ro) ↦ rw (t0, t1, ri, ro) at product_grows
    | inr (t0, t1, ri, ro) ↦
        let grown = rw (t0, t1, ri, ro) at product_grows in
        rw
          (
            *ℤ_comm p.amt0 p.amt1,
            *ℤ_comm (funds p.tick0_id p.reserves_address db')
                (funds p.tick1_id p.reserves_address db'),
          )
          grown
  ]

  -- What the sender pays and gets.
  sender :
      (funds s.tick0_id s.holder_address db' ≡ funds s.tick0_id s.holder_address db -ℤ s.amt0)
      × (funds s.tick1_id s.holder_address db' ≡ funds s.tick1_id s.holder_address db +ℤ run.amtout)
  sender = (
    in_after s.holder_address ∙ run.received.payer,
    at_end s.tick1_id s.holder_address
        ∙ run.sent.payee
        ∙ ap (λ (v : ℤ). v +ℤ run.amtout) (out_before s.holder_address),
  )

-- An exchange that succeeds, on a pool of two different tokens of either kind whose recorded amounts
-- are not negative and are covered by its reserves: the product of what the reserves have of the two
-- tokens afterwards is at least the product of the recorded amounts; the sender pays exactly the
-- amount of the message of its first token, and gets exactly the amount that is written to the
-- message of the pool's other token.
pub swap_v2_exec_product :
    (swap swap' : SwapV2Info) (db db' : Db) (p : SwapV2Liquidity)
    → first_where (is_pair swap.pair_id) db.swap_v2_liquidity ≡ some p
    → IsCovered db p
    → swap_v2_exec swap db ≡ ok (swap', db')
    → (p.amt0 *ℤ p.amt1
        ≤ℤ funds p.tick0_id p.reserves_address db' *ℤ funds p.tick1_id p.reserves_address db')
      × (funds swap.tick0_id swap.holder_address db'
          ≡ funds swap.tick0_id swap.holder_address db -ℤ swap.amt0)
      × (funds swap'.tick1_id swap.holder_address db'
          ≡ funds swap'.tick1_id swap.holder_address db +ℤ swap'.amt1_out)
swap_v2_exec_product swap swap' db db' p found cov e =
    let run = swap_v2_exec-eq-ok swap db swap' db' e in
    let same : run.pool ≡ p = cc (run.found, found) in
    let cov' : IsCovered db run.pool = rw same cov in
    let (pays, gets) = sender run cov' in
    let (t0, amt, holder, _) = oriented_keeps swap run.turned run.pool run.oriented in
    (
      rw same at (pool_product run cov'),
      rw (t0, amt, holder) at pays,
      rw
          (
            ap (λ (x : SwapV2Info). x.tick1_id) run.result_swap,
            ap (λ (x : SwapV2Info). x.amt1_out) run.result_swap,
          )
          (rw holder at gets),
    )
