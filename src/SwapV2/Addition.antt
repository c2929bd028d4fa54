-- ===== src/SwapV2/Addition.antt =====
-- storage/swap_v2.go `SwapV2Add`: what an addition takes, and what its shares are for.
use dogeuni_indexer.Prelude.{
  Option, String, ◌≡◌, ◌≢◌, refl, some, arith, sym, ap, ◌∙◌, Bool-cases, inl, inr, ◌&&◌, ◌⊎◌,
}
use dogeuni_indexer.Prelude.Int.{ℤ, pos, ◌+ℤ◌, ◌-ℤ◌, ◌*ℤ◌, ◌≤ℤ◌, *ℤ_mono, leb_ℤ}
use dogeuni_indexer.Prelude.Div.{div_ℤ}
use dogeuni_indexer.Prelude.Result.{ok, >>=-eq-ok, ok-eq-ok_pair}
use dogeuni_indexer.Models.{SwapV2Info, SwapV2Liquidity, SwapLiquidity, Db}
use dogeuni_indexer.Tables.{first_where}
use dogeuni_indexer.Ledger.{or_zero}
use dogeuni_indexer.Meme20.Rows.{meme_balance, meme_supply}
use dogeuni_indexer.Swap.{add_liquidity}
use dogeuni_indexer.Swap.Amounts.{add_liquidity_bounds, share_bounds}
use dogeuni_indexer.SwapV2.{
  update_v2_liquidity, is_pair, add_amounts_v2, add_liquidity_v2, swap_v2_add,
}
use dogeuni_indexer.SwapV2.Pay.{funds}
use dogeuni_indexer.SwapV2.Issue.{Issued, mint_meme20-Issued}
use dogeuni_indexer.SwapV2.Run.{AddRun, swap_v2_add-eq-ok}
use dogeuni_indexer.SwapV2.Exchange.{funds-update_v2_liquidity}

-- The two ways to count: the first token whole, or the second.
add_amounts_v2_cases :
    (s : SwapV2Info) (p : SwapV2Liquidity) (a b : ℤ)
    → add_amounts_v2 s p ≡ ok (a, b)
    → ((div_ℤ (s.amt0 *ℤ p.amt1) p.amt0 ≡ ok b) × (a ≡ s.amt0) × (b ≤ℤ s.amt1))
      ⊎ ((div_ℤ (s.amt1 *ℤ p.amt0) p.amt1 ≡ ok a) × (b ≡ s.amt1) × (a ≤ℤ s.amt0))
unfolding add_amounts_v2
add_amounts_v2_cases s p a b e =
    let (vb, eb, e') = >>=-eq-ok (div_ℤ (s.amt0 *ℤ p.amt1) p.amt0) _ e in
    elim (Bool-cases (leb_ℤ s.amt1_min vb && leb_ℤ vb s.amt1)) [
      | inl first ↦
          let same = ok-eq-ok_pair (rw first at e') in
          inl (eb ∙ ap ok same.1, sym same.0, ground (arith, same.1, first))
      | inr second ↦
          let (va, ea, e'') = >>=-eq-ok (div_ℤ (s.amt1 *ℤ p.amt0) p.amt1) _ (rw second at e') in
          elim (Bool-cases (leb_ℤ s.amt0_min va && leb_ℤ va s.amt0)) [
            | inl fits ↦
                let same = ok-eq-ok_pair (rw fits at e'') in
                inr (ea ∙ ap ok same.0, sym same.1, ground (arith, same.0, fits))
            | inr fails ↦ absurd (ground (arith, rw fails at e''))
          ]
    ]

-- What is counted of each token is not negative and at most what the message offers.
amounts_bounds :
    (s : SwapV2Info) (p : SwapV2Liquidity) (a b : ℤ)
    → pos 0 ≤ℤ s.amt0
    → pos 0 ≤ℤ s.amt1
    → pos 0 ≤ℤ p.amt0
    → pos 0 ≤ℤ p.amt1
    → add_amounts_v2 s p ≡ ok (a, b)
    → (pos 0 ≤ℤ a) × (a ≤ℤ s.amt0) × (pos 0 ≤ℤ b) × (b ≤ℤ s.amt1)
amounts_bounds s p a b h0 h1 g0 g1 e = elim (add_amounts_v2_cases s p a b e) [
  | inl (counted, whole, fits) ↦
      let (low, _) = share_bounds s.amt0 p.amt1 p.amt0 b h0 g1 g0 counted in
      (rw whole h0, rw whole (omega arith), low, fits)
  | inr (counted, whole, fits) ↦
      let (low, _) = share_bounds s.amt1 p.amt0 p.amt1 a h1 g0 g1 counted in
      (low, fits, rw whole h1, rw whole (omega arith))
]

-- The formula is that of the pools of pair-v1.
abbrev as_pool : SwapV2Liquidity → SwapLiquidity
as_pool p = record {
  tick = "";
  tick0 = "";
  tick1 = "";
  amt0 = p.amt0;
  amt1 = p.amt1;
  liquidity_total = p.liquidity_total;
  reserves_address = "";
  holder_address = "";
}

add_liquidity_v2_same :
    (a b : ℤ) (p : SwapV2Liquidity) → add_liquidity_v2 a b p ≡ add_liquidity a b (as_pool p)
unfolding add_liquidity_v2 add_liquidity
add_liquidity_v2_same a b p = refl

-- A pool of two different tokens, neither of which is its own shares, with no negative column.
pub record IsPool (p : SwapV2Liquidity) : Type 0 where
  pub apart : p.tick0_id ≢ p.tick1_id
  pub shares0 : p.pair_id ≢ p.tick0_id
  pub shares1 : p.pair_id ≢ p.tick1_id
  pub positive0 : pos 0 ≤ℤ p.amt0
  pub positive1 : pos 0 ≤ℤ p.amt1
  pub total : pos 0 ≤ℤ p.liquidity_total

module _ {script_address : String → String} {swap : SwapV2Info} {db : Db} {swap' : SwapV2Info}
    {db' : Db} (run : AddRun script_address swap db swap' db') (is : IsPool run.pool) where
  abbrev p : SwapV2Liquidity
  p = run.pool

  issue_run : Issued p.pair_id swap.holder_address run.liquidity run.db2 run.db3
  issue_run =
      mint_meme20-Issued p.pair_id swap.holder_address run.liquidity swap.tx_hash swap.block_number
        run.db2 run.db3 run.issued

  at_end : (t h : String) → p.pair_id ≢ t → funds t h db' ≡ funds t h run.db2
  at_end t h ne =
      ap (funds t h) run.result_db
      ∙ funds-update_v2_liquidity t h swap.pair_id run.db3
      ∙ issue_run.others t h ne

  token0 : (h : String) → funds p.tick0_id h db' ≡ funds p.tick0_id h run.db1
  token0 h = at_end p.tick0_id h is.shares0 ∙ run.paid1.others p.tick0_id h (λ e. is.apart (sym e))

  token1_before : (h : String) → funds p.tick1_id h run.db1 ≡ funds p.tick1_id h db
  token1_before h = run.paid0.others p.tick1_id h is.apart

  shares_bounds :
      (run.liquidity *ℤ p.amt0 ≤ℤ swap.amt0 *ℤ p.liquidity_total)
      × (run.liquidity *ℤ p.amt1 ≤ℤ swap.amt1 *ℤ p.liquidity_total)
  shares_bounds =
      let (a, b) = run.amounts in
      let low0 : pos 0 ≤ℤ swap.amt0 = omega (arith, run.paid0.positive) in
      let low1 : pos 0 ≤ℤ swap.amt1 = omega (arith, run.paid1.positive) in
      let (a0, a1, b0, b1) =
        amounts_bounds swap p run.amounts.0 run.amounts.1 low0 low1 is.positive0 is.positive1
          run.counted in
      let (_, fair0, fair1) =
        add_liquidity_bounds run.amounts.0 run.amounts.1 run.liquidity (as_pool p) a0 b0 is.total
          is.positive0 is.positive1
          (sym (add_liquidity_v2_same run.amounts.0 run.amounts.1 p) ∙ run.computed) in
      let more0 =
        *ℤ_mono run.amounts.0 swap.amt0 p.liquidity_total p.liquidity_total a0 is.total a1
          (omega arith) in
      let more1 =
        *ℤ_mono run.amounts.1 swap.amt1 p.liquidity_total p.liquidity_total b0 is.total b1
          (omega arith) in
      (omega (arith, fair0, more0), omega (arith, fair1, more1))

  -- The shares go to the sender.
  shares_issued :
      (meme_balance p.pair_id swap.holder_address db'.meme20_collect_address
        ≡ meme_balance p.pair_id swap.holder_address db.meme20_collect_address +ℤ run.liquidity)
      × (meme_supply p.pair_id db'.meme20_collect
          ≡ some (or_zero (meme_supply p.pair_id db.meme20_collect) +ℤ run.liquidity))
  unfolding update_v2_liquidity
  shares_issued =
      let h = swap.holder_address in
      (
        ap (λ (d : Db). meme_balance p.pair_id h d.meme20_collect_address) run.result_db
            ∙ issue_run.balance
            ∙ ap (λ (v : ℤ). v +ℤ run.liquidity)
                (run.paid1.other_memes p.pair_id h (λ e. is.shares1 (sym e))
                  ∙ run.paid0.other_memes p.pair_id h (λ e. is.shares0 (sym e))),
        ap (λ (d : Db). meme_supply p.pair_id d.meme20_collect) run.result_db
            ∙ issue_run.supply
            ∙ ap (λ (v : Option ℤ). some (or_zero v +ℤ run.liquidity))
                (run.paid1.supplies p.pair_id ∙ run.paid0.supplies p.pair_id),
      )

  taken :
      (funds p.tick0_id swap.holder_address db'
        ≡ funds p.tick0_id swap.holder_address db -ℤ swap.amt0)
      × (funds p.tick1_id swap.holder_address db'
          ≡ funds p.tick1_id swap.holder_address db -ℤ swap.amt1)
  taken =
      let h = swap.holder_address in
      (
        token0 h ∙ run.paid0.payer,
        at_end p.tick1_id h is.shares1
            ∙ run.paid1.payer
            ∙ ap (λ (v : ℤ). v -ℤ swap.amt1) (token1_before h),
      )

  given :
      (funds p.tick0_id (script_address swap.pair_id) db'
        ≡ funds p.tick0_id (script_address swap.pair_id) db +ℤ swap.amt0)
      × (funds p.tick1_id (script_address swap.pair_id) db'
          ≡ funds p.tick1_id (script_address swap.pair_id) db +ℤ swap.amt1)
  given =
      let r = script_address swap.pair_id in
      (
        token0 r ∙ run.paid0.payee,
        at_end p.tick1_id r is.shares1
            ∙ run.paid1.payee
            ∙ ap (λ (v : ℤ). v +ℤ swap.amt1) (token1_before r),
      )

-- An addition that succeeds, to a pool of two different tokens of either kind, neither of which is
-- its own share, with no negative column: both whole amounts of the message go from the sender to
-- the address of the pool's reserves; the sender's balance of the shares, a meme20 token, and their
-- supply grow by exactly the liquidity that is written to the message; and that liquidity is, of
-- either token, at most the part of the recorded total that its amount is of the recorded reserve.
pub swap_v2_add_takes :
    (script_address : String → String) (swap swap' : SwapV2Info) (db db' : Db) (p : SwapV2Liquidity)
    → first_where (is_pair swap.pair_id) db.swap_v2_liquidity ≡ some p
    → IsPool p
    → swap_v2_add script_address swap db ≡ ok (swap', db')
    → (funds p.tick0_id swap.holder_address db'
        ≡ funds p.tick0_id swap.holder_address db -ℤ swap.amt0)
      × (funds p.tick1_id swap.holder_address db'
          ≡ funds p.tick1_id swap.holder_address db -ℤ swap.amt1)
      × (funds p.tick0_id (script_address swap.pair_id) db'
          ≡ funds p.tick0_id (script_address swap.pair_id) db +ℤ swap.amt0)
      × (funds p.tick1_id (script_address swap.pair_id) db'
          ≡ funds p.tick1_id (script_address swap.pair_id) db +ℤ swap.amt1)
      × (meme_balance p.pair_id swap.holder_address db'.meme20_collect_address
          ≡ meme_balance p.pair_id swap.holder_address db.meme20_collect_address +ℤ swap'.liquidity)
      × (meme_supply p.pair_id db'.meme20_collect
          ≡ some (or_zero (meme_supply p.pair_id db.meme20_collect) +ℤ swap'.liquidity))
      × (swap'.liquidity *ℤ p.amt0 ≤ℤ swap.amt0 *ℤ p.liquidity_total)
      × (swap'.liquidity *ℤ p.amt1 ≤ℤ swap.amt1 *ℤ p.liquidity_total)
swap_v2_add_takes script_address swap swap' db db' p found is e =
    let run = swap_v2_add-eq-ok script_address swap db swap' db' e in
    let same : run.pool ≡ p = cc (run.found, found) in
    let is' : IsPool run.pool = rw same is in
    let (taken0, taken1) = taken run is' in
    let (given0, given1) = given run is' in
    let (held, supply) = shares_issued run is' in
    let (fair0, fair1) = shares_bounds run is' in
    let written = ap (λ (x : SwapV2Info). x.liquidity) run.result_swap in
    (
      rw same at taken0,
      rw same at taken1,
      rw same at given0,
      rw same at given1,
      rw written (rw same at held),
      rw written (rw same at supply),
      rw written (rw same at fair0),
      rw written (rw same at fair1),
    )
