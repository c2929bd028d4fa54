-- ===== src/Drc20/Covers.antt =====
-- Two databases that agree on every balance and supply, where the first has at least the rows of
-- the second. The forked operations respect it.
use dogeuni_indexer.Prelude.{String, true, ◌≡◌, refl, none, arith, ◌∙◌}
use dogeuni_indexer.Prelude.Int.{ℤ, ◌+ℤ◌, ◌-ℤ◌, ◌≤ℤ◌}
use dogeuni_indexer.Prelude.Result.{ok}
use dogeuni_indexer.Models.{Db}
use dogeuni_indexer.Holders.{find_holder}
use dogeuni_indexer.Holders.Balance.{
  balance, IsHeld, balance-put_amt_sum, balance-set_amt_sum, set_amt_sum-absent, put_amt_sum-absent,
  IsHeld-of_balance,
}
use dogeuni_indexer.Holders.Move.{balance-moved, moved-absent}
use dogeuni_indexer.Tokens.{find_token}
use dogeuni_indexer.Tokens.Supply.{supply, IsDeployed, supply-set_token, set_token-absent}
use dogeuni_indexer.Drc20.{transfer_drc20, mint_drc20, burn_drc20}
use dogeuni_indexer.Drc20.Effects.{
  after_transfer, transfer_drc20-eq-ok, after_mint, after_burn, mint_drc20-eq-ok, burn_drc20-eq-ok,
  transfer_drc20_success, mint_drc20_success, burn_drc20_success,
}

pub record Covers (a b : Db) : Type 0 where
  pub balances :
      (t h : String) → balance t h a.drc20_collect_address ≡ balance t h b.drc20_collect_address
  pub supplies : (t : String) → supply t a.drc20_collect ≡ supply t b.drc20_collect
  pub absent :
      (t h : String)
      → find_holder t h a.drc20_collect_address ≡ none
      → find_holder t h b.drc20_collect_address ≡ none
  pub undeployed :
      (t : String) → find_token t a.drc20_collect ≡ none → find_token t b.drc20_collect ≡ none

pub Covers-refl : (a : Db) → Covers a a
Covers-refl a = record {
  balances = λ t h. refl;
  supplies = λ t. refl;
  absent = λ t h e. e;
  undeployed = λ t e. e;
}

pub Covers-trans : {a b c : Db} → Covers a b → Covers b c → Covers a c
Covers-trans p q = record {
  balances = λ t h. p.balances t h ∙ q.balances t h;
  supplies = λ t. p.supplies t ∙ q.supplies t;
  absent = λ t h e. q.absent t h (p.absent t h e);
  undeployed = λ t e. q.undeployed t (p.undeployed t e);
}

module _ (tick : String) (amt : ℤ) (tx_hash : String) (height : ℤ) (a b b' : Db)
    (c : Covers a b) where
  pub transfer_drc20-Covers :
      (src dst : String)
      → transfer_drc20 tick src dst amt tx_hash height true b ≡ ok b'
      → (a' : Db) × (transfer_drc20 tick src dst amt tx_hash height true a ≡ ok a') × Covers a' b'
  transfer_drc20-Covers src dst e =
      let (can, result) = transfer_drc20-eq-ok tick src dst amt tx_hash height true b b' e in
      let ra = a.drc20_collect_address in
      let rb = b.drc20_collect_address in
      let covered : amt ≤ℤ balance tick src ra = rw (c.balances tick src) can.covered in
      let held : IsHeld tick src ra =
        IsHeld-of_balance tick src ra (omega (arith, can.positive, covered)) in
      (
        after_transfer tick src dst amt tx_hash height true a,
        transfer_drc20_success tick src dst amt tx_hash height true a (record {
          positive = can.positive;
          distinct = can.distinct;
          held = held;
          covered = covered;
        }),
        rw result (record {
          balances = λ t h. rw (
            balance-moved tick src dst amt ra held t h can.distinct,
            balance-moved tick src dst amt rb can.held t h can.distinct,
            c.balances tick src,
            c.balances tick dst,
            c.balances t h,
          );
          supplies = c.supplies;
          absent = λ t h e.
              let (other, missing) = (moved-absent tick src dst amt ra t h).0 e in
              (moved-absent tick src dst amt rb t h).1 (other, c.absent t h missing);
          undeployed = c.undeployed;
        }),
      )

  pub mint_drc20-Covers :
      (holder : String)
      → mint_drc20 tick holder amt tx_hash height true b ≡ ok b'
      → (a' : Db) × (mint_drc20 tick holder amt tx_hash height true a ≡ ok a') × Covers a' b'
  mint_drc20-Covers holder e =
      let (there, result) = mint_drc20-eq-ok tick holder amt tx_hash height true b b' e in
      let ra = a.drc20_collect_address in
      let rb = b.drc20_collect_address in
      let there' : IsDeployed tick a.drc20_collect = λ p. there (c.undeployed tick p) in
      (
        after_mint tick holder amt tx_hash height true a,
        mint_drc20_success tick holder amt tx_hash height true a there',
        rw result (record {
          balances = λ t h. rw (
            balance-put_amt_sum tick holder (balance tick holder ra +ℤ amt) ra t h,
            balance-put_amt_sum tick holder (balance tick holder rb +ℤ amt) rb t h,
            c.balances tick holder,
            c.balances t h,
          );
          supplies = λ t. rw (
            supply-set_token tick t _ _ a.drc20_collect there',
            supply-set_token tick t _ _ b.drc20_collect there,
            c.supplies tick,
            c.supplies t,
          );
          absent = λ t h e.
              let (other, missing) = (put_amt_sum-absent tick holder t h _ ra).0 e in
              (put_amt_sum-absent tick holder t h _ rb).1 (other, c.absent t h missing);
          undeployed = λ t e.
              (set_token-absent tick t _ _ b.drc20_collect).1
                (c.undeployed t ((set_token-absent tick t _ _ a.drc20_collect).0 e));
        }),
      )

  pub burn_drc20-Covers :
      (holder : String)
      → burn_drc20 tick holder amt tx_hash height true b ≡ ok b'
      → (a' : Db) × (burn_drc20 tick holder amt tx_hash height true a ≡ ok a') × Covers a' b'
  burn_drc20-Covers holder e =
      let (can, result) = burn_drc20-eq-ok tick holder amt tx_hash height true b b' e in
      let ra = a.drc20_collect_address in
      let rb = b.drc20_collect_address in
      let there' : IsDeployed tick a.drc20_collect = λ p. can.deployed (c.undeployed tick p) in
      let held' : IsHeld tick holder ra = λ p. can.held (c.absent tick holder p) in
      let issued' : amt ≤ℤ supply tick a.drc20_collect = rw (c.supplies tick) can.issued in
      let covered' : amt ≤ℤ balance tick holder ra = rw (c.balances tick holder) can.covered in
      (
        after_burn tick holder amt tx_hash height true a,
        burn_drc20_success tick holder amt tx_hash height true a
            (record { deployed = there'; held = held'; issued = issued'; covered = covered' }),
        rw result (record {
          balances = λ t h. rw (
            balance-set_amt_sum tick holder t h (balance tick holder ra -ℤ amt) ra held',
            balance-set_amt_sum tick holder t h (balance tick holder rb -ℤ amt) rb can.held,
            c.balances tick holder,
            c.balances t h,
          );
          supplies = λ t. rw (
            supply-set_token tick t _ _ a.drc20_collect there',
            supply-set_token tick t _ _ b.drc20_collect can.deployed,
            c.supplies tick,
            c.supplies t,
          );
          absent = λ t h e.
              (set_amt_sum-absent tick holder t h _ rb).1
                (c.absent t h ((set_amt_sum-absent tick holder t h _ ra).0 e));
          undeployed = λ t e.
              (set_token-absent tick t _ _ b.drc20_collect).1
                (c.undeployed t ((set_token-absent tick t _ _ a.drc20_collect).0 e));
        }),
      )
