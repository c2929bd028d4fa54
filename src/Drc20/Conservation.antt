-- ===== src/Drc20/Conservation.antt =====
-- The recorded supply of every token is the sum of what its holders have.
use dogeuni_indexer.Prelude.{
  ℕ, String, Bool, ◌≡◌, ◌≢◌, inl, inr, List, ◌==◌, eq_iff, arith, Bool-cases, ◌∙◌,
}
use dogeuni_indexer.Prelude.Int.{ℤ, pos, ◌+ℤ◌, ◌-ℤ◌, ◌≤ℤ◌, int_laws}
use dogeuni_indexer.Prelude.Result.{ok}
use dogeuni_indexer.Models.{Drc20Collect, Drc20CollectAddress, Db}
use dogeuni_indexer.Holders.{set_amt_sum}
use dogeuni_indexer.Holders.Balance.{balance, put_amt_sum}
use dogeuni_indexer.Holders.Total.{
  IsSound, total, balance_nonneg, set_amt_sum-IsSound, total-set_amt_sum, total-set_amt_sum_ne,
  total-put_amt_sum, total-put_amt_sum_ne, put_amt_sum-IsSound,
}
use dogeuni_indexer.Holders.Move.{moved-IsSound, total-moved}
use dogeuni_indexer.Tokens.{set_token}
use dogeuni_indexer.Tokens.Supply.{supply, IsDeployed, supply-set_token}
use dogeuni_indexer.Drc20.{transfer_drc20, mint_drc20, burn_drc20}
use dogeuni_indexer.Drc20.Effects.{transfer_drc20-eq-ok, mint_drc20-eq-ok, burn_drc20-eq-ok}

-- No negative balance, no key in two rows, and each token's recorded supply is the sum of the
-- balances.
pub record IsBacked (db : Db) : Type 0 where
  pub sound : IsSound db.drc20_collect_address
  pub backed : (t : String) → total t db.drc20_collect_address ≡ supply t db.drc20_collect

-- A write to the rows of one token and one to its supply that move both by as much.
module _ (t : String) (rs rs' : List Drc20CollectAddress) (cs : List Drc20Collect) (old v w : ℤ)
    (n : ℕ) where
  backed_after :
      total t rs' +ℤ old ≡ total t rs +ℤ v
      → w +ℤ old ≡ supply t cs +ℤ v
      → ((t' : String) → t ≢ t' → total t' rs' ≡ total t' rs)
      → IsDeployed t cs
      → ((t' : String) → total t' rs ≡ supply t' cs)
      → (t' : String) → total t' rs' ≡ supply t' (set_token t w n cs)
  backed_after rows supplied others there before t' =
      rw (supply-set_token t t' w n cs there) (elim (Bool-cases (t == t')) [
        | inl same ↦
            let now : total t rs' ≡ w = omega (int_laws, rows, supplied, before t) in
            rw same (rw (← (eq_iff t t').0 same) now)
        | inr other ↦ rw other (others t' (λ p. cc ((eq_iff t t').1 p)) ∙ before t')
      ])

module _ (tick : String) (amt : ℤ) (tx_hash : String) (height : ℤ) (fork : Bool) (db db' : Db) where
  -- A transfer that succeeds keeps the invariant.
  pub transfer_drc20-IsBacked :
      (src dst : String)
      → IsBacked db
      → transfer_drc20 tick src dst amt tx_hash height fork db ≡ ok db'
      → IsBacked db'
  transfer_drc20-IsBacked src dst inv e =
      let (can, result) = transfer_drc20-eq-ok tick src dst amt tx_hash height fork db db' e in
      rw result (record {
        sound =
            moved-IsSound tick src dst amt db.drc20_collect_address can.held
              (omega (arith, can.positive)) can.covered inv.sound;
        backed = λ t.
            total-moved tick src dst amt db.drc20_collect_address can.held can.distinct can.covered
              inv.sound t
            ∙ inv.backed t;
      })

  -- So does issuing an amount that is not negative.
  pub mint_drc20-IsBacked :
      (holder : String)
      → IsBacked db
      → pos 0 ≤ℤ amt
      → mint_drc20 tick holder amt tx_hash height fork db ≡ ok db'
      → IsBacked db'
  mint_drc20-IsBacked holder inv p e =
      let (there, result) = mint_drc20-eq-ok tick holder amt tx_hash height fork db db' e in
      let rs = db.drc20_collect_address in
      let v = balance tick holder rs +ℤ amt in
      let before = balance_nonneg tick holder rs inv.sound in
      rw result (record {
        sound = put_amt_sum-IsSound tick holder v rs (omega int_laws) inv.sound;
        backed =
            backed_after tick rs (put_amt_sum tick holder v rs) db.drc20_collect
              (balance tick holder rs) v (supply tick db.drc20_collect +ℤ amt) _
              (total-put_amt_sum tick holder v rs inv.sound) (omega int_laws)
              (total-put_amt_sum_ne tick holder v rs) there inv.backed;
      })

  -- So does burning, whatever the amount.
  pub burn_drc20-IsBacked :
      (holder : String)
      → IsBacked db
      → burn_drc20 tick holder amt tx_hash height fork db ≡ ok db'
      → IsBacked db'
  burn_drc20-IsBacked holder inv e =
      let (can, result) = burn_drc20-eq-ok tick holder amt tx_hash height fork db db' e in
      let rs = db.drc20_collect_address in
      let v = balance tick holder rs -ℤ amt in
      rw result (record {
        sound = set_amt_sum-IsSound tick holder v rs (omega (int_laws, can.covered)) inv.sound;
        backed =
            backed_after tick rs (set_amt_sum tick holder v rs) db.drc20_collect
              (balance tick holder rs) v (supply tick db.drc20_collect -ℤ amt) _
              (total-set_amt_sum tick holder v rs inv.sound can.held) (omega int_laws)
              (λ t'. total-set_amt_sum_ne tick holder t' v rs) can.deployed inv.backed;
      })

-- Calls of the three operations that succeed, by handlers and by forks, with any addresses.
pub data Moves (base : Db) : Db → Type 0 where
  no_move : Moves base base
  transferred :
      {db db' : Db} (tick src dst : String) (amt : ℤ) (tx_hash : String) (height : ℤ) (fork : Bool)
      → Moves base db
      → transfer_drc20 tick src dst amt tx_hash height fork db ≡ ok db'
      → Moves base db'
  minted :
      {db db' : Db} (tick holder : String) (amt : ℤ) (tx_hash : String) (height : ℤ) (fork : Bool)
      → Moves base db
      → pos 0 ≤ℤ amt
      → mint_drc20 tick holder amt tx_hash height fork db ≡ ok db'
      → Moves base db'
  burned :
      {db db' : Db} (tick holder : String) (amt : ℤ) (tx_hash : String) (height : ℤ) (fork : Bool)
      → Moves base db
      → burn_drc20 tick holder amt tx_hash height fork db ≡ ok db'
      → Moves base db'

-- Transfers, issues of amounts that are not negative, and burns that succeed, by handlers and by
-- forks, in any number and order and with any addresses, also empty ones, keep that the recorded
-- supply of every token is the sum of its balances, that no balance is negative and that no key
-- stands twice.
pub Moves-IsBacked : {base db : Db} → IsBacked base → Moves base db → IsBacked db
Moves-IsBacked inv no_move = inv
Moves-IsBacked inv (transferred {db} {db'} t s d amt x h fork m e) =
    transfer_drc20-IsBacked t amt x h fork db db' s d (Moves-IsBacked inv m) e
Moves-IsBacked inv (minted {db} {db'} t a amt x h fork m p e) =
    mint_drc20-IsBacked t amt x h fork db db' a (Moves-IsBacked inv m) p e
Moves-IsBacked inv (burned {db} {db'} t a amt x h fork m e) =
    burn_drc20-IsBacked t amt x h fork db db' a (Moves-IsBacked inv m) e
