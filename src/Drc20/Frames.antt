-- ===== src/Drc20/Frames.antt =====
-- storage/common.go: what the token operations leave alone: rows that are there, supplies of a
-- transfer, and the table of the pools.
use dogeuni_indexer.Prelude.{String, Bool, ◌≡◌, ◌≢◌, ap, ◌∙◌}
use dogeuni_indexer.Prelude.Int.{ℤ, ◌+ℤ◌, ◌-ℤ◌}
use dogeuni_indexer.Prelude.Result.{ok}
use dogeuni_indexer.Models.{Db}
use dogeuni_indexer.Holders.Balance.{
  balance, IsHeld, IsHeld-set_amt_sum, IsHeld-create_missing_other, same_key-false,
}
use dogeuni_indexer.Holders.{create_missing}
use dogeuni_indexer.Drc20.{transfer_drc20, mint_drc20, burn_drc20}
use dogeuni_indexer.Drc20.Effects.{transfer_drc20-eq-ok, mint_drc20-eq-ok, burn_drc20-eq-ok}
use dogeuni_indexer.Drc20.Balances.{held_by, held_by-mint_drc20, held_by-burn_drc20}
use dogeuni_indexer.Drc20.Issue.{issued}

module _ (tick : String) (amt : ℤ) (tx_hash : String) (height : ℤ) (fork : Bool) (db db' : Db) where
  pub transfer_issued :
      (src dst : String)
      → transfer_drc20 tick src dst amt tx_hash height fork db ≡ ok db'
      → (t : String) → issued t db' ≡ issued t db
  transfer_issued src dst e t =
      ap (issued t) (transfer_drc20-eq-ok tick src dst amt tx_hash height fork db db' e).1

  module _ (holder : String) where
    pub mint_pools :
        mint_drc20 tick holder amt tx_hash height fork db ≡ ok db'
        → db'.swap_liquidity ≡ db.swap_liquidity
    mint_pools e =
        ap (λ (x : Db). x.swap_liquidity)
          (mint_drc20-eq-ok tick holder amt tx_hash height fork db db' e).1

    pub burn_pools :
        burn_drc20 tick holder amt tx_hash height fork db ≡ ok db'
        → db'.swap_liquidity ≡ db.swap_liquidity
    burn_pools e =
        ap (λ (x : Db). x.swap_liquidity)
          (burn_drc20-eq-ok tick holder amt tx_hash height fork db db' e).1

    pub mint-keeps_IsHeld :
        mint_drc20 tick holder amt tx_hash height fork db ≡ ok db'
        → (t h : String) → IsHeld t h db.drc20_collect_address
        → IsHeld t h db'.drc20_collect_address
    mint-keeps_IsHeld e t h held =
        let (_, result) = mint_drc20-eq-ok tick holder amt tx_hash height fork db db' e in
        let rs = db.drc20_collect_address in
        rw result (
          IsHeld-set_amt_sum tick holder t h (balance tick holder rs +ℤ amt)
            (create_missing tick holder rs) (IsHeld-create_missing_other tick holder t h rs held))

    pub burn-keeps_IsHeld :
        burn_drc20 tick holder amt tx_hash height fork db ≡ ok db'
        → (t h : String) → IsHeld t h db.drc20_collect_address
        → IsHeld t h db'.drc20_collect_address
    burn-keeps_IsHeld e t h held =
        let (_, result) = burn_drc20-eq-ok tick holder amt tx_hash height fork db db' e in
        let rs = db.drc20_collect_address in
        rw result (IsHeld-set_amt_sum tick holder t h (balance tick holder rs -ℤ amt) rs held)

    -- Another address keeps what it has, of every token.
    pub mint_other_holder :
        mint_drc20 tick holder amt tx_hash height fork db ≡ ok db'
        → (t h : String) → holder ≢ h
        → held_by t h db' ≡ held_by t h db
    mint_other_holder e t h ne =
        held_by-mint_drc20 tick amt tx_hash height fork db db' holder e t h
        ∙ rw (same_key-false tick holder t h ne)

    pub burn_other_holder :
        burn_drc20 tick holder amt tx_hash height fork db ≡ ok db'
        → (t h : String) → holder ≢ h
        → held_by t h db' ≡ held_by t h db
    burn_other_holder e t h ne =
        held_by-burn_drc20 tick amt tx_hash height fork db db' holder e t h
        ∙ rw (same_key-false tick holder t h ne)
