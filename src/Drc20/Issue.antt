-- ===== src/Drc20/Issue.antt =====
-- storage/common.go: when a transfer and a burn succeed, and what issuing and burning do to the
-- balances and the supply together.
use dogeuni_indexer.Prelude.{String, Bool, ◌≡◌, ◌↔◌, ◌==◌, if◌then◌else◌, ◌∙◌, ap}
use dogeuni_indexer.Prelude.Int.{ℤ, ◌+ℤ◌, ◌-ℤ◌, ◌≤ℤ◌}
use dogeuni_indexer.Prelude.Result.{ok}
use dogeuni_indexer.Models.{Db}
use dogeuni_indexer.Holders.{same_key}
use dogeuni_indexer.Tokens.Supply.{supply, supply-set_token}
use dogeuni_indexer.Drc20.{transfer_drc20, mint_drc20, burn_drc20}
use dogeuni_indexer.Drc20.Effects.{
  CanTransfer, after_transfer, transfer_drc20_success, transfer_drc20-eq-ok, mint_drc20-eq-ok,
  CanBurn, after_burn, burn_drc20_success, burn_drc20-eq-ok,
}
use dogeuni_indexer.Drc20.Balances.{held_by, held_by-mint_drc20, held_by-burn_drc20}

-- What has been issued of a token.
abbrev pub issued : String → Db → ℤ
issued tick db = supply tick db.drc20_collect

module _ (tick : String) (amt : ℤ) (tx_hash : String) (height : ℤ) (fork : Bool) (db : Db) where
  -- A transfer succeeds exactly when the amount is positive, the two addresses differ, and the
  -- sender has a row with at least the amount.
  pub transfer_drc20_iff :
      (src dst : String)
      → ((db' : Db) × (transfer_drc20 tick src dst amt tx_hash height fork db ≡ ok db'))
        ↔ CanTransfer tick src dst amt tx_hash height fork db
  transfer_drc20_iff src dst = (
    λ (db', e). (transfer_drc20-eq-ok tick src dst amt tx_hash height fork db db' e).0,
    λ can. (
      after_transfer tick src dst amt tx_hash height fork db,
      transfer_drc20_success tick src dst amt tx_hash height fork db can,
    ),
  )

  -- A burn succeeds exactly when the token is deployed, the holder has a row, and neither the
  -- supply nor the balance is below the amount.
  pub burn_drc20_iff :
      (holder : String)
      → ((db' : Db) × (burn_drc20 tick holder amt tx_hash height fork db ≡ ok db'))
        ↔ CanBurn tick holder amt tx_hash height fork db
  burn_drc20_iff holder = (
    λ (db', e). (burn_drc20-eq-ok tick holder amt tx_hash height fork db db' e).0,
    λ can. (
      after_burn tick holder amt tx_hash height fork db,
      burn_drc20_success tick holder amt tx_hash height fork db can,
    ),
  )

  module _ (db' : Db) where
    -- An issue that succeeds adds the amount to the holder's balance and to the token's supply,
    -- and changes no other balance and no other supply.
    pub mint_drc20_effect :
        (holder : String)
        → mint_drc20 tick holder amt tx_hash height fork db ≡ ok db'
        → ((t h : String)
            → held_by t h db' ≡ (
                if same_key tick holder t h then held_by tick holder db +ℤ amt else held_by t h db))
          × ((t : String)
              → issued t db' ≡ (if tick == t then issued tick db +ℤ amt else issued t db))
    mint_drc20_effect holder e =
        let (there, result) = mint_drc20-eq-ok tick holder amt tx_hash height fork db db' e in
        (
          held_by-mint_drc20 tick amt tx_hash height fork db db' holder e,
          λ t. ap (issued t) result ∙ supply-set_token tick t _ _ db.drc20_collect there,
        )

    -- A burn that succeeds takes the amount from the holder's balance and from the token's supply,
    -- both of which are at least the amount, and changes no other balance and no other supply.
    pub burn_drc20_effect :
        (holder : String)
        → burn_drc20 tick holder amt tx_hash height fork db ≡ ok db'
        → (amt ≤ℤ held_by tick holder db)
          × (amt ≤ℤ issued tick db)
          × ((t h : String)
              → held_by t h db' ≡ (
                  if same_key tick holder t h
                  then held_by tick holder db -ℤ amt
                  else held_by t h db))
          × ((t : String)
              → issued t db' ≡ (if tick == t then issued tick db -ℤ amt else issued t db))
    burn_drc20_effect holder e =
        let (can, result) = burn_drc20-eq-ok tick holder amt tx_hash height fork db db' e in
        (
          can.covered,
          can.issued,
          held_by-burn_drc20 tick amt tx_hash height fork db db' holder e,
          λ t. ap (issued t) result ∙ supply-set_token tick t _ _ db.drc20_collect can.deployed,
        )
