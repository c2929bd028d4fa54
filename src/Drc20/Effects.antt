-- ===== src/Drc20/Effects.antt =====
-- When the three operations succeed, and the database that they leave.
use dogeuni_indexer.Prelude.{ℕ, String, Bool, ◌≡◌, ◌≢◌, Option, none, some, eq_iff, arith}
use dogeuni_indexer.Prelude.Int.{ℤ, pos, ◌+ℤ◌, ◌-ℤ◌, ◌≤ℤ◌}
use dogeuni_indexer.Prelude.Result.{ok}
use dogeuni_indexer.Models.{Drc20Collect, Drc20Revert, Db}
use dogeuni_indexer.Holders.{set_amt_sum, create_missing}
use dogeuni_indexer.Holders.Balance.{balance, IsHeld, put_amt_sum}
use dogeuni_indexer.Tokens.{find_token, set_token, next_transactions}
use dogeuni_indexer.Tokens.Supply.{supply, IsDeployed}
use dogeuni_indexer.Drc20.{log_revert, transfer_drc20, mint_drc20, burn_drc20}

abbrev pub transactions_of : Option Drc20Collect → ℕ
transactions_of none = 0
transactions_of (some c) = c.transactions

module _ (tick src dst : String) (amt : ℤ) (tx_hash : String) (height : ℤ) (fork : Bool)
    (db : Db) where
  abbrev pub transfer_revert : Drc20Revert
  transfer_revert = record {
    from_address = src;
    to_address = dst;
    tick = tick;
    amt = amt;
    tx_hash = tx_hash;
    block_number = height;
  }

  abbrev pub after_transfer : Db
  after_transfer = record db {
    drc20_collect_address =
        set_amt_sum tick dst (balance tick dst db.drc20_collect_address +ℤ amt) (
          set_amt_sum tick src (balance tick src db.drc20_collect_address -ℤ amt)
            (create_missing tick dst db.drc20_collect_address));
    drc20_revert = log_revert fork transfer_revert db.drc20_revert;
  }

  pub record CanTransfer : Type 0 where
    pub positive : pos 1 ≤ℤ amt
    pub distinct : src ≢ dst
    pub held : IsHeld tick src db.drc20_collect_address
    pub covered : amt ≤ℤ balance tick src db.drc20_collect_address

  pub transfer_drc20_success :
      CanTransfer → transfer_drc20 tick src dst amt tx_hash height fork db ≡ ok after_transfer
  unfolding transfer_drc20 balance
  transfer_drc20_success c = ground (arith, eq_iff src dst)

  pub transfer_drc20-eq-ok :
      (db' : Db)
      → transfer_drc20 tick src dst amt tx_hash height fork db ≡ ok db'
      → CanTransfer × (db' ≡ after_transfer)
  unfolding transfer_drc20 balance
  transfer_drc20-eq-ok db' e = ground (arith, eq_iff src dst)

module _ (tick holder : String) (amt : ℤ) (tx_hash : String) (height : ℤ) (fork : Bool)
    (db : Db) where
  abbrev pub mint_revert : Drc20Revert
  mint_revert = record {
    from_address = "";
    to_address = holder;
    tick = tick;
    amt = amt;
    tx_hash = tx_hash;
    block_number = height;
  }

  abbrev pub after_mint : Db
  after_mint = record db {
    drc20_collect =
        set_token tick (supply tick db.drc20_collect +ℤ amt)
          (next_transactions fork (transactions_of (find_token tick db.drc20_collect)))
          db.drc20_collect;
    drc20_collect_address =
        put_amt_sum tick holder (balance tick holder db.drc20_collect_address +ℤ amt)
          db.drc20_collect_address;
    drc20_revert = log_revert fork mint_revert db.drc20_revert;
  }

  pub mint_drc20_success :
      IsDeployed tick db.drc20_collect
      → mint_drc20 tick holder amt tx_hash height fork db ≡ ok after_mint
  unfolding mint_drc20 balance supply
  mint_drc20_success there = ground arith

  pub mint_drc20-eq-ok :
      (db' : Db)
      → mint_drc20 tick holder amt tx_hash height fork db ≡ ok db'
      → IsDeployed tick db.drc20_collect × (db' ≡ after_mint)
  unfolding mint_drc20 balance supply
  mint_drc20-eq-ok db' e = ground arith

  abbrev pub burn_revert : Drc20Revert
  burn_revert = record mint_revert { from_address = holder; to_address = "" }

  abbrev pub after_burn : Db
  after_burn = record db {
    drc20_collect =
        set_token tick (supply tick db.drc20_collect -ℤ amt)
          (next_transactions fork (transactions_of (find_token tick db.drc20_collect)))
          db.drc20_collect;
    drc20_collect_address =
        set_amt_sum tick holder (balance tick holder db.drc20_collect_address -ℤ amt)
          db.drc20_collect_address;
    drc20_revert = log_revert fork burn_revert db.drc20_revert;
  }

  pub record CanBurn : Type 0 where
    pub deployed : IsDeployed tick db.drc20_collect
    pub held : IsHeld tick holder db.drc20_collect_address
    pub issued : amt ≤ℤ supply tick db.drc20_collect
    pub covered : amt ≤ℤ balance tick holder db.drc20_collect_address

  pub burn_drc20_success :
      CanBurn → burn_drc20 tick holder amt tx_hash height fork db ≡ ok after_burn
  unfolding burn_drc20 balance supply
  burn_drc20_success c = ground arith

  pub burn_drc20-eq-ok :
      (db' : Db)
      → burn_drc20 tick holder amt tx_hash height fork db ≡ ok db'
      → CanBurn × (db' ≡ after_burn)
  unfolding burn_drc20 balance supply
  burn_drc20-eq-ok db' e = ground arith
