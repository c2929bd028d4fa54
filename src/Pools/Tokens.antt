-- ===== src/Pools/Tokens.antt =====
-- storage/common.go: the token operations keep every token's supply the sum of its balances, and
-- leave the pools' rows alone.
use dogeuni_indexer.Prelude.{String, Bool, ◌≡◌}
use dogeuni_indexer.Prelude.Int.{ℤ, pos, ◌≤ℤ◌}
use dogeuni_indexer.Prelude.Result.{ok}
use dogeuni_indexer.Models.{Db}
use dogeuni_indexer.Drc20.{transfer_drc20, mint_drc20, burn_drc20}
use dogeuni_indexer.Drc20.Effects.{transfer_drc20-eq-ok, mint_drc20-eq-ok, burn_drc20-eq-ok}
use dogeuni_indexer.Drc20.Conservation.{
  transfer_drc20-IsBacked, mint_drc20-IsBacked, burn_drc20-IsBacked,
}
use dogeuni_indexer.Pools.Solid.{IsSolid}

module _ (tick : String) (amt : ℤ) (tx_hash : String) (height : ℤ) (fork : Bool) (db db' : Db)
    (v : IsSolid db) where
  pub transfer_drc20-IsSolid :
      (src dst : String)
      → transfer_drc20 tick src dst amt tx_hash height fork db ≡ ok db'
      → IsSolid db'
  transfer_drc20-IsSolid src dst e = record {
    is_backed = transfer_drc20-IsBacked tick amt tx_hash height fork db db' src dst v.is_backed e;
    pools = rw ((transfer_drc20-eq-ok tick src dst amt tx_hash height fork db db' e).1) v.pools;
  }

  pub mint_drc20-IsSolid :
      (holder : String)
      → pos 0 ≤ℤ amt
      → mint_drc20 tick holder amt tx_hash height fork db ≡ ok db'
      → IsSolid db'
  mint_drc20-IsSolid holder p e = record {
    is_backed = mint_drc20-IsBacked tick amt tx_hash height fork db db' holder v.is_backed p e;
    pools = rw ((mint_drc20-eq-ok tick holder amt tx_hash height fork db db' e).1) v.pools;
  }

  pub burn_drc20-IsSolid :
      (holder : String) → burn_drc20 tick holder amt tx_hash height fork db ≡ ok db' → IsSolid db'
  burn_drc20-IsSolid holder e = record {
    is_backed = burn_drc20-IsBacked tick amt tx_hash height fork db db' holder v.is_backed e;
    pools = rw ((burn_drc20-eq-ok tick holder amt tx_hash height fork db db' e).1) v.pools;
  }
