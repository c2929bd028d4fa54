-- ===== src/Pools/Solid.antt =====
-- The pools' recorded amounts are not negative, before and after `UpdateLiquidity`.
use dogeuni_indexer.Prelude.{String, ◌≡◌, some, List, [], ◌∷◌, ◌++◌, arith}
use dogeuni_indexer.Prelude.Int.{pos, ◌≤ℤ◌}
use dogeuni_indexer.Models.{SwapLiquidity, Db}
use dogeuni_indexer.Holders.Balance.{balance}
use dogeuni_indexer.Holders.Total.{balance_nonneg, total_nonneg}
use dogeuni_indexer.Tokens.Supply.{supply}
use dogeuni_indexer.Drc20.Conservation.{IsBacked}
use dogeuni_indexer.Pools.{
  find_pool, refresh, refresh_amt0, refresh_amt1, refresh_total, refresh_pools, update_liquidity,
}

abbrev pub IsNonNegative : SwapLiquidity → Type 0
IsNonNegative p = (pos 0 ≤ℤ p.amt0) × (pos 0 ≤ℤ p.amt1) × (pos 0 ≤ℤ p.liquidity_total)

abbrev pub AllNonNegative : List SwapLiquidity → Type 0
AllNonNegative [] = Unit {0}
AllNonNegative (p ∷ ps) = IsNonNegative p × AllNonNegative ps

-- Every token's supply is the sum of its balances, and no pool of pair-v1 records a negative amount.
pub record IsSolid (db : Db) : Type 0 where
  pub is_backed : IsBacked db
  pub pools : AllNonNegative db.swap_liquidity

pub find_pool-IsNonNegative :
    (tick0 tick1 : String) (ps : List SwapLiquidity) {p : SwapLiquidity}
    → AllNonNegative ps
    → find_pool tick0 tick1 ps ≡ some p
    → IsNonNegative p
unfolding find_pool
find_pool-IsNonNegative tick0 tick1 [] a e = cc
find_pool-IsNonNegative tick0 tick1 (q ∷ ps) {p} a e =
    ground (arith, find_pool-IsNonNegative tick0 tick1 ps {p = p} a.1)

pub append-AllNonNegative :
    (p : SwapLiquidity) (ps : List SwapLiquidity)
    → IsNonNegative p
    → AllNonNegative ps
    → AllNonNegative (ps ++ p ∷ [])
append-AllNonNegative p [] n a = (n, tt)
append-AllNonNegative p (q ∷ ps) n (m, a) = (m, append-AllNonNegative p ps n a)

supply_nonneg : (t : String) (db : Db) → IsBacked db → pos 0 ≤ℤ supply t db.drc20_collect
supply_nonneg t db b = rw (← b.backed t) (total_nonneg t db.drc20_collect_address b.sound)

refresh-IsNonNegative :
    (db : Db) (p : SwapLiquidity)
    → IsBacked db
    → IsNonNegative p
    → IsNonNegative (refresh db.drc20_collect db.drc20_collect_address p)
unfolding refresh refresh_amt0 refresh_amt1 refresh_total balance
refresh-IsNonNegative db p b n = ground (
  arith,
  balance_nonneg p.tick0 p.reserves_address db.drc20_collect_address b.sound,
  balance_nonneg p.tick1 p.reserves_address db.drc20_collect_address b.sound,
  supply_nonneg p.tick db b,
)

refresh_pools-AllNonNegative :
    (tick : String) (db : Db) (ps : List SwapLiquidity)
    → IsBacked db
    → AllNonNegative ps
    → AllNonNegative (refresh_pools tick db.drc20_collect db.drc20_collect_address ps)
unfolding refresh_pools
refresh_pools-AllNonNegative tick db [] b a = tt
refresh_pools-AllNonNegative tick db (p ∷ ps) b (n, a) =
    (ground (arith, refresh-IsNonNegative db p b n), refresh_pools-AllNonNegative tick db ps b a)

pub update_liquidity-IsSolid :
    (tick : String) (db : Db) → IsSolid db → IsSolid (update_liquidity tick db)
unfolding update_liquidity
update_liquidity-IsSolid tick db v = record {
  is_backed = record { sound = v.is_backed.sound; backed = v.is_backed.backed };
  pools = refresh_pools-AllNonNegative tick db db.swap_liquidity v.is_backed v.pools;
}

-- A database with the same tokens, balances and pools.
pub same-IsSolid :
    {a b : Db}
    → b.drc20_collect ≡ a.drc20_collect
    → b.drc20_collect_address ≡ a.drc20_collect_address
    → b.swap_liquidity ≡ a.swap_liquidity
    → IsSolid a
    → IsSolid b
same-IsSolid tokens holders pools v = record {
  is_backed = record {
    sound = rw holders v.is_backed.sound;
    backed = λ t. rw (tokens, holders) (v.is_backed.backed t);
  };
  pools = rw pools v.pools;
}
