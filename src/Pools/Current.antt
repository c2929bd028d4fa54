-- ===== src/Pools/Current.antt =====
-- When a pool's row is current: its amounts are what the reserves hold.
use dogeuni_indexer.Prelude.{
  String, ◌≡◌, none, some, List, [], ◌∷◌, ◌==◌, eq_iff, if◌then◌else◌, arith,
}
use dogeuni_indexer.Models.{Drc20Collect, Drc20CollectAddress, SwapLiquidity}
use dogeuni_indexer.Holders.Balance.{balance, IsHeld}
use dogeuni_indexer.Pools.{
  find_pool, refresh, refresh_amt0, refresh_amt1, refresh_total, refresh_pools,
}

pub record IsCurrent (rs : List Drc20CollectAddress) (p : SwapLiquidity) : Type 0 where
  pub reserve0 : p.amt0 ≡ balance p.tick0 p.reserves_address rs
  pub reserve1 : p.amt1 ≡ balance p.tick1 p.reserves_address rs

module _ (cs : List Drc20Collect) (rs : List Drc20CollectAddress) where
  pub refresh_keys :
      (p : SwapLiquidity)
      → ((refresh cs rs p).tick ≡ p.tick)
        × ((refresh cs rs p).tick0 ≡ p.tick0)
        × ((refresh cs rs p).tick1 ≡ p.tick1)
        × ((refresh cs rs p).reserves_address ≡ p.reserves_address)
  unfolding refresh refresh_amt0 refresh_amt1 refresh_total
  refresh_keys p = ground arith

  pub refresh-IsCurrent :
      (p : SwapLiquidity)
      → IsHeld p.tick0 p.reserves_address rs
      → IsHeld p.tick1 p.reserves_address rs
      → IsCurrent rs (refresh cs rs p)
  unfolding refresh refresh_amt0 refresh_amt1 refresh_total balance
  refresh-IsCurrent p h0 h1 = ground arith

  pub find_pool-refresh_pools :
      (tick tick0 tick1 : String) (ps : List SwapLiquidity)
      → find_pool tick0 tick1 (refresh_pools tick cs rs ps) ≡ elim (find_pool tick0 tick1 ps) [
        | none ↦ none
        | some p ↦ some (if p.tick == tick then refresh cs rs p else p)
      ]
  unfolding find_pool refresh_pools
  find_pool-refresh_pools tick tick0 tick1 [] = ground arith
  find_pool-refresh_pools tick tick0 tick1 (p ∷ ps) =
      ground (arith, find_pool-refresh_pools tick tick0 tick1 ps, refresh_keys p)

pub find_pool_keys :
    (tick0 tick1 : String) (ps : List SwapLiquidity) {p : SwapLiquidity}
    → find_pool tick0 tick1 ps ≡ some p
    → (p.tick0 ≡ tick0) × (p.tick1 ≡ tick1)
unfolding find_pool
find_pool_keys tick0 tick1 [] e = cc
find_pool_keys tick0 tick1 (q ∷ ps) {p} e =
    ground
      (arith, find_pool_keys tick0 tick1 ps {p = p}, eq_iff q.tick0 tick0, eq_iff q.tick1 tick1)
