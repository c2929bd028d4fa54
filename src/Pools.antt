-- ===== src/Pools.antt =====
-- The table `swap_liquidity` as storage/swap.go reads and writes it: the lookup by both tokens,
-- `Create`, and the three UPDATE statements of `UpdateLiquidity`.
pub mod Current
pub mod Solid
pub mod Tokens
pub mod Calls
use dogeuni_indexer.Prelude.{
  String, Bool, Option, none, some, List, [], ◌∷◌, ◌==◌, if◌then◌else◌, ◌&&◌,
}
use dogeuni_indexer.Prelude.Int.{ℤ}
use dogeuni_indexer.Models.{Drc20Collect, Drc20CollectAddress, SwapLiquidity, Db}
use dogeuni_indexer.Holders.{find_holder}
use dogeuni_indexer.Tokens.Supply.{supply}

-- `Where("tick0 = ? and tick1 = ?").First`
unfoldable pub find_pool : String → String → List SwapLiquidity → Option SwapLiquidity
find_pool tick0 tick1 [] = none
find_pool tick0 tick1 (p ∷ ps) =
    if p.tick0 == tick0 && p.tick1 == tick1 then some p else find_pool tick0 tick1 ps

-- `SET amt0 = (SELECT amt_sum ...) WHERE EXISTS (...)`: where the reserves hold the token.
unfoldable pub refresh_amt0 : List Drc20CollectAddress → SwapLiquidity → SwapLiquidity
refresh_amt0 rs p = elim (find_holder p.tick0 p.reserves_address rs) [
  | none ↦ p
  | some r ↦ record p { amt0 = r.amt_sum }
]

unfoldable pub refresh_amt1 : List Drc20CollectAddress → SwapLiquidity → SwapLiquidity
refresh_amt1 rs p = elim (find_holder p.tick1 p.reserves_address rs) [
  | none ↦ p
  | some r ↦ record p { amt1 = r.amt_sum }
]

-- `SET liquidity_total = (SELECT amt_sum FROM drc20_collect ...)`, with 0 for the NULL of a token
-- that has no row.
unfoldable pub refresh_total : List Drc20Collect → SwapLiquidity → SwapLiquidity
refresh_total cs p = record p { liquidity_total = supply p.tick cs }

-- The three statements on one pool.
unfoldable pub refresh :
    List Drc20Collect → List Drc20CollectAddress → SwapLiquidity → SwapLiquidity
refresh cs rs p = refresh_total cs (refresh_amt1 rs (refresh_amt0 rs p))

unfoldable pub refresh_pools :
    String → List Drc20Collect → List Drc20CollectAddress → List SwapLiquidity → List SwapLiquidity
refresh_pools tick cs rs [] = []
refresh_pools tick cs rs (p ∷ ps) =
    (if p.tick == tick then refresh cs rs p else p) ∷ refresh_pools tick cs rs ps

-- `UpdateLiquidity`; each statement touches columns that the others do not read.
unfoldable pub update_liquidity : String → Db → Db
update_liquidity tick db = record db {
  swap_liquidity = refresh_pools tick db.drc20_collect db.drc20_collect_address db.swap_liquidity;
}

-- `UpdateLiquidityFork`: the same on every pool.
unfoldable pub refresh_all :
    List Drc20Collect → List Drc20CollectAddress → List SwapLiquidity → List SwapLiquidity
refresh_all cs rs [] = []
refresh_all cs rs (p ∷ ps) = refresh cs rs p ∷ refresh_all cs rs ps

unfoldable pub update_liquidity_fork : Db → Db
update_liquidity_fork db = record db {
  swap_liquidity = refresh_all db.drc20_collect db.drc20_collect_address db.swap_liquidity;
}
