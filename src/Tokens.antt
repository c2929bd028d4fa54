-- ===== src/Tokens.antt =====
-- The table `drc20_collect` as storage/common.go reads and writes it: `Where("tick = ?").First`
-- and `.Updates(amt_sum, transactions)`.
pub mod Supply
use dogeuni_indexer.Prelude.{
  ℕ, ◌+◌, ◌-◌, ◌%◌, ◌^◌, String, Bool, Option, none, some, List, [], ◌∷◌, ◌==◌, if◌then◌else◌,
}
use dogeuni_indexer.Prelude.Int.{ℤ}
use dogeuni_indexer.Models.{Drc20Collect}

unfoldable pub find_token : String → List Drc20Collect → Option Drc20Collect
find_token tick [] = none
find_token tick (c ∷ cs) = if c.tick == tick then some c else find_token tick cs

-- `Updates` writes every row that fits.
unfoldable pub set_token : String → ℤ → ℕ → List Drc20Collect → List Drc20Collect
set_token tick sum trans [] = []
set_token tick sum trans (c ∷ cs) =
    (if c.tick == tick then record c { amt_sum = sum; transactions = trans } else c)
    ∷ set_token tick sum trans cs

-- `trans := Transactions + 1`, or `- 1` on a fork, in a uint64. The test `trans < 0` after the
-- subtraction never holds of an unsigned number, so the subtraction wraps at 0.
unfoldable pub next_transactions : Bool → ℕ → ℕ
next_transactions fork n = if fork then (n + 2 ^ 64 - 1) % 2 ^ 64 else (n + 1) % 2 ^ 64
