-- ===== src/Holders.antt =====
-- The table `drc20_collect_address` as the statements of storage/common.go read and write it:
-- `Where("tick = ? and holder_address = ?").First`, `.Update("amt_sum", ...)` and `Create`.
pub mod Balance
pub mod Total
pub mod Move
use dogeuni_indexer.Prelude.{
  String, Bool, true, false, ◌&&◌, Option, none, some, List, [], ◌∷◌, ◌++◌, ◌==◌, if◌then◌else◌,
}
use dogeuni_indexer.Prelude.Int.{ℤ, pos}
use dogeuni_indexer.Models.{Drc20CollectAddress}

-- Two keys of the table are the same.
unfoldable pub same_key : String → String → String → String → Bool
same_key tick holder tick' holder' = tick == tick' && holder == holder'

unfoldable pub row_is : String → String → Drc20CollectAddress → Bool
unfolding same_key
row_is tick holder r = same_key r.tick r.holder_address tick holder

-- `First`: the first row that fits, or ErrRecordNotFound.
unfoldable pub find_holder : String → String → List Drc20CollectAddress → Option Drc20CollectAddress
find_holder tick holder [] = none
find_holder tick holder (r ∷ rs) =
    if row_is tick holder r then some r else find_holder tick holder rs

-- `Update("amt_sum", v)` writes every row that fits.
unfoldable pub set_amt_sum :
    String → String → ℤ → List Drc20CollectAddress → List Drc20CollectAddress
set_amt_sum tick holder v [] = []
set_amt_sum tick holder v (r ∷ rs) =
    (if row_is tick holder r then record r { amt_sum = v } else r) ∷ set_amt_sum tick holder v rs

abbrev pub empty_holder : String → String → Drc20CollectAddress
empty_holder tick holder = record { tick = tick; holder_address = holder; amt_sum = pos 0 }

-- The row that a handler works on when its lookup may fail with ErrRecordNotFound.
abbrev pub or_empty : String → String → Option Drc20CollectAddress → Drc20CollectAddress
or_empty tick holder none = empty_holder tick holder
or_empty tick holder (some r) = r

-- `Create` of the empty row, made only where the lookup found none.
unfoldable pub create_missing :
    String → String → List Drc20CollectAddress → List Drc20CollectAddress
create_missing tick holder rs = elim (find_holder tick holder rs) [
  | none ↦ rs ++ empty_holder tick holder ∷ []
  | some r ↦ rs
]
