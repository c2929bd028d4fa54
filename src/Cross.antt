-- ===== src/Cross.antt =====
-- storage/cross.go, and crossFork of explorer/cross.go.
use Prim.Native.String.{◌++◌ as ◌^^◌}
use dogeuni_indexer.Prelude.{String, false, List, [], ◌∷◌, ◌++◌, ◌==◌, if◌then◌else◌}
use dogeuni_indexer.Prelude.Int.{ℤ, pos, ltb_ℤ}
use dogeuni_indexer.Prelude.Result.{Result}
use dogeuni_indexer.Models.{Drc20Collect, CrossInfo, CrossCollect, CrossRevert, Db}
use dogeuni_indexer.Tables.{delete_where}
use dogeuni_indexer.Drc20.{mint_drc20, burn_drc20}
use dogeuni_indexer.Swap.{max_number}

-- `"W" + cross.Tick + "(WRAPPED-" + cross.Tick + ")"`
abbrev pub wrapped : String → String
wrapped tick = "W" ^^ tick ^^ "(WRAPPED-" ^^ tick ^^ ")"

-- The token's row; its limit is unset.
abbrev pub wrapped_token : CrossInfo → Drc20Collect
wrapped_token cross = record {
  tick = wrapped cross.tick;
  amt_sum = pos 0;
  max = max_number;
  lim = pos 0;
  dec = 8;
  holder_address = cross.holder_address;
  tx_hash = cross.tx_hash;
  transactions = 0;
}

unfoldable pub cross_deploy : CrossInfo → Db → Db
cross_deploy cross db = record db {
  drc20_collect = db.drc20_collect ++ wrapped_token cross ∷ [];
  cross_collect =
      db.cross_collect
      ++ record {
        tick = wrapped cross.tick;
        admin_address = cross.admin_address;
        holder_address = cross.holder_address;
      }
        ∷ [];
  cross_revert =
      record { op = "deploy"; tick = wrapped cross.tick; block_number = cross.block_number }
      ∷ db.cross_revert;
}

unfoldable pub cross_mint : CrossInfo → Db → Result Db
cross_mint cross db =
    mint_drc20 cross.tick cross.to_address cross.amt cross.tx_hash cross.block_number false db

unfoldable pub cross_burn : CrossInfo → Db → Result Db
cross_burn cross db =
    burn_drc20 cross.tick cross.holder_address cross.amt cross.tx_hash cross.block_number false db

-- The loop of `crossFork`, over the rows above the height.
unfoldable pub undo_crosses : ℤ → List CrossRevert → Db → Db
undo_crosses height [] db = db
undo_crosses height (r ∷ log) db = undo_crosses height log (
    if ltb_ℤ height r.block_number
    then (if r.op == "deploy"
        then record db {
          cross_collect = delete_where (λ (c : CrossCollect). c.tick == r.tick) db.cross_collect;
          drc20_collect = delete_where (λ (c : Drc20Collect). c.tick == r.tick) db.drc20_collect;
        }
        else db)
    else db)

unfoldable pub cross_fork : ℤ → Db → Db
cross_fork height db = undo_crosses height db.cross_revert db
