-- ===== src/Explorer/Box.antt =====
-- explorer/box.go `boxFork`.
use dogeuni_indexer.Prelude.{Option, none, some, List, [], ◌∷◌, ◌++◌, ◌==◌, ◌&&◌, if◌then◌else◌}
use dogeuni_indexer.Prelude.Int.{ℤ, pos, ltb_ℤ}
use dogeuni_indexer.Models.{
  Drc20Collect, Drc20CollectAddress, SwapLiquidity, BoxCollect, BoxCollectAddress, BoxRevert, Db,
}
use dogeuni_indexer.Tables.{update_where, delete_where}
use dogeuni_indexer.Holders.{find_holder}

-- `UPDATE box_collect SET liqamt_finish = amt_sum`, where the box's reserves have a row of its
-- second token.
abbrev with_liq : BoxCollect → Option Drc20CollectAddress → BoxCollect
with_liq b none = b
with_liq b (some r) = record b { liq_amt_finish = r.amt_sum }

unfoldable pub refresh_boxes : List Drc20CollectAddress → List BoxCollect → List BoxCollect
refresh_boxes rs [] = []
refresh_boxes rs (b ∷ bs) =
    with_liq b (find_holder b.tick1 b.reserves_address rs) ∷ refresh_boxes rs bs

-- The body of the loop.
unfoldable pub undo_box : BoxRevert → Db → Db
undo_box r db =
    if r.op == "deploy"
    then record db {
      drc20_collect = delete_where (λ (c : Drc20Collect). c.tick == r.tick0) db.drc20_collect;
      box_collect = delete_where (λ (b : BoxCollect). b.tick0 == r.tick0) db.box_collect;
    }
    else if r.op == "finish"
    then record db {
      swap_liquidity =
          delete_where (λ (p : SwapLiquidity). p.tick0 == r.tick0 && p.tick1 == r.tick1)
            db.swap_liquidity;
    }
    else if r.op == "refund-drc20"
    then record db {
      drc20_collect =
          db.drc20_collect
          ++ record {
            tick = r.tick0;
            amt_sum = pos 0;
            max = r.max;
            lim = pos 0;
            dec = 8;
            holder_address = r.holder_address;
            tx_hash = r.tx_hash;
            transactions = 0;
          }
            ∷ [];
    }
    else db

unfoldable pub undo_boxes : ℤ → List BoxRevert → Db → Db
undo_boxes height [] db = db
undo_boxes height (r ∷ log) db =
    undo_boxes height log (if ltb_ℤ height r.block_number then undo_box r db else db)

unfoldable pub box_fork : ℤ → Db → Db
box_fork height db =
    let db1 = record db {
      box_collect = refresh_boxes db.drc20_collect_address db.box_collect;
      box_collect_address =
          delete_where (λ (a : BoxCollectAddress). ltb_ℤ height a.block_number)
            db.box_collect_address;
    } in
    let db2 = undo_boxes height db1.box_revert db1 in
    record db2 {
      box_collect =
          update_where (λ (b : BoxCollect). ltb_ℤ height b.liq_block)
            (λ (b : BoxCollect). record b { is_del = pos 0 }) db2.box_collect;
    }
