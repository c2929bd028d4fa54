-- ===== src/Explorer/Cross.antt =====
-- explorer/cross.go and its checks in explorer/verifys.go, with `executeCross` and the branch of
-- `scan` that calls it (explorer/scanner.go).
use Prim.Native.String.{len}
use dogeuni_indexer.Prelude.{String, not, ◌||◌, some, ◌==◌, if◌then◌else◌, ltb}
use dogeuni_indexer.Prelude.Int.{pos, ltb_ℤ, leb_ℤ}
use dogeuni_indexer.Prelude.Result.{
  Result, ok, err, ◌>>=◌, ◌>>◌, fail_if, or_err, bad_amount, no_row, insufficient, bad_tick,
  unsupported_op, not_holder,
}
use dogeuni_indexer.Models.{CrossInfo, CrossCollect, Db}
use dogeuni_indexer.Tables.{first_where, update_where}
use dogeuni_indexer.Holders.{find_holder}
use dogeuni_indexer.Tokens.{find_token}
use dogeuni_indexer.Cross.{cross_deploy, cross_mint, cross_burn}

-- `Where("tx_hash = ?").Update("order_status", 0)`, and the same of `err_info` for a failed message.
abbrev pub closed : String → Db → Db
closed tx_hash db = record db {
  cross_info =
      update_where (λ (i : CrossInfo). i.tx_hash == tx_hash)
        (λ (i : CrossInfo). record i { order_status = pos 0 }) db.cross_info;
}

abbrev pub settle : CrossInfo → Db → Result Db → Db
settle m db (ok db') = db'
settle m db (err e) = record db {
  cross_info =
      update_where (λ (i : CrossInfo). i.tx_hash == m.tx_hash)
        (λ (i : CrossInfo). record i { err_info = some e }) db.cross_info;
}

-- A token that is there already is not refused.
unfoldable pub verify_cross_deploy : CrossInfo → Result (Unit {0})
verify_cross_deploy m = fail_if (ltb (len m.tick) 2 || ltb 8 (len m.tick)) bad_tick

unfoldable pub verify_cross_mint : CrossInfo → Db → Result (Unit {0})
verify_cross_mint m db = do
  fail_if (leb_ℤ m.amt (pos 0)) bad_amount
  card ← or_err (find_token m.tick db.drc20_collect) no_row
  cc ← or_err (first_where (λ (c : CrossCollect). c.tick == m.tick) db.cross_collect) no_row
  fail_if (not (m.holder_address == cc.admin_address)) not_holder

unfoldable pub verify_cross_burn : CrossInfo → Db → Result (Unit {0})
verify_cross_burn m db = do
  fail_if (leb_ℤ m.amt (pos 0)) bad_amount
  card ← or_err (find_holder m.tick m.holder_address db.drc20_collect_address) no_row
  fail_if (ltb_ℤ card.amt_sum m.amt) insufficient

unfoldable pub verify_cross : CrossInfo → Db → Result (Unit {0})
verify_cross m db =
    if m.op == "deploy"
    then verify_cross_deploy m
    else if m.op == "mint"
    then verify_cross_mint m db
    else if m.op == "burn"
    then verify_cross_burn m db
    else err unsupported_op

unfoldable pub apply_cross : CrossInfo → Db → Result Db
apply_cross m db =
    if m.op == "deploy"
    then ok (closed m.tx_hash (cross_deploy m db))
    else if m.op == "mint"
    then (cross_mint m db >>= λ db'. ok (closed m.tx_hash db'))
    else if m.op == "burn"
    then (cross_burn m db >>= λ db'. ok (closed m.tx_hash db'))
    else ok db

unfoldable pub execute_cross : CrossInfo → Db → Result Db
execute_cross m db = do verify_cross m db; apply_cross m db

unfoldable pub scan_cross : CrossInfo → Db → Db
scan_cross m db = settle m db (execute_cross m db)
