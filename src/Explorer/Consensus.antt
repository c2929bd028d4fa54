-- ===== src/Explorer/Consensus.antt =====
-- explorer/consensus.go and its checks in explorer/verifys.go, with `executeConsensus` and the
-- branch of `scan` that calls it (explorer/scanner.go).
use Prim.Native.String.{◌++◌ as ◌^^◌}
use dogeuni_indexer.Prelude.{String, not, some, ◌==◌, if◌then◌else◌}
use dogeuni_indexer.Prelude.Int.{pos, ltb_ℤ}
use dogeuni_indexer.Prelude.Result.{
  Result, ok, err, ◌>>=◌, ◌>>◌, fail_if, or_err, no_row, insufficient, bad_tick, unsupported_op,
  not_holder,
}
use dogeuni_indexer.Models.{ConsensusInfo, Db}
use dogeuni_indexer.Tables.{first_where, update_where}
use dogeuni_indexer.Holders.{find_holder}
use dogeuni_indexer.Consensus.{is_active, consensus_stake, consensus_unstake}

-- `Where("tx_hash = ?").Update("order_status", 0)`, and the same of `err_info` for a failed message.
abbrev pub closed : String → Db → Db
closed tx_hash db = record db {
  consensus_info =
      update_where (λ (i : ConsensusInfo). i.tx_hash == tx_hash)
        (λ (i : ConsensusInfo). record i { order_status = pos 0 }) db.consensus_info;
}

abbrev pub settle : ConsensusInfo → Db → Result Db → Db
settle m db (ok db') = db'
settle m db (err e) = record db {
  consensus_info =
      update_where (λ (i : ConsensusInfo). i.tx_hash == m.tx_hash)
        (λ (i : ConsensusInfo). record i { err_info = some e }) db.consensus_info;
}

-- The checks set a missing stake id, so that they return the message.
unfoldable pub verify_consensus_stake : ConsensusInfo → Db → Result ConsensusInfo
verify_consensus_stake c db = do
  fail_if (c.holder_address == "") bad_tick
  holder ← or_err (find_holder "CARDI" c.holder_address db.drc20_collect_address) no_row
  fail_if (ltb_ℤ holder.amt_sum c.amt) insufficient
  ok (if c.stake_id == "" then record c { stake_id = c.tx_hash } else c)

unfoldable pub verify_consensus_unstake : ConsensusInfo → Db → Result ConsensusInfo
verify_consensus_unstake c db = do
  fail_if (c.stake_id == "") bad_tick
  r ← or_err (first_where (is_active c.stake_id) db.consensus_stake_record) no_row
  fail_if (not (r.holder_address == c.holder_address)) not_holder
  ok c

unfoldable pub verify_consensus : ConsensusInfo → Db → Result ConsensusInfo
verify_consensus c db =
    if c.op == "stake"
    then verify_consensus_stake c db
    else if c.op == "unstake"
    then verify_consensus_unstake c db
    else err unsupported_op

-- The handler also records the amount that is taken out, that of the stake.
unfoldable pub handle_unstake : ConsensusInfo → Db → Result Db
handle_unstake c db = do
  fail_if (c.stake_id == "") bad_tick
  r ← or_err (first_where (is_active c.stake_id) db.consensus_stake_record) no_row
  (c', db') ← consensus_unstake c r.reserves_address db
  ok (record db' {
    consensus_info =
        update_where (λ (i : ConsensusInfo). i.tx_hash == c.tx_hash)
          (λ (i : ConsensusInfo). record i { order_status = pos 0; amt = r.amt })
          db'.consensus_info;
  })

module _ (script_address : String → String) where
  unfoldable pub handle_stake : ConsensusInfo → Db → Result Db
  handle_stake c db = do
    db' ← consensus_stake c (script_address (c.tx_hash ^^ "--CONSENSUS")) db
    ok (closed c.tx_hash db')

  unfoldable pub apply_consensus : ConsensusInfo → Db → Result Db
  apply_consensus c db =
      if c.op == "stake"
      then handle_stake c db
      else if c.op == "unstake"
      then handle_unstake c db
      else err unsupported_op

  unfoldable pub execute_consensus : ConsensusInfo → Db → Result Db
  execute_consensus c db = verify_consensus c db >>= λ c'. apply_consensus c' db

  unfoldable pub scan_consensus : ConsensusInfo → Db → Db
  scan_consensus c db = settle c db (execute_consensus c db)
