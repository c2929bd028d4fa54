-- ===== src/Explorer/Fork/Refused.antt =====
-- explorer/fork.go: the fork handlers before fileExchangeFork leave its log as it is, so that a fork
-- over a trade or a cancellation of a file order cannot succeed without the column that it writes.
use dogeuni_indexer.Prelude.{false, not, ◌≡◌, refl, sym, ap, ◌∙◌, List, [], ◌∷◌, arith}
use dogeuni_indexer.Prelude.Int.{ℤ, ◌-ℤ◌}
use dogeuni_indexer.Prelude.Result.{
  fail_if, no_column, Result, ok, or_err, no_row, ◌>>=◌, >>=-eq-ok, ok-eq-ok,
}
use dogeuni_indexer.Models.{
  Schema, Drc20Revert, Meme20Revert, PumpRevert, SwapRevert, SwapV2Revert, FileRevert,
  ExchangeRevert, StakeRevert, StakeRewardRevert, StakeCollectAddress, BoxRevert,
  FileExchangeRevert, Db,
}
use dogeuni_indexer.Drc20.{transfer_drc20, mint_drc20, burn_drc20, drc20_fork}
use dogeuni_indexer.Drc20 as D
use dogeuni_indexer.Meme20.{
  transfer_meme20, mint_meme20, burn_meme20, undo_meme, undo_memes, meme20_fork,
}
use dogeuni_indexer.Pools.{update_liquidity_fork}
use dogeuni_indexer.SwapV2.{update_v2_liquidity_fork}
use dogeuni_indexer.Exchange.{exchange_fork}
use dogeuni_indexer.Exchange as X
use dogeuni_indexer.Tables.{update_where}
use dogeuni_indexer.Stake.{
  rewards_above, find_staker, is_staker, stake_stake_v1, stake_unstake_v1, undo_rewards, stake_fork,
}
use dogeuni_indexer.Stake as S
use dogeuni_indexer.File.{
  transfer_file, undo_file, undo_files, file_fork, file_orders_above, file_exchange_fork,
}
use dogeuni_indexer.File.Fork.{NoneDone, undo_file_orders-NoneDone}
use dogeuni_indexer.Explorer.Pump.{undo_pump, undo_pumps, pump_fork}
use dogeuni_indexer.Explorer.Box.{undo_box, undo_boxes, box_fork}
use dogeuni_indexer.Explorer.SwapV2.Execute.{drop_pairs, swap_v2_fork}
use dogeuni_indexer.Explorer.Fork.{drop_pool, drop_pools, swap_fork, fork, del_info}

abbrev log_of : Db → List FileExchangeRevert
log_of db = db.file_exchange_revert

-- A call that leaves the log, when it succeeds.
abbrev Leaves : Db → Result Db → Type 0
Leaves db r = (db' : Db) → r ≡ ok db' → log_of db' ≡ log_of db

ok-Leaves : (db : Db) → Leaves db (ok db)
ok-Leaves db db' e = ap log_of (sym (ok-eq-ok e))

-- A loop of such calls.
loop-Leaves :
    (r : Result Db) (rest : Db → Result Db) (db : Db)
    → Leaves db r
    → ((d : Db) → Leaves d (rest d))
    → Leaves db (r >>= rest)
loop-Leaves r rest db first next db' e =
    let (d, f, g) = >>=-eq-ok r rest e in next d db' g ∙ first d f

drc20_undo-Leaves : (r : Drc20Revert) (db : Db) → Leaves db (D.undo r db)
unfolding D.undo transfer_drc20 mint_drc20 burn_drc20
drc20_undo-Leaves r db db' e = ground arith

drc20_loop-Leaves : (log : List Drc20Revert) (db : Db) → Leaves db (D.undo_all log db)
unfolding D.undo_all
drc20_loop-Leaves [] db = ok-Leaves db
drc20_loop-Leaves (r ∷ log) db =
    loop-Leaves (D.undo r db) (D.undo_all log) db (drc20_undo-Leaves r db) (drc20_loop-Leaves log)

undo_meme-Leaves : (r : Meme20Revert) (db : Db) → Leaves db (undo_meme r db)
unfolding undo_meme transfer_meme20 mint_meme20 burn_meme20
undo_meme-Leaves r db db' e = ground arith

undo_memes-Leaves : (log : List Meme20Revert) (db : Db) → Leaves db (undo_memes log db)
unfolding undo_memes
undo_memes-Leaves [] db = ok-Leaves db
undo_memes-Leaves (r ∷ log) db =
    loop-Leaves (undo_meme r db) (undo_memes log) db (undo_meme-Leaves r db) (undo_memes-Leaves log)

exchange_undo-Leaves : (r : ExchangeRevert) (db : Db) → Leaves db (X.undo r db)
unfolding X.undo
exchange_undo-Leaves r db db' e = ground arith

exchange_loop-Leaves : (log : List ExchangeRevert) (db : Db) → Leaves db (X.undo_all log db)
unfolding X.undo_all
exchange_loop-Leaves [] db = ok-Leaves db
exchange_loop-Leaves (r ∷ log) db =
    loop-Leaves (X.undo r db) (X.undo_all log) db (exchange_undo-Leaves r db)
      (exchange_loop-Leaves log)

stake_undo-Leaves : (r : StakeRevert) (db : Db) → Leaves db (S.undo r db)
unfolding S.undo stake_stake_v1 stake_unstake_v1
stake_undo-Leaves r db db' e = ground arith

stake_loop-Leaves : (log : List StakeRevert) (db : Db) → Leaves db (S.undo_all log db)
unfolding S.undo_all
stake_loop-Leaves [] db = ok-Leaves db
stake_loop-Leaves (r ∷ log) db =
    loop-Leaves (S.undo r db) (S.undo_all log) db (stake_undo-Leaves r db) (stake_loop-Leaves log)

undo_rewards-Leaves : (log : List StakeRewardRevert) (db : Db) → Leaves db (undo_rewards log db)
unfolding undo_rewards
undo_rewards-Leaves [] db = ok-Leaves db
undo_rewards-Leaves (r ∷ log) db = λ db' e.
    let (found, _, g) =
      >>=-eq-ok (or_err (find_staker r.tick r.to_address db.stake_collect_address) no_row) _ e in
    undo_rewards-Leaves log
      (record db {
        stake_collect_address =
            update_where (is_staker r.tick r.to_address)
              (λ (s : StakeCollectAddress). record s { received_reward = found.reward -ℤ r.amt })
              db.stake_collect_address;
      })
      db' g

-- The loops that cannot fail.
undo_pumps_log :
    (height : ℤ) (log : List PumpRevert) (db : Db) → log_of (undo_pumps height log db) ≡ log_of db
unfolding undo_pumps undo_pump
undo_pumps_log height [] db = refl
undo_pumps_log height (r ∷ log) db = undo_pumps_log height log _ ∙ ground arith

drop_pools_log :
    (height : ℤ) (log : List SwapRevert) (db : Db) → log_of (drop_pools height log db) ≡ log_of db
unfolding drop_pools drop_pool
drop_pools_log height [] db = refl
drop_pools_log height (r ∷ log) db =
    ground (arith, drop_pools_log height log db, drop_pools_log height log (drop_pool r.tick db))

drop_pairs_log :
    (height : ℤ) (log : List SwapV2Revert) (db : Db) → log_of (drop_pairs height log db) ≡ log_of db
unfolding drop_pairs
drop_pairs_log height [] db = refl
drop_pairs_log height (r ∷ log) db = drop_pairs_log height log _ ∙ ground arith

undo_files_log :
    (height : ℤ) (log : List FileRevert) (db : Db) → log_of (undo_files height log db) ≡ log_of db
unfolding undo_files undo_file transfer_file
undo_files_log height [] db = refl
undo_files_log height (r ∷ log) db = undo_files_log height log _ ∙ ground arith

undo_boxes_log :
    (height : ℤ) (log : List BoxRevert) (db : Db) → log_of (undo_boxes height log db) ≡ log_of db
unfolding undo_boxes undo_box
undo_boxes_log height [] db = refl
undo_boxes_log height (r ∷ log) db = undo_boxes_log height log _ ∙ ground arith

-- The two loops of a fork of the stakes that succeeds.
stake_fork_loops :
    (schema : Schema) (height : ℤ) (db db' : Db)
    → stake_fork schema height db ≡ ok db'
    → (d : Db) × (S.undo_all (S.reverts_above height db.stake_revert) db ≡ ok d)
      × (undo_rewards (rewards_above height d.stake_reward_revert) d ≡ ok db')
unfolding stake_fork
stake_fork_loops schema height db db' e =
    let (_, _, e1) = >>=-eq-ok (fail_if (not schema.stake_revert_id) no_column) _ e in
    let (d, f, e2) = >>=-eq-ok (S.undo_all (S.reverts_above height db.stake_revert) db) _ e1 in
    let (_, _, g) = >>=-eq-ok (fail_if (not schema.stake_reward_revert_id) no_column) _ e2 in
    (d, f, g)

-- Where the table of the token orders has no column `amt_finish`, a fork over a trade or a
-- cancellation of a file order fails: when a fork to a height succeeds, the log of the file orders
-- has neither of the two above the height.
pub fork-NoneDone :
    (schema : Schema) (height : ℤ) (db db' : Db)
    → schema.exchange_collect_amt_finish ≡ false
    → fork schema height db ≡ ok db'
    → NoneDone (file_orders_above height db.file_exchange_revert)
unfolding fork del_info drc20_fork meme20_fork pump_fork swap_fork swap_v2_fork file_fork
    exchange_fork file_exchange_fork box_fork update_liquidity_fork update_v2_liquidity_fork
fork-NoneDone schema height db db' lacking went =
    let start = del_info height db in
    let (db1, e1, went1) = >>=-eq-ok (drc20_fork height start) _ went in
    let (db2, e2, went2) = >>=-eq-ok (meme20_fork height db1) _ went1 in
    let db3 = swap_v2_fork height (swap_fork height (pump_fork height db2)) in
    let (db4, e4, went4) = >>=-eq-ok (exchange_fork height (file_fork height db3)) _ went2 in
    let (db5, e5, went5) = >>=-eq-ok (stake_fork schema height db4) _ went4 in
    let (db6, e6, went6) =
      >>=-eq-ok (file_exchange_fork schema height (box_fork height db5)) _ went5 in
    let (stakes, f5, g5) = stake_fork_loops schema height db4 db5 e5 in
    let logs : log_of (box_fork height db5) ≡ db.file_exchange_revert =
      undo_boxes_log height _ _
      ∙ undo_rewards-Leaves _ stakes db5 g5
      ∙ stake_loop-Leaves _ db4 stakes f5
      ∙ exchange_loop-Leaves _ (file_fork height db3) db4 e4
      ∙ undo_files_log height _ db3
      ∙ drop_pairs_log height _ _
      ∙ drop_pools_log height _ _
      ∙ undo_pumps_log height _ db2
      ∙ undo_memes-Leaves _ db1 db2 e2
      ∙ drc20_loop-Leaves _ start db1 e1 in
    rw logs at (undo_file_orders-NoneDone schema _ (box_fork height db5) db6 lacking e6)
