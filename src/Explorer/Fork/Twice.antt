-- ===== src/Explorer/Fork/Twice.antt =====
-- explorer/fork.go: what `delRevert` leaves for the fork handlers.
use dogeuni_indexer.Prelude.{true, not, arith, sym, ◌≡◌, refl}
use dogeuni_indexer.Prelude.Int.{ℤ}
use dogeuni_indexer.Prelude.Result.{ok, fail_if, no_column, >>=-eq-ok, ok-eq-ok}
use dogeuni_indexer.Models.{Schema, Db}
use dogeuni_indexer.Tables.Rows.{find_where-delete_where}
use dogeuni_indexer.Drc20.{drc20_fork}
use dogeuni_indexer.Drc20 as D
use dogeuni_indexer.Exchange.{exchange_fork}
use dogeuni_indexer.Exchange as X
use dogeuni_indexer.Stake.{stake_fork, rewards_above, undo_rewards}
use dogeuni_indexer.Stake as S
use dogeuni_indexer.Meme20.{memes_above, undo_memes, meme20_fork}
use dogeuni_indexer.File.{
  files_above, undo_files, file_fork, file_orders_above, undo_file_orders, file_exchange_fork,
}
use dogeuni_indexer.Consensus.{consensuses_above, undo_consensuses, consensus_fork}
use dogeuni_indexer.Explorer.Fork.{fork, del_info, del_revert}

drc20_fork-del_revert :
    (height : ℤ) (db : Db) → drc20_fork height (del_revert height db) ≡ ok (del_revert height db)
unfolding drc20_fork del_revert D.reverts_above D.undo_all
drc20_fork-del_revert height db = rw (find_where-delete_where _ db.drc20_revert) refl

exchange_fork-del_revert :
    (height : ℤ) (db : Db) → exchange_fork height (del_revert height db) ≡ ok (del_revert height db)
unfolding exchange_fork del_revert X.reverts_above X.undo_all
exchange_fork-del_revert height db = rw (find_where-delete_where _ db.exchange_revert) refl

-- With the column `id` in both tables of the stakes.
stake_fork-del_revert :
    (schema : Schema) (height : ℤ) (db : Db)
    → schema.stake_revert_id ≡ true
    → schema.stake_reward_revert_id ≡ true
    → stake_fork schema height (del_revert height db) ≡ ok (del_revert height db)
unfolding stake_fork del_revert S.reverts_above rewards_above S.undo_all undo_rewards
stake_fork-del_revert schema height db ids reward_ids =
    rw (ids, find_where-delete_where _ db.stake_revert)
      (rw (reward_ids, find_where-delete_where _ db.stake_reward_revert) refl)

stake_fork_ids :
    (schema : Schema) (height : ℤ) (db db' : Db)
    → stake_fork schema height db ≡ ok db'
    → (schema.stake_revert_id ≡ true) × (schema.stake_reward_revert_id ≡ true)
unfolding stake_fork
stake_fork_ids schema height db db' e =
    let (_, first, e1) = >>=-eq-ok (fail_if (not schema.stake_revert_id) no_column) _ e in
    let (d, _, e2) = >>=-eq-ok (S.undo_all (S.reverts_above height db.stake_revert) db) _ e1 in
    let (_, second, _) = >>=-eq-ok (fail_if (not schema.stake_reward_revert_id) no_column) _ e2 in
    (ground (arith, first), ground (arith, second))

meme20_fork-del_revert :
    (height : ℤ) (db : Db) → meme20_fork height (del_revert height db) ≡ ok (del_revert height db)
unfolding meme20_fork del_revert memes_above undo_memes
meme20_fork-del_revert height db = rw (find_where-delete_where _ db.meme20_revert) refl

file_fork-del_revert :
    (height : ℤ) (db : Db) → file_fork height (del_revert height db) ≡ del_revert height db
unfolding file_fork del_revert files_above undo_files
file_fork-del_revert height db = rw (find_where-delete_where _ db.file_revert) refl

file_exchange_fork-del_revert :
    (schema : Schema) (height : ℤ) (db : Db)
    → file_exchange_fork schema height (del_revert height db) ≡ ok (del_revert height db)
unfolding file_exchange_fork del_revert file_orders_above undo_file_orders
file_exchange_fork-del_revert schema height db =
    rw (find_where-delete_where _ db.file_exchange_revert) refl

consensus_fork-del_revert :
    (height : ℤ) (db : Db)
    → consensus_fork height (del_revert height db) ≡ ok (del_revert height db)
unfolding consensus_fork del_revert consensuses_above undo_consensuses
consensus_fork-del_revert height db = rw (find_where-delete_where _ db.consensus_revert) refl

-- The steps of a fork that succeeds, to the last deletion.
fork-del_revert :
    (schema : Schema) (height : ℤ) (db db' : Db)
    → fork schema height db ≡ ok db'
    → (schema.stake_revert_id ≡ true)
      × (schema.stake_reward_revert_id ≡ true)
      × (last : Db) × (del_revert height last ≡ db')
unfolding fork
fork-del_revert schema height db db' went =
    let (db1, _, went1) = >>=-eq-ok (drc20_fork height (del_info height db)) _ went in
    let (db2, _, went2) = >>=-eq-ok (meme20_fork height db1) _ went1 in
    let (db4, _, went4) = >>=-eq-ok (exchange_fork height _) _ went2 in
    let (db5, stakes, went5) = >>=-eq-ok (stake_fork schema height db4) _ went4 in
    let (db6, _, went6) = >>=-eq-ok (file_exchange_fork schema height _) _ went5 in
    let (db7, _, went7) = >>=-eq-ok (consensus_fork height _) _ went6 in
    let (ids, reward_ids) = stake_fork_ids schema height db4 db5 stakes in
    (ids, reward_ids, db7, ok-eq-ok went7)

-- On the database that a fork leaves when it succeeds, the fork handlers of the DRC-20 and meme20
-- tokens, the files, the token orders and the file orders, the stakes and the consensus stakes, called
-- with the same height, succeed and change nothing.
pub fork_twice :
    (schema : Schema) (height : ℤ) (db db' : Db)
    → fork schema height db ≡ ok db'
    → (drc20_fork height db' ≡ ok db')
      × (meme20_fork height db' ≡ ok db')
      × (file_fork height db' ≡ db')
      × (exchange_fork height db' ≡ ok db')
      × (stake_fork schema height db' ≡ ok db')
      × (file_exchange_fork schema height db' ≡ ok db')
      × (consensus_fork height db' ≡ ok db')
fork_twice schema height db db' went =
    let (ids, reward_ids, last, e) = fork-del_revert schema height db db' went in
    rw (sym e) (
      drc20_fork-del_revert height last,
      meme20_fork-del_revert height last,
      file_fork-del_revert height last,
      exchange_fork-del_revert height last,
      stake_fork-del_revert schema height last ids reward_ids,
      file_exchange_fork-del_revert schema height last,
      consensus_fork-del_revert height last,
    )
