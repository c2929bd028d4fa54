-- ===== src/Tests/Fork.antt =====
-- A fork on the test database: the two issues above height 11 are undone, the first one stays.
use dogeuni_indexer.Prelude.{◌≡◌, refl}
use dogeuni_indexer.Prelude.Int.{pos, ◌+ℤ◌, ◌-ℤ◌}
use dogeuni_indexer.Prelude.Result.{ok}
use dogeuni_indexer.Models.{Db}
use dogeuni_indexer.Tables.{find_where, first_where, update_where, delete_where}
use dogeuni_indexer.Holders.{same_key, row_is, find_holder, set_amt_sum, create_missing}
use dogeuni_indexer.Tokens.{find_token, set_token}
use dogeuni_indexer.Drc20.{
  mint_drc20, burn_drc20, transfer_drc20, undo, undo_all, reverts_above, drc20_fork, log_revert,
}
use dogeuni_indexer.Pools.{
  refresh_amt0, refresh_amt1, refresh_total, refresh, refresh_all, update_liquidity_fork,
}
use dogeuni_indexer.Exchange.{exchange_fork}
use dogeuni_indexer.Exchange as X
use dogeuni_indexer.Stake.{stake_fork, rewards_above, undo_rewards}
use dogeuni_indexer.Stake as S
use dogeuni_indexer.Meme20.{meme20_fork, memes_above, undo_memes}
use dogeuni_indexer.SwapV2.{update_v2_liquidity_fork, refresh_all_v2}
use dogeuni_indexer.File.{
  reset_token_order, is_file, is_held_file, give_file, transfer_file, undo_file, is_file_order,
  file_fork, files_above, undo_files, file_exchange_create, undo_file_order, file_exchange_fork,
  file_orders_above, undo_file_orders,
}
use dogeuni_indexer.File.Fork.{NoneDone}
use dogeuni_indexer.Cross.{cross_fork, undo_crosses}
use dogeuni_indexer.Consensus.{consensus_fork, consensuses_above, undo_consensuses}
use dogeuni_indexer.Explorer.Pump.{pump_fork, undo_pumps, undo_invite_rewards}
use dogeuni_indexer.Explorer.Box.{box_fork, refresh_boxes, undo_boxes}
use dogeuni_indexer.Explorer.StakeV2.{stake_v2_fork, stake_v2_undo}
use dogeuni_indexer.Explorer.SwapV2.Execute.{swap_v2_fork, drop_pairs}
use dogeuni_indexer.Explorer.Invite.{invite_fork, undo_invites}
use dogeuni_indexer.Explorer.Fork.{drop_pools, swap_fork, del_info, del_revert, fork}
use dogeuni_indexer.Explorer.Fork.Refused.{fork-NoneDone}
use dogeuni_indexer.Tests.File.{listed}
use dogeuni_indexer.Explorer.Fork.Twice.{fork_twice}
use dogeuni_indexer.Tests.Data.{funded, columns, db_of}

abbrev pub forked : Db
forked = db_of (fork columns (pos 11) funded)

pub forked_ok : fork columns (pos 11) funded ≡ ok forked
unfolding mint_drc20 burn_drc20 transfer_drc20 undo undo_all find_where reverts_above drc20_fork
    find_token find_holder row_is same_key set_amt_sum create_missing set_token ◌+ℤ◌ ◌-ℤ◌
    delete_where del_info del_revert fork drop_pools swap_fork exchange_fork X.reverts_above
    X.undo_all stake_fork rewards_above undo_rewards S.reverts_above S.undo_all refresh_amt0
    refresh_amt1 refresh_total refresh refresh_all update_liquidity_fork log_revert meme20_fork
    memes_above undo_memes pump_fork undo_pumps undo_invite_rewards swap_v2_fork drop_pairs
    update_v2_liquidity_fork refresh_all_v2 file_fork files_above undo_files box_fork refresh_boxes
    undo_boxes update_where file_exchange_fork file_orders_above undo_file_orders stake_v2_fork
    stake_v2_undo cross_fork undo_crosses invite_fork undo_invites consensus_fork consensuses_above
    undo_consensuses
forked_ok = refl

fork_twice_example :
    (drc20_fork (pos 11) forked ≡ ok forked)
    × (meme20_fork (pos 11) forked ≡ ok forked)
    × (file_fork (pos 11) forked ≡ forked)
    × (exchange_fork (pos 11) forked ≡ ok forked)
    × (stake_fork columns (pos 11) forked ≡ ok forked)
    × (file_exchange_fork columns (pos 11) forked ≡ ok forked)
    × (consensus_fork (pos 11) forked ≡ ok forked)
fork_twice_example = fork_twice columns (pos 11) funded forked forked_ok

-- A file order of an abandoned block, which nobody has traded.
abbrev unlisted : Db
unlisted = db_of (fork columns (pos 29) listed)

unlisted_ok : fork columns (pos 29) listed ≡ ok unlisted
unfolding file_exchange_create transfer_file give_file first_where is_file is_held_file
    is_file_order undo_file undo_file_order reset_token_order mint_drc20 undo_all find_where
    reverts_above drc20_fork find_token find_holder row_is same_key set_amt_sum create_missing
    set_token ◌+ℤ◌ ◌-ℤ◌ delete_where del_info del_revert fork drop_pools swap_fork exchange_fork
    X.reverts_above X.undo_all stake_fork rewards_above undo_rewards S.reverts_above S.undo_all
    refresh_amt0 refresh_amt1 refresh_total refresh refresh_all update_liquidity_fork log_revert
    meme20_fork memes_above undo_memes pump_fork undo_pumps undo_invite_rewards swap_v2_fork
    drop_pairs update_v2_liquidity_fork refresh_all_v2 file_fork files_above undo_files box_fork
    refresh_boxes undo_boxes update_where file_exchange_fork file_orders_above undo_file_orders
    stake_v2_fork stake_v2_undo cross_fork undo_crosses invite_fork undo_invites consensus_fork
    consensuses_above undo_consensuses
unlisted_ok = refl

fork-NoneDone_example : NoneDone (file_orders_above (pos 29) listed.file_exchange_revert)
fork-NoneDone_example = fork-NoneDone columns (pos 29) listed unlisted refl unlisted_ok
