-- ===== src/Explorer/Fork.antt =====
-- explorer/fork.go `fork`, `delInfo` and `delRevert`, with `swapFork` of explorer/swap.go. The logs of
-- box and stake-v2 stay, and so do the messages of consensus and stake-v2.
pub mod Twice
pub mod Refused
use dogeuni_indexer.Prelude.{
  String, Bool, true, false, ◌≡◌, refl, List, [], ◌∷◌, ◌==◌, if◌then◌else◌, arith,
}
use dogeuni_indexer.Prelude.Int.{ℤ, pos, ◌≤ℤ◌, ltb_ℤ}
use dogeuni_indexer.Prelude.Result.{Result, ok, err, ◌>>=◌, >>=-eq-ok, ok-eq-ok}
use dogeuni_indexer.Models.{
  Schema, Drc20Info, SwapInfo, WDogeInfo, NftInfo, BoxInfo, ExchangeInfo, StakeInfo,
  StakeRewardInfo, BoxCollectAddress, FileInfo, FileExchangeInfo, CrossInfo, Meme20Info, SwapV2Info,
  PumpInfo, InviteInfo, Drc20Revert, SwapRevert, FileRevert, ExchangeRevert, StakeRevert,
  StakeRewardRevert, FileExchangeRevert, CrossRevert, Meme20Revert, SwapV2Revert, PumpRevert,
  InviteRevert, ConsensusRevert, PumpInviteRewardRevert, Drc20Collect, Drc20CollectAddress,
  SwapLiquidity, Db,
}
use dogeuni_indexer.Tables.{delete_where}
use dogeuni_indexer.Drc20.{drc20_fork}
use dogeuni_indexer.Meme20.{meme20_fork}
use dogeuni_indexer.Pools.{update_liquidity_fork}
use dogeuni_indexer.Exchange.{exchange_fork}
use dogeuni_indexer.Stake.{stake_fork}
use dogeuni_indexer.File.{file_fork, file_exchange_fork}
use dogeuni_indexer.Cross.{cross_fork}
use dogeuni_indexer.Consensus.{consensus_fork}
use dogeuni_indexer.Explorer.Pump.{pump_fork}
use dogeuni_indexer.Explorer.Box.{box_fork}
use dogeuni_indexer.Explorer.StakeV2.{stake_v2_fork}
use dogeuni_indexer.Explorer.SwapV2.Execute.{swap_v2_fork}
use dogeuni_indexer.Explorer.Invite.{invite_fork}

-- A pool that was created above the height goes, with its shares.
unfoldable pub drop_pool : String → Db → Db
drop_pool tick db = record db {
  swap_liquidity = delete_where (λ (p : SwapLiquidity). p.tick == tick) db.swap_liquidity;
  drc20_collect = delete_where (λ (c : Drc20Collect). c.tick == tick) db.drc20_collect;
  drc20_collect_address =
      delete_where (λ (r : Drc20CollectAddress). r.tick == tick) db.drc20_collect_address;
}

-- The loop of `swapFork`, over the rows above the height.
unfoldable pub drop_pools : ℤ → List SwapRevert → Db → Db
drop_pools height [] db = db
drop_pools height (r ∷ log) db =
    if ltb_ℤ height r.block_number
    then (if r.op == "create"
        then drop_pools height log (drop_pool r.tick db)
        else drop_pools height log db)
    else drop_pools height log db

unfoldable pub swap_fork : ℤ → Db → Db
swap_fork height db = update_liquidity_fork (drop_pools height db.swap_revert db)

-- `Where("block_number > ?", height).Delete`
unfoldable pub del_info : ℤ → Db → Db
del_info height db = record db {
  drc20_info = delete_where (λ (i : Drc20Info). ltb_ℤ height i.block_number) db.drc20_info;
  swap_info = delete_where (λ (i : SwapInfo). ltb_ℤ height i.block_number) db.swap_info;
  wdoge_info = delete_where (λ (i : WDogeInfo). ltb_ℤ height i.block_number) db.wdoge_info;
  nft_info = delete_where (λ (i : NftInfo). ltb_ℤ height i.block_number) db.nft_info;
  box_info = delete_where (λ (i : BoxInfo). ltb_ℤ height i.block_number) db.box_info;
  exchange_info = delete_where (λ (i : ExchangeInfo). ltb_ℤ height i.block_number) db.exchange_info;
  stake_info = delete_where (λ (i : StakeInfo). ltb_ℤ height i.block_number) db.stake_info;
  stake_reward_info =
      delete_where (λ (i : StakeRewardInfo). ltb_ℤ height i.block_number) db.stake_reward_info;
  box_collect_address =
      delete_where (λ (i : BoxCollectAddress). ltb_ℤ height i.block_number) db.box_collect_address;
  file_info = delete_where (λ (i : FileInfo). ltb_ℤ height i.block_number) db.file_info;
  file_exchange_info =
      delete_where (λ (i : FileExchangeInfo). ltb_ℤ height i.block_number) db.file_exchange_info;
  cross_info = delete_where (λ (i : CrossInfo). ltb_ℤ height i.block_number) db.cross_info;
  meme20_info = delete_where (λ (i : Meme20Info). ltb_ℤ height i.block_number) db.meme20_info;
  swap_v2_info = delete_where (λ (i : SwapV2Info). ltb_ℤ height i.block_number) db.swap_v2_info;
  pump_info = delete_where (λ (i : PumpInfo). ltb_ℤ height i.block_number) db.pump_info;
  invite_info = delete_where (λ (i : InviteInfo). ltb_ℤ height i.block_number) db.invite_info;
}

unfoldable pub del_revert : ℤ → Db → Db
del_revert height db = record db {
  drc20_revert = delete_where (λ (r : Drc20Revert). ltb_ℤ height r.block_number) db.drc20_revert;
  swap_revert = delete_where (λ (r : SwapRevert). ltb_ℤ height r.block_number) db.swap_revert;
  file_revert = delete_where (λ (r : FileRevert). ltb_ℤ height r.block_number) db.file_revert;
  exchange_revert =
      delete_where (λ (r : ExchangeRevert). ltb_ℤ height r.block_number) db.exchange_revert;
  stake_revert = delete_where (λ (r : StakeRevert). ltb_ℤ height r.block_number) db.stake_revert;
  stake_reward_revert =
      delete_where (λ (r : StakeRewardRevert). ltb_ℤ height r.block_number) db.stake_reward_revert;
  file_exchange_revert =
      delete_where (λ (r : FileExchangeRevert). ltb_ℤ height r.block_number)
        db.file_exchange_revert;
  cross_revert = delete_where (λ (r : CrossRevert). ltb_ℤ height r.block_number) db.cross_revert;
  meme20_revert = delete_where (λ (r : Meme20Revert). ltb_ℤ height r.block_number) db.meme20_revert;
  swap_v2_revert =
      delete_where (λ (r : SwapV2Revert). ltb_ℤ height r.block_number) db.swap_v2_revert;
  pump_revert = delete_where (λ (r : PumpRevert). ltb_ℤ height r.block_number) db.pump_revert;
  invite_revert = delete_where (λ (r : InviteRevert). ltb_ℤ height r.block_number) db.invite_revert;
  consensus_revert =
      delete_where (λ (r : ConsensusRevert). ltb_ℤ height r.block_number) db.consensus_revert;
  pump_invite_reward_revert =
      delete_where (λ (r : PumpInviteRewardRevert). ltb_ℤ height r.block_number)
        db.pump_invite_reward_revert;
}

unfoldable pub fork : Schema → ℤ → Db → Result Db
fork schema height db = do
  db1 ← drc20_fork height (del_info height db)
  db2 ← meme20_fork height db1
  let db3 = swap_v2_fork height (swap_fork height (pump_fork height db2))
  db4 ← exchange_fork height (file_fork height db3)
  db5 ← stake_fork schema height db4
  db6 ← file_exchange_fork schema height (box_fork height db5)
  db7 ← consensus_fork height (invite_fork height (cross_fork height (stake_v2_fork height db6)))
  ok (del_revert height db7)
