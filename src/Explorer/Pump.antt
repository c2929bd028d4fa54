-- ===== src/Explorer/Pump.antt =====
-- explorer/pump.go `pumpFork`.
use dogeuni_indexer.Prelude.{List, [], ◌∷◌, ◌==◌, ◌&&◌, if◌then◌else◌}
use dogeuni_indexer.Prelude.Int.{ℤ, ltb_ℤ}
use dogeuni_indexer.Models.{
  Meme20CollectAddress, PumpLiquidity, PumpRevert, PumpInviteReward, PumpInviteRewardRevert, Db,
}
use dogeuni_indexer.Tables.{update_where, delete_where}
use dogeuni_indexer.Meme20.{is_meme}

-- The body of the first loop: a deployment goes, with its token; a trade's row has the amounts before
-- the trade.
unfoldable pub undo_pump : PumpRevert → Db → Db
undo_pump r db =
    if r.op == "deploy"
    then record db {
      pump_liquidity =
          delete_where (λ (p : PumpLiquidity). p.tick0_id == r.tick_id) db.pump_liquidity;
      meme20_collect = delete_where (is_meme r.tick_id) db.meme20_collect;
      meme20_collect_address =
          delete_where (λ (a : Meme20CollectAddress). a.tick_id == r.tick_id)
            db.meme20_collect_address;
    }
    else if r.op == "trade"
    then record db {
      pump_liquidity =
          update_where (λ (p : PumpLiquidity). p.tick0_id == r.tick_id)
            (λ (p : PumpLiquidity). record p { amt0 = r.amt0; amt1 = r.amt1 }) db.pump_liquidity;
    }
    else db

unfoldable pub undo_pumps : ℤ → List PumpRevert → Db → Db
undo_pumps height [] db = db
undo_pumps height (r ∷ log) db =
    undo_pumps height log (if ltb_ℤ height r.block_number then undo_pump r db else db)

-- The second loop: each row has the reward before it was raised.
unfoldable pub undo_invite_rewards :
    ℤ → List PumpInviteRewardRevert → List PumpInviteReward → List PumpInviteReward
undo_invite_rewards height [] rs = rs
undo_invite_rewards height (r ∷ log) rs = undo_invite_rewards height log (
    if ltb_ℤ height r.block_number
    then update_where
        (λ (a : PumpInviteReward).
          a.holder_address == r.holder_address && a.invite_address == r.invite_address)
        (λ (a : PumpInviteReward). record a { invite_reward = r.invite_reward }) rs
    else rs)

unfoldable pub pump_fork : ℤ → Db → Db
pump_fork height db =
    let db' = undo_pumps height db.pump_revert db in
    record db' {
      pump_invite_reward =
          undo_invite_rewards height db'.pump_invite_reward_revert db'.pump_invite_reward;
    }
