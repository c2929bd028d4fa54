-- ===== src/Explorer/StakeV2.antt =====
-- explorer/stake_v2.go `stakeV2Fork`. The scanner has no branch for stake-v2.
use dogeuni_indexer.Prelude.{Bool, List, [], ◌∷◌, ◌==◌, ◌&&◌, ◌||◌, if◌then◌else◌}
use dogeuni_indexer.Prelude.Int.{ℤ, ltb_ℤ}
use dogeuni_indexer.Models.{Drc20Collect, StakeV2Collect, StakeV2CollectAddress, StakeV2Revert, Db}
use dogeuni_indexer.Tables.{update_where, delete_where}

abbrev is_pool : StakeV2Revert → StakeV2Collect → Bool
is_pool r c = c.stake_id == r.stake_id

abbrev is_stake : StakeV2Revert → StakeV2CollectAddress → Bool
is_stake r a = a.stake_id == r.stake_id && a.holder_address == r.holder_address

-- The body of the loop: a row has the values before the operation that logged it.
unfoldable pub undo_stake_v2 : StakeV2Revert → Db → Db
undo_stake_v2 r db =
    if r.op == "create"
    then record db {
      stake_v2_collect = delete_where (is_pool r) db.stake_v2_collect;
      drc20_collect = delete_where (λ (c : Drc20Collect). c.tick == r.tick) db.drc20_collect;
    }
    else if r.op == "stake-pool"
    then record db {
      stake_v2_collect =
          update_where (is_pool r)
            (λ (c : StakeV2Collect). record c {
              total_staked = r.amt;
              acc_reward_per_share = r.acc_reward_per_share;
              last_block = r.last_block;
            })
            db.stake_v2_collect;
    }
    else if r.op == "stake-create"
    then record db {
      stake_v2_collect_address = delete_where (is_stake r) db.stake_v2_collect_address;
    }
    else if r.op == "stake" || r.op == "unstake"
    then record db {
      stake_v2_collect_address =
          update_where (is_stake r)
            (λ (a : StakeV2CollectAddress). record a {
              amt = r.amt;
              reward_debt = r.reward_debt;
              pending_reward = r.pending_reward;
            })
            db.stake_v2_collect_address;
    }
    else if r.op == "getreward"
    then record db {
      stake_v2_collect_address =
          update_where (is_stake r)
            (λ (a : StakeV2CollectAddress). record a {
              reward_debt = r.reward_debt;
              pending_reward = r.pending_reward;
            })
            db.stake_v2_collect_address;
    }
    else db

unfoldable pub stake_v2_undo : ℤ → List StakeV2Revert → Db → Db
stake_v2_undo height [] db = db
stake_v2_undo height (r ∷ log) db =
    stake_v2_undo height log (if ltb_ℤ height r.block_number then undo_stake_v2 r db else db)

unfoldable pub stake_v2_fork : ℤ → Db → Db
stake_v2_fork height db = stake_v2_undo height db.stake_v2_revert db
