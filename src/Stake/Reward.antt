-- ===== src/Stake/Reward.antt =====
-- storage/stake.go StakeGetReward, with StakeGetRewardV1 and StakeRewardV1 of storage/common.go: what
-- a holder is paid from the reward pool's balances.
use dogeuni_indexer.Prelude.{
  String, Bool, false, not, Option, List, [], ◌∷◌, ◌++◌, ◌==◌, if◌then◌else◌, ◌&&◌, ◌||◌,
}
use dogeuni_indexer.Prelude.Int.{ℤ, pos, ◌-ℤ◌, ◌*ℤ◌, eqb_ℤ}
use dogeuni_indexer.Prelude.Div.{div_ℤ}
use dogeuni_indexer.Prelude.Result.{Result, ok, ◌>>=◌, or_err, no_row}
use dogeuni_indexer.Models.{Drc20CollectAddress, StakeInfo, StakeCollectAddress, Db}
use dogeuni_indexer.Tables.{first_where, update_first}
use dogeuni_indexer.Drc20.{transfer_drc20}
use dogeuni_indexer.Stake.{is_staker, find_staker}

abbrev pub stake_pool_address : String
stake_pool_address = "DS8eFcobjXp6oL8YoXoVazDQ32bcDdWwui"

-- `HolderReward`, without the two columns that only a query shows.
pub record HolderReward : Type 0 where
  pub tick : String
  pub reward : ℤ

-- `Where("holder_address = ? and amt_sum != '0'")`
abbrev in_pool : Drc20CollectAddress → Bool
in_pool r = r.holder_address == stake_pool_address && not (eqb_ℤ r.amt_sum (pos 0))

-- The loop over the pool's balances; on a missing row of UNIX its amount is nil, and `Div` panics.
unfoldable pub shares :
    ℤ → Option Drc20CollectAddress → List Drc20CollectAddress → Result (List HolderReward)
shares reward unix_pool [] = ok []
shares reward unix_pool (ar ∷ rs) =
    let rest = shares reward unix_pool rs in
    if not (in_pool ar) || ar.tick == "UNIX" || ar.tick == "WDOGE(WRAPPED-DOGE)" then rest else (do
      unix ← or_err unix_pool no_row
      amt ← div_ℤ (ar.amt_sum *ℤ reward) unix.amt_sum
      rewards ← rest
      ok (record { tick = ar.tick; reward = amt } ∷ rewards))

unfoldable pub stake_get_reward_v1 : String → String → Db → Result (List HolderReward)
stake_get_reward_v1 holder tick db = do
  staker ← or_err (find_staker tick holder db.stake_collect_address) no_row
  let reward = staker.reward -ℤ staker.received_reward
  let unix_pool =
      first_where (λ (r : Drc20CollectAddress). r.tick == "UNIX" && in_pool r)
        db.drc20_collect_address
  if tick == "UNIX-SWAP-WDOGE(WRAPPED-DOGE)"
      then ok (record { tick = "WDOGE(WRAPPED-DOGE)"; reward = reward } ∷ [])
      else (do
        rewards ← shares reward unix_pool db.drc20_collect_address
        ok (rewards ++ record { tick = "UNIX"; reward = reward } ∷ []))

-- The loop of `StakeGetReward`: each reward is moved from the pool and recorded.
unfoldable pub pay_rewards : StakeInfo → List HolderReward → Db → Result Db
pay_rewards stake [] db = ok db
pay_rewards stake (r ∷ rs) db =
    transfer_drc20 r.tick stake_pool_address stake.holder_address r.reward stake.tx_hash
      stake.block_number false db
    >>= λ db'. pay_rewards stake rs (record db' {
      stake_reward_info =
          db'.stake_reward_info
          ++ record {
            tick = r.tick;
            amt = r.reward;
            from_address = stake_pool_address;
            to_address = stake.holder_address;
            block_number = stake.block_number;
          }
            ∷ [];
    })

-- `written_back`: whether gorm's `Update` also sets the field of the row that it was given, as it
-- does for a pointer to a struct; the amount that is logged is computed after it.
module _ (written_back : Bool) where
  unfoldable pub stake_reward_v1 : String → String → String → ℤ → Db → Result Db
  stake_reward_v1 tick holder tx_hash height db = do
    staker ← or_err (find_staker tick holder db.stake_collect_address) no_row
    let received = if written_back then staker.reward else staker.received_reward
    ok (record db {
      stake_collect_address =
          update_first (is_staker tick holder)
            (λ (s : StakeCollectAddress). record s { received_reward = staker.reward })
            db.stake_collect_address;
      stake_reward_revert =
          record {
            tick = tick;
            to_address = holder;
            amt = staker.reward -ℤ received;
            tx_hash = tx_hash;
            block_number = height;
          }
          ∷ db.stake_reward_revert;
    })

  unfoldable pub stake_get_reward : StakeInfo → Db → Result Db
  stake_get_reward stake db = do
    rewards ← stake_get_reward_v1 stake.holder_address stake.tick db
    db' ← pay_rewards stake rewards db
    stake_reward_v1 stake.tick stake.holder_address stake.tx_hash stake.block_number db'
