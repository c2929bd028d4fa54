-- ===== src/Stake.antt =====
-- storage/common.go StakeStakeV1 and StakeUnStakeV1, storage/stake.go, and `stakeFork`
-- of explorer/stake.go.
pub mod Rows
pub mod Reward
pub mod Amounts
use dogeuni_indexer.Prelude.{
  String, Bool, true, false, Option, none, some, List, [], ◌∷◌, ◌++◌, ◌==◌, if◌then◌else◌, ◌&&◌,
  not,
}
use dogeuni_indexer.Prelude.Int.{ℤ, pos, ◌+ℤ◌, ◌-ℤ◌, ltb_ℤ}
use dogeuni_indexer.Prelude.Result.{
  no_column, Result, ok, err, ◌>>=◌, ◌>>◌, fail_if, or_err, no_row, insufficient,
}
use dogeuni_indexer.Models.{
  Schema, StakeInfo, StakeCollect, StakeCollectAddress, StakeRevert, StakeRewardRevert, Db,
}
use dogeuni_indexer.Tables.{find_where, update_where}
use dogeuni_indexer.Drc20.{transfer_drc20}

-- `Where("tick = ?").First` of `stake_collect`, and `.Update("amt", v)` on the row that it found, by
-- its id.
unfoldable pub find_pool : String → List StakeCollect → Option StakeCollect
find_pool tick [] = none
find_pool tick (p ∷ ps) = if p.tick == tick then some p else find_pool tick ps

unfoldable pub set_pool : String → ℤ → List StakeCollect → List StakeCollect
set_pool tick v [] = []
set_pool tick v (p ∷ ps) =
    let rest = set_pool tick v ps in if p.tick == tick then record p { amt = v } ∷ ps else p ∷ rest

-- The same of `stake_collect_address`, by token and holder.
unfoldable pub is_staker : String → String → StakeCollectAddress → Bool
is_staker tick holder s = s.tick == tick && s.holder_address == holder

unfoldable pub find_staker : String → String → List StakeCollectAddress → Option StakeCollectAddress
find_staker tick holder [] = none
find_staker tick holder (s ∷ ss) =
    if is_staker tick holder s then some s else find_staker tick holder ss

unfoldable pub set_staker :
    String → String → ℤ → List StakeCollectAddress → List StakeCollectAddress
set_staker tick holder v [] = []
set_staker tick holder v (s ∷ ss) =
    let rest = set_staker tick holder v ss in
    if is_staker tick holder s then record s { amt = v } ∷ ss else s ∷ rest

-- The row is created with the amount where the lookup finds none, and updated where it finds one.
unfoldable pub add_staker :
    String → String → ℤ → List StakeCollectAddress → List StakeCollectAddress
add_staker tick holder amt ss = elim (find_staker tick holder ss) [
  | none ↦
      ss
      ++ record {
        tick = tick;
        holder_address = holder;
        amt = amt;
        reward = pos 0;
        received_reward = pos 0;
      }
        ∷ []
  | some s ↦ set_staker tick holder (s.amt +ℤ amt) ss
]

unfoldable pub log_revert : Bool → StakeRevert → List StakeRevert → List StakeRevert
log_revert true r log = log
log_revert false r log = r ∷ log

unfoldable pub stake_stake_v1 : String → String → ℤ → String → ℤ → Bool → Db → Result Db
stake_stake_v1 tick holder amt tx_hash height fork db = do
  stakec ← or_err (find_pool tick db.stake_collect) no_row
  ok (record db {
    stake_collect = set_pool tick (stakec.amt +ℤ amt) db.stake_collect;
    stake_collect_address = add_staker tick holder amt db.stake_collect_address;
    stake_revert =
        log_revert fork
          (record {
            tick = tick;
            from_address = "";
            to_address = holder;
            amt = amt;
            tx_hash = tx_hash;
            block_number = height;
          })
          db.stake_revert;
  })

unfoldable pub stake_unstake_v1 : String → String → ℤ → String → ℤ → Bool → Db → Result Db
stake_unstake_v1 tick holder amt tx_hash height fork db = do
  stakec ← or_err (find_pool tick db.stake_collect) no_row
  fail_if (ltb_ℤ (stakec.amt -ℤ amt) (pos 0)) insufficient
  stakeca ← or_err (find_staker tick holder db.stake_collect_address) no_row
  fail_if (ltb_ℤ (stakeca.amt -ℤ amt) (pos 0)) insufficient
  ok (record db {
    stake_collect = set_pool tick (stakec.amt -ℤ amt) db.stake_collect;
    stake_collect_address = set_staker tick holder (stakeca.amt -ℤ amt) db.stake_collect_address;
    stake_revert =
        log_revert fork
          (record {
            tick = tick;
            from_address = holder;
            to_address = "";
            amt = amt;
            tx_hash = tx_hash;
            block_number = height;
          })
          db.stake_revert;
  })

-- `StakeStake` and `StakeUnStake`: the tokens move to or from the reserves first.
unfoldable pub stake_stake : StakeInfo → String → Db → Result Db
stake_stake stake reserves_address db = do
  db1 ←
      transfer_drc20 stake.tick stake.holder_address reserves_address stake.amt stake.tx_hash
        stake.block_number false db
  stake_stake_v1 stake.tick stake.holder_address stake.amt stake.tx_hash stake.block_number false
      db1

unfoldable pub stake_unstake : StakeInfo → String → Db → Result Db
stake_unstake stake reserves_address db = do
  db1 ←
      transfer_drc20 stake.tick reserves_address stake.holder_address stake.amt stake.tx_hash
        stake.block_number false db
  stake_unstake_v1 stake.tick stake.holder_address stake.amt stake.tx_hash stake.block_number false
      db1

-- The first loop of `stakeFork`; a row with both addresses, or none, is passed over.
unfoldable pub undo : StakeRevert → Db → Result Db
undo r db =
    if r.from_address == "" && not (r.to_address == "")
    then stake_unstake_v1 r.tick r.to_address r.amt "" (pos 0) true db
    else if not (r.from_address == "") && r.to_address == ""
    then stake_stake_v1 r.tick r.from_address r.amt "" (pos 0) true db
    else ok db

unfoldable pub reverts_above : ℤ → List StakeRevert → List StakeRevert
reverts_above height = find_where (λ (r : StakeRevert). ltb_ℤ height r.block_number)

unfoldable pub undo_all : List StakeRevert → Db → Result Db
undo_all [] db = ok db
undo_all (r ∷ log) db = undo r db >>= λ db'. undo_all log db'

-- The second loop: what a claim recorded as received is taken back, counted from the whole reward.
unfoldable pub undo_rewards : List StakeRewardRevert → Db → Result Db
undo_rewards [] db = ok db
undo_rewards (r ∷ log) db =
    or_err (find_staker r.tick r.to_address db.stake_collect_address) no_row >>= λ found.
    undo_rewards log (record db {
      stake_collect_address =
          update_where (is_staker r.tick r.to_address)
            (λ (s : StakeCollectAddress). record s { received_reward = found.reward -ℤ r.amt })
            db.stake_collect_address;
    })

unfoldable pub rewards_above : ℤ → List StakeRewardRevert → List StakeRewardRevert
rewards_above height = find_where (λ (r : StakeRewardRevert). ltb_ℤ height r.block_number)

-- The rows are read in the order of the column `id`.
unfoldable pub stake_fork : Schema → ℤ → Db → Result Db
stake_fork schema height db = do
  fail_if (not schema.stake_revert_id) no_column
  db' ← undo_all (reverts_above height db.stake_revert) db
  fail_if (not schema.stake_reward_revert_id) no_column
  undo_rewards (rewards_above height db'.stake_reward_revert) db'
