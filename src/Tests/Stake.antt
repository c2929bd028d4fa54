-- ===== src/Tests/Stake.antt =====
-- Staking on the test pool, undone and taken back.
use dogeuni_indexer.Prelude.{none, ◌≡◌, refl, false, arith, ◌∷◌}
use dogeuni_indexer.Prelude.Int.{pos, ◌+ℤ◌, ◌-ℤ◌, ◌≤ℤ◌}
use dogeuni_indexer.Prelude.Result.{ok}
use dogeuni_indexer.Models.{StakeInfo, StakeRevert, Db}
use dogeuni_indexer.Holders.{same_key, row_is, find_holder, set_amt_sum, create_missing}
use dogeuni_indexer.Tokens.{find_token, set_token}
use dogeuni_indexer.Drc20.{mint_drc20, transfer_drc20}
use dogeuni_indexer.Drc20.Balances.{held_by}
use dogeuni_indexer.Stake.{
  find_pool, set_pool, is_staker, find_staker, set_staker, add_staker, stake_stake_v1,
  stake_unstake_v1, stake_stake, stake_unstake, undo,
}
use dogeuni_indexer.Stake.Rows.{pooled, staked}
use dogeuni_indexer.Stake.Amounts.{
  pooled_in, staked_by, stake_stake_moves, stake_unstake_moves, stake_undone,
}
use dogeuni_indexer.Tests.Data.{funded, db_of}
use dogeuni_indexer.Tests.Drc20.{differ}

abbrev pub stake : StakeInfo
stake = record {
  op = "stake";
  tick = "dogi";
  amt = pos 700;
  holder_address = "alice";
  tx_hash = "tx7";
  block_number = pos 15;
  err_info = none;
  order_status = pos 1;
}

abbrev after : Db
after = db_of (stake_stake stake "stakes" funded)

after_ok : stake_stake stake "stakes" funded ≡ ok after
unfolding stake_stake stake_stake_v1 find_pool set_pool find_staker is_staker add_staker mint_drc20
    transfer_drc20 find_token find_holder row_is same_key set_amt_sum create_missing set_token ◌+ℤ◌
    ◌-ℤ◌
after_ok = refl

stake_stake_moves_example :
    (pos 1 ≤ℤ pos 700)
    × (pos 700 ≤ℤ held_by "dogi" "alice" funded)
    × (held_by "dogi" "alice" after ≡ held_by "dogi" "alice" funded -ℤ pos 700)
    × (held_by "dogi" "stakes" after ≡ held_by "dogi" "stakes" funded +ℤ pos 700)
    × (pooled_in "dogi" after ≡ pooled_in "dogi" funded +ℤ pos 700)
    × (staked_by "dogi" "alice" after ≡ staked_by "dogi" "alice" funded +ℤ pos 700)
stake_stake_moves_example = stake_stake_moves stake "stakes" funded after after_ok

abbrev taken : StakeInfo
taken = record stake { op = "unstake"; amt = pos 200; tx_hash = "tx8" }

abbrev released : Db
released = db_of (stake_unstake taken "stakes" after)

released_ok : stake_unstake taken "stakes" after ≡ ok released
unfolding stake_stake stake_stake_v1 stake_unstake stake_unstake_v1 find_pool set_pool find_staker
    set_staker is_staker add_staker mint_drc20 transfer_drc20 find_token find_holder row_is same_key
    set_amt_sum create_missing set_token ◌+ℤ◌ ◌-ℤ◌
released_ok = refl

stake_unstake_moves_example :
    (pos 1 ≤ℤ pos 200)
    × (pos 200 ≤ℤ staked_by "dogi" "alice" after)
    × (pos 200 ≤ℤ pooled_in "dogi" after)
    × (held_by "dogi" "alice" released ≡ held_by "dogi" "alice" after +ℤ pos 200)
    × (held_by "dogi" "stakes" released ≡ held_by "dogi" "stakes" after -ℤ pos 200)
    × (pooled_in "dogi" released ≡ pooled_in "dogi" after -ℤ pos 200)
    × (staked_by "dogi" "alice" released ≡ staked_by "dogi" "alice" after -ℤ pos 200)
stake_unstake_moves_example = stake_unstake_moves taken "stakes" after released released_ok

abbrev recorded : Db
recorded = db_of (stake_stake_v1 "dogi" "alice" (pos 700) "tx7" (pos 15) false funded)

recorded_ok : stake_stake_v1 "dogi" "alice" (pos 700) "tx7" (pos 15) false funded ≡ ok recorded
unfolding stake_stake_v1 find_pool set_pool find_staker is_staker add_staker mint_drc20 find_token
    find_holder row_is same_key set_amt_sum create_missing set_token ◌+ℤ◌
recorded_ok = refl

pooled_before : pos 0 ≤ℤ pooled_in "dogi" funded
unfolding pooled find_pool mint_drc20 find_token set_token
pooled_before = omega arith

staked_before : pos 0 ≤ℤ staked_by "dogi" "alice" funded
unfolding staked find_staker mint_drc20 find_token set_token
staked_before = omega arith

stake_undone_example :
    (r : StakeRevert) × (a : Db) × (recorded.stake_revert ≡ r ∷ funded.stake_revert)
    × (undo r recorded ≡ ok a)
    × (pooled_in "dogi" a ≡ pooled_in "dogi" funded)
    × (staked_by "dogi" "alice" a ≡ staked_by "dogi" "alice" funded)
stake_undone_example =
    stake_undone "dogi" "alice" (pos 700) "tx7" (pos 15) funded recorded (differ "alice" "" refl)
      pooled_before staked_before recorded_ok
