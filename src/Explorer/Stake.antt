-- ===== src/Explorer/Stake.antt =====
-- explorer/stake.go's handlers and the staking checks of explorer/verifys.go, with `executeStakeV1`
-- and the "stake-v1" branch of `scan` (explorer/scanner.go).
pub mod Solid
use Prim.Native.String.{◌++◌ as ◌^^◌}
use dogeuni_indexer.Prelude.{String, Bool, true, false, some, List, ◌==◌, if◌then◌else◌}
use dogeuni_indexer.Prelude.Int.{pos, ltb_ℤ, leb_ℤ}
use dogeuni_indexer.Prelude.Result.{
  Result, ok, err, ◌>>=◌, ◌>>◌, fail_if, or_err, bad_amount, no_row, insufficient, unsupported_op,
}
use dogeuni_indexer.Models.{StakeInfo, StakeCollectAddress, Db}
use dogeuni_indexer.Tables.{update_where}
use dogeuni_indexer.Holders.{find_holder}
use dogeuni_indexer.Stake.{find_staker, stake_stake, stake_unstake}
use dogeuni_indexer.Stake.Reward.{stake_get_reward}

unfoldable pub verify_stake_stake : StakeInfo → Db → Result (Unit {0})
verify_stake_stake si db = do
  fail_if (leb_ℤ si.amt (pos 0)) bad_amount
  card ← or_err (find_holder si.tick si.holder_address db.drc20_collect_address) no_row
  fail_if (ltb_ℤ card.amt_sum si.amt) insufficient

unfoldable pub verify_stake_unstake : StakeInfo → Db → Result (Unit {0})
verify_stake_unstake si db = do
  fail_if (leb_ℤ si.amt (pos 0)) bad_amount
  sca ← or_err (find_staker si.tick si.holder_address db.stake_collect_address) no_row
  fail_if (ltb_ℤ sca.amt si.amt) insufficient

unfoldable pub verify_stake_get_all_reward : StakeInfo → Db → Result (Unit {0})
verify_stake_get_all_reward si db =
    or_err (find_staker si.tick si.holder_address db.stake_collect_address) no_row >>= λ _. ok tt

unfoldable pub verify_stake : StakeInfo → Db → Result (Unit {0})
verify_stake stake db =
    if stake.op == "stake"
    then verify_stake_stake stake db
    else if stake.op == "unstake"
    then verify_stake_unstake stake db
    else if stake.op == "getallreward"
    then verify_stake_get_all_reward stake db
    else err unsupported_op

abbrev closed : StakeInfo → Db → Db
closed stake db = record db {
  stake_info =
      update_where (λ (i : StakeInfo). i.tx_hash == stake.tx_hash)
        (λ (i : StakeInfo). record i { order_status = pos 0 }) db.stake_info;
}

-- The address that holds what is staked of a token.
abbrev pub stakes_of : (String → String) → StakeInfo → String
stakes_of script_address stake = script_address (stake.tick ^^ "--STAKE")

unfoldable pub handle_stake : (String → String) → StakeInfo → Db → Result Db
handle_stake script_address stake db = do
  db' ← stake_stake stake (stakes_of script_address stake) db
  ok (closed stake db')

unfoldable pub handle_unstake : (String → String) → StakeInfo → Db → Result Db
handle_unstake script_address stake db = do
  db' ← stake_unstake stake (stakes_of script_address stake) db
  ok (closed stake db')

unfoldable pub handle_get_all_reward : Bool → StakeInfo → Db → Result Db
handle_get_all_reward written_back stake db = do
  db' ← stake_get_reward written_back stake db
  ok (closed stake db')

module _ (script_address : String → String) (written_back : Bool) where
  unfoldable pub execute_stake_v1 : StakeInfo → Db → Result Db
  execute_stake_v1 stake db = do
    verify_stake stake db
    if stake.op == "stake"
        then handle_stake script_address stake db
        else if stake.op == "unstake"
        then handle_unstake script_address stake db
        else if stake.op == "getallreward"
        then handle_get_all_reward written_back stake db
        else ok db

abbrev pub settle : StakeInfo → Db → Result Db → Db
settle stake db (ok db') = db'
settle stake db (err e) = record db {
  stake_info =
      update_where (λ (i : StakeInfo). i.tx_hash == stake.tx_hash)
        (λ (i : StakeInfo). record i { err_info = some e }) db.stake_info;
}

unfoldable pub scan_stake_v1 : (String → String) → Bool → StakeInfo → Db → Db
scan_stake_v1 script_address written_back stake db =
    settle stake db (execute_stake_v1 script_address written_back stake db)
