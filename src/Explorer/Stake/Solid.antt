-- ===== src/Explorer/Stake/Solid.antt =====
-- The staking messages keep every token's supply the sum of its balances.
use Prim.Native.String.{◌++◌ as ◌^^◌}
use dogeuni_indexer.Prelude.{
  String, Bool, ◌≡◌, refl, sym, false, inl, inr, ◌⊎◌, List, [], ◌∷◌, arith,
}
use dogeuni_indexer.Prelude.Result.{Result, ok, err, >>=-eq-ok, ok-eq-ok, or_err, no_row}
use dogeuni_indexer.Models.{StakeInfo, Db}
use dogeuni_indexer.Pools.Solid.{IsSolid, same-IsSolid}
use dogeuni_indexer.Pools.Tokens.{transfer_drc20-IsSolid}
use dogeuni_indexer.Drc20.{transfer_drc20}
use dogeuni_indexer.Stake.{find_staker, stake_stake, stake_unstake}
use dogeuni_indexer.Stake.Amounts.{stake_stake_v1-eq-ok, stake_unstake_v1-eq-ok}
use dogeuni_indexer.Stake.Reward.{
  HolderReward, stake_pool_address, stake_get_reward_v1, pay_rewards, stake_reward_v1,
  stake_get_reward,
}
use dogeuni_indexer.Explorer.Stake.{
  verify_stake, handle_stake, handle_unstake, handle_get_all_reward, execute_stake_v1, settle,
  scan_stake_v1,
}

stake_stake-IsSolid :
    (s : StakeInfo) (r : String) (db db' : Db)
    → IsSolid db
    → stake_stake s r db ≡ ok db'
    → IsSolid db'
unfolding stake_stake
stake_stake-IsSolid s r db db' v e =
    let (d, f, g) =
      >>=-eq-ok (transfer_drc20 s.tick s.holder_address r s.amt s.tx_hash s.block_number false db) _
        e in
    let w =
      transfer_drc20-IsSolid s.tick s.amt s.tx_hash s.block_number false db d v s.holder_address r
        f in
    rw
      ((stake_stake_v1-eq-ok s.tick s.holder_address s.amt s.tx_hash s.block_number false d db'
        g).1)
      (same-IsSolid refl refl refl w)

stake_unstake-IsSolid :
    (s : StakeInfo) (r : String) (db db' : Db)
    → IsSolid db
    → stake_unstake s r db ≡ ok db'
    → IsSolid db'
unfolding stake_unstake
stake_unstake-IsSolid s r db db' v e =
    let (d, f, g) =
      >>=-eq-ok (transfer_drc20 s.tick r s.holder_address s.amt s.tx_hash s.block_number false db) _
        e in
    let w =
      transfer_drc20-IsSolid s.tick s.amt s.tx_hash s.block_number false db d v r s.holder_address
        f in
    rw
      ((stake_unstake_v1-eq-ok s.tick s.holder_address s.amt s.tx_hash s.block_number false d db'
        g).1)
      (same-IsSolid refl refl refl w)

pay_rewards-IsSolid :
    (s : StakeInfo) (rs : List HolderReward) (db db' : Db)
    → IsSolid db
    → pay_rewards s rs db ≡ ok db'
    → IsSolid db'
unfolding pay_rewards
pay_rewards-IsSolid s [] db db' v e = rw (sym (ok-eq-ok e)) v
pay_rewards-IsSolid s (r ∷ rs) db db' v e =
    let (d, f, g) =
      >>=-eq-ok
        (transfer_drc20 r.tick stake_pool_address s.holder_address r.reward s.tx_hash s.block_number
          false db)
        _ e in
    let w =
      transfer_drc20-IsSolid r.tick r.reward s.tx_hash s.block_number false db d v
        stake_pool_address s.holder_address f in
    pay_rewards-IsSolid s rs _ db' (same-IsSolid refl refl refl w) g

module _ (script_address : String → String) (written_back : Bool) where
  stake_get_reward-IsSolid :
      (s : StakeInfo) (db db' : Db)
      → IsSolid db
      → stake_get_reward written_back s db ≡ ok db'
      → IsSolid db'
  unfolding stake_get_reward stake_reward_v1
  stake_get_reward-IsSolid s db db' v e =
      let (rs, _, g) = >>=-eq-ok (stake_get_reward_v1 s.holder_address s.tick db) _ e in
      let (d, f, h) = >>=-eq-ok (pay_rewards s rs db) _ g in
      let (_, _, k) =
        >>=-eq-ok (or_err (find_staker s.tick s.holder_address d.stake_collect_address) no_row) _
          h in
      rw (sym (ok-eq-ok k)) (same-IsSolid refl refl refl (pay_rewards-IsSolid s rs db d v f))

  module _ (s : StakeInfo) (db db' : Db) (v : IsSolid db) where
    handle_stake-IsSolid : handle_stake script_address s db ≡ ok db' → IsSolid db'
    unfolding handle_stake
    handle_stake-IsSolid e =
        let (d, f, g) = >>=-eq-ok (stake_stake s (script_address (s.tick ^^ "--STAKE")) db) _ e in
        rw (sym (ok-eq-ok g)) (same-IsSolid refl refl refl (stake_stake-IsSolid s _ db d v f))

    handle_unstake-IsSolid : handle_unstake script_address s db ≡ ok db' → IsSolid db'
    unfolding handle_unstake
    handle_unstake-IsSolid e =
        let (d, f, g) = >>=-eq-ok (stake_unstake s (script_address (s.tick ^^ "--STAKE")) db) _ e in
        rw (sym (ok-eq-ok g)) (same-IsSolid refl refl refl (stake_unstake-IsSolid s _ db d v f))

    handle_get_all_reward-IsSolid : handle_get_all_reward written_back s db ≡ ok db' → IsSolid db'
    unfolding handle_get_all_reward
    handle_get_all_reward-IsSolid e =
        let (d, f, g) = >>=-eq-ok (stake_get_reward written_back s db) _ e in
        rw (sym (ok-eq-ok g)) (same-IsSolid refl refl refl (stake_get_reward-IsSolid s db d v f))

    execute_stake_cases :
        execute_stake_v1 script_address written_back s db ≡ ok db'
        → (handle_stake script_address s db ≡ ok db')
          ⊎ (handle_unstake script_address s db ≡ ok db')
          ⊎ (handle_get_all_reward written_back s db ≡ ok db')
    unfolding execute_stake_v1 verify_stake
    execute_stake_cases e = ground arith

    execute_stake_v1-IsSolid :
        execute_stake_v1 script_address written_back s db ≡ ok db' → IsSolid db'
    execute_stake_v1-IsSolid e = elim (execute_stake_cases e) [
      | inl f ↦ handle_stake-IsSolid f
      | inr (inl f) ↦ handle_unstake-IsSolid f
      | inr (inr f) ↦ handle_get_all_reward-IsSolid f
    ]

settle-IsSolid :
    (s : StakeInfo) (db : Db) (r : Result Db)
    → IsSolid db
    → ((db' : Db) → r ≡ ok db' → IsSolid db')
    → IsSolid (settle s db r)
settle-IsSolid s db (ok db') v h = h db' refl
settle-IsSolid s db (err e) v h = same-IsSolid refl refl refl v

pub scan_stake_v1-IsSolid :
    (script_address : String → String) (written_back : Bool) (s : StakeInfo) (db : Db)
    → IsSolid db
    → IsSolid (scan_stake_v1 script_address written_back s db)
unfolding scan_stake_v1
scan_stake_v1-IsSolid script_address written_back s db v =
    settle-IsSolid s db (execute_stake_v1 script_address written_back s db) v
      (λ db' e. execute_stake_v1-IsSolid script_address written_back s db db' v e)
