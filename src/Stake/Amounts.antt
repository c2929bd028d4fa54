-- ===== src/Stake/Amounts.antt =====
-- What staking and unstaking do to the tokens and to the recorded stakes, and that the fork handler
-- takes each back.
use dogeuni_indexer.Prelude.{
  String, Bool, true, false, ◌≡◌, ◌≢◌, none, ◌∷◌, eq_iff, arith, ap, ◌∙◌, refl,
}
use dogeuni_indexer.Prelude.Int.{ℤ, pos, ◌+ℤ◌, ◌-ℤ◌, ◌≤ℤ◌, int_laws, -ℤ_parts, +ℤ_cancel}
use dogeuni_indexer.Prelude.Result.{ok, >>=-eq-ok}
use dogeuni_indexer.Models.{StakeInfo, StakeRevert, Db}
use dogeuni_indexer.Drc20.{transfer_drc20}
use dogeuni_indexer.Drc20.Effects.{transfer_drc20-eq-ok}
use dogeuni_indexer.Drc20.Balances.{held_by, held_by-transfer_drc20, transfer_src, transfer_dst}
use dogeuni_indexer.Stake.{
  find_pool, set_pool, find_staker, set_staker, add_staker, stake_stake_v1, stake_unstake_v1,
  stake_stake, stake_unstake, undo, log_revert,
}
use dogeuni_indexer.Stake.Rows.{
  pooled, staked, staked-add_self, staked-set_self, pooled-set_self, add_staker-there,
  set_pool-there,
}

abbrev pub pooled_in : String → Db → ℤ
pooled_in tick db = pooled tick db.stake_collect

abbrev pub staked_by : String → String → Db → ℤ
staked_by tick holder db = staked tick holder db.stake_collect_address

module _ (tick holder : String) (amt : ℤ) (tx_hash : String) (height : ℤ) (fork : Bool)
    (db db' : Db) where
  abbrev stake_row : StakeRevert
  stake_row = record {
    tick = tick;
    from_address = "";
    to_address = holder;
    amt = amt;
    tx_hash = tx_hash;
    block_number = height;
  }

  -- What a stake leaves, where the pool exists.
  abbrev pub after_stake : Db
  after_stake = record db {
    stake_collect = set_pool tick (pooled_in tick db +ℤ amt) db.stake_collect;
    stake_collect_address = add_staker tick holder amt db.stake_collect_address;
    stake_revert = log_revert fork stake_row db.stake_revert;
  }

  pub stake_stake_v1-eq-ok :
      stake_stake_v1 tick holder amt tx_hash height fork db ≡ ok db'
      → (find_pool tick db.stake_collect ≢ none) × (db' ≡ after_stake)
  unfolding stake_stake_v1 pooled
  stake_stake_v1-eq-ok e = ground arith

  stake_stake_v1_success :
      find_pool tick db.stake_collect ≢ none
      → stake_stake_v1 tick holder amt tx_hash height fork db ≡ ok after_stake
  unfolding stake_stake_v1 pooled
  stake_stake_v1_success there = ground arith

  abbrev pub after_unstake : Db
  after_unstake = record db {
    stake_collect = set_pool tick (pooled_in tick db -ℤ amt) db.stake_collect;
    stake_collect_address =
        set_staker tick holder (staked_by tick holder db -ℤ amt) db.stake_collect_address;
    stake_revert =
        log_revert fork (record stake_row { from_address = holder; to_address = "" })
          db.stake_revert;
  }

  pub record CanUnstake : Type 0 where
    pool : find_pool tick db.stake_collect ≢ none
    staker : find_staker tick holder db.stake_collect_address ≢ none
    pool_covers : amt ≤ℤ pooled_in tick db
    stake_covers : amt ≤ℤ staked_by tick holder db

  pub stake_unstake_v1-eq-ok :
      stake_unstake_v1 tick holder amt tx_hash height fork db ≡ ok db'
      → CanUnstake × (db' ≡ after_unstake)
  unfolding stake_unstake_v1 pooled staked
  stake_unstake_v1-eq-ok e =
      ground (arith, -ℤ_parts (pooled_in tick db) amt, -ℤ_parts (staked_by tick holder db) amt)

  stake_unstake_v1_success :
      CanUnstake → stake_unstake_v1 tick holder amt tx_hash height fork db ≡ ok after_unstake
  unfolding stake_unstake_v1 pooled staked
  stake_unstake_v1_success can =
      ground (arith, -ℤ_parts (pooled_in tick db) amt, -ℤ_parts (staked_by tick holder db) amt)

module _ (stake : StakeInfo) (reserves : String) (db db' : Db) where
  abbrev t : String
  t = stake.tick

  abbrev h : String
  h = stake.holder_address

  -- The transfer that comes first leaves the stakes alone.
  transfer_stakes :
      (src dst : String) (d : Db)
      → transfer_drc20 t src dst stake.amt stake.tx_hash stake.block_number false db ≡ ok d
      → (d.stake_collect ≡ db.stake_collect) × (d.stake_collect_address ≡ db.stake_collect_address)
  transfer_stakes src dst d e =
      let (_, result) =
        transfer_drc20-eq-ok t src dst stake.amt stake.tx_hash stake.block_number false db d e in
      (ap (λ (x : Db). x.stake_collect) result, ap (λ (x : Db). x.stake_collect_address) result)

  -- Staking that succeeds moves the amount, which is positive and which the holder has, from the
  -- holder to the reserves, and adds it to what is recorded for the pool and for the holder.
  pub stake_stake_moves :
      stake_stake stake reserves db ≡ ok db'
      → (pos 1 ≤ℤ stake.amt)
        × (stake.amt ≤ℤ held_by t h db)
        × (held_by t h db' ≡ held_by t h db -ℤ stake.amt)
        × (held_by t reserves db' ≡ held_by t reserves db +ℤ stake.amt)
        × (pooled_in t db' ≡ pooled_in t db +ℤ stake.amt)
        × (staked_by t h db' ≡ staked_by t h db +ℤ stake.amt)
  unfolding stake_stake
  stake_stake_moves e =
      let (d, e1, e2) =
        >>=-eq-ok (transfer_drc20 t h reserves stake.amt stake.tx_hash stake.block_number false db)
          _ e in
      let (there, result) =
        stake_stake_v1-eq-ok t h stake.amt stake.tx_hash stake.block_number false d db' e2 in
      let (positive, _, covered, _) =
        held_by-transfer_drc20 t stake.amt stake.tx_hash stake.block_number false db d h reserves
          e1 in
      let (pools, stakers) = transfer_stakes h reserves d e1 in
      (
        positive,
        covered,
        ap (held_by t h) result
            ∙ transfer_src t stake.amt stake.tx_hash stake.block_number false db d h reserves e1,
        ap (held_by t reserves) result
            ∙ transfer_dst t stake.amt stake.tx_hash stake.block_number false db d h reserves e1,
        ap (pooled_in t) result
            ∙ pooled-set_self t (pooled_in t d +ℤ stake.amt) d.stake_collect there
            ∙ rw pools,
        ap (staked_by t h) result
            ∙ staked-add_self t h stake.amt d.stake_collect_address
            ∙ rw stakers,
      )

  -- Unstaking that succeeds moves the amount, which is positive and at most what is recorded for
  -- the holder and for the pool, from the reserves to the holder, and takes it from both records.
  pub stake_unstake_moves :
      stake_unstake stake reserves db ≡ ok db'
      → (pos 1 ≤ℤ stake.amt)
        × (stake.amt ≤ℤ staked_by t h db)
        × (stake.amt ≤ℤ pooled_in t db)
        × (held_by t h db' ≡ held_by t h db +ℤ stake.amt)
        × (held_by t reserves db' ≡ held_by t reserves db -ℤ stake.amt)
        × (pooled_in t db' ≡ pooled_in t db -ℤ stake.amt)
        × (staked_by t h db' ≡ staked_by t h db -ℤ stake.amt)
  unfolding stake_unstake
  stake_unstake_moves e =
      let (d, e1, e2) =
        >>=-eq-ok (transfer_drc20 t reserves h stake.amt stake.tx_hash stake.block_number false db)
          _ e in
      let (can, result) =
        stake_unstake_v1-eq-ok t h stake.amt stake.tx_hash stake.block_number false d db' e2 in
      let (positive, _, _, _) =
        held_by-transfer_drc20 t stake.amt stake.tx_hash stake.block_number false db d reserves h
          e1 in
      let (pools, stakers) = transfer_stakes reserves h d e1 in
      (
        positive,
        rw (← stakers) can.stake_covers,
        rw (← pools) can.pool_covers,
        ap (held_by t h) result
            ∙ transfer_dst t stake.amt stake.tx_hash stake.block_number false db d reserves h e1,
        ap (held_by t reserves) result
            ∙ transfer_src t stake.amt stake.tx_hash stake.block_number false db d reserves h e1,
        ap (pooled_in t) result
            ∙ pooled-set_self t (pooled_in t d -ℤ stake.amt) d.stake_collect can.pool
            ∙ rw pools,
        ap (staked_by t h) result
            ∙ staked-set_self t h (staked_by t h d -ℤ stake.amt) d.stake_collect_address can.staker
            ∙ rw stakers,
      )

undo_of_stake :
    (tick holder : String) (amt : ℤ) (tx_hash : String) (height : ℤ) (db : Db)
    → holder ≢ ""
    → undo (stake_row tick holder amt tx_hash height false db db) db
      ≡ stake_unstake_v1 tick holder amt "" (pos 0) true db
unfolding undo
undo_of_stake tick holder amt tx_hash height db ne = ground (arith, eq_iff holder "", eq_iff "" "")

-- A stake by an address that is not empty, of a pool and a holder whose recorded amounts are not
-- negative, logs one row, and the fork handler's step on that row succeeds and leaves the pool and
-- the holder the recorded amounts that they had.
pub stake_undone :
    (tick holder : String) (amt : ℤ) (tx_hash : String) (height : ℤ) (db db' : Db)
    → holder ≢ ""
    → pos 0 ≤ℤ pooled_in tick db
    → pos 0 ≤ℤ staked_by tick holder db
    → stake_stake_v1 tick holder amt tx_hash height false db ≡ ok db'
    → (r : StakeRevert) × (a : Db) × (db'.stake_revert ≡ r ∷ db.stake_revert)
      × (undo r db' ≡ ok a)
      × (pooled_in tick a ≡ pooled_in tick db)
      × (staked_by tick holder a ≡ staked_by tick holder db)
stake_undone tick holder amt tx_hash height db db' ne p q e =
    let (there, result) = stake_stake_v1-eq-ok tick holder amt tx_hash height false db db' e in
    let r = stake_row tick holder amt tx_hash height false db db' in
    let after = after_stake tick holder amt tx_hash height false db db' in
    let a = after_unstake tick holder amt "" (pos 0) true after db' in
    let pool = set_pool-there tick tick (pooled_in tick db +ℤ amt) db.stake_collect there in
    let staker = add_staker-there tick holder amt db.stake_collect_address in
    let in_pool : pooled_in tick after ≡ pooled_in tick db +ℤ amt =
      pooled-set_self tick (pooled_in tick db +ℤ amt) db.stake_collect there in
    let by_holder : staked_by tick holder after ≡ staked_by tick holder db +ℤ amt =
      staked-add_self tick holder amt db.stake_collect_address in
    let can : CanUnstake tick holder amt "" (pos 0) true after db' = record {
      pool = pool;
      staker = staker;
      pool_covers = omega (int_laws, in_pool, p);
      stake_covers = omega (int_laws, by_holder, q);
    } in
    rw result (
      (
        r,
        a,
        unfold log_revert in refl,
        undo_of_stake tick holder amt tx_hash height after ne
            ∙ stake_unstake_v1_success tick holder amt "" (pos 0) true after db' can,
        pooled-set_self tick (pooled_in tick after -ℤ amt) after.stake_collect pool
            ∙ rw in_pool (+ℤ_cancel (pooled_in tick db) amt),
        staked-set_self tick holder (staked_by tick holder after -ℤ amt) after.stake_collect_address
              staker
            ∙ rw by_holder (+ℤ_cancel (staked_by tick holder db) amt),
      ))
