-- ===== src/Consensus.antt =====
-- storage/consensus.go: stakes, their score in whole numbers, and consensusFork of
-- explorer/consensus.go. The decay of a score, which is computed in floats, is left out.
pub mod Score
use dogeuni_indexer.Prelude.{
  String, Bool, false, ◌&&◌, none, some, List, [], ◌∷◌, ◌++◌, ◌==◌, if◌then◌else◌, not,
}
use dogeuni_indexer.Prelude.Int.{ℤ, pos, ◌-ℤ◌, ltb_ℤ}
use dogeuni_indexer.Prelude.Result.{
  Result, ok, ◌>>=◌, ◌>>◌, fail_if, or_err, no_row, bad_tick, not_holder,
}
use dogeuni_indexer.Models.{ConsensusInfo, ConsensusStakeRecord, ConsensusRevert, Db}
use dogeuni_indexer.Tables.{find_where, first_where, update_first, delete_where}
use dogeuni_indexer.Drc20.{transfer_drc20}
use Score.{calculate_consensus_score}

unfoldable pub is_stake : String → ConsensusStakeRecord → Bool
is_stake stake_id r = r.stake_id == stake_id

unfoldable pub is_active : String → ConsensusStakeRecord → Bool
is_active stake_id r = r.stake_id == stake_id && r.status == "active"

unfoldable pub consensus_stake : ConsensusInfo → String → Db → Result Db
consensus_stake c reserves_address db = do
  db' ←
      transfer_drc20 "CARDI" c.holder_address reserves_address c.amt c.tx_hash c.block_number false
        (record db {
          consensus_stake_record =
              db.consensus_stake_record
              ++ record {
                stake_id = c.stake_id;
                holder_address = c.holder_address;
                reserves_address = reserves_address;
                amt = c.amt;
                stake_block = c.block_number;
                unstake_block = none;
                status = "active";
                score = none;
              }
                ∷ [];
        })
  ok (record db' {
    consensus_revert =
        record {
          from_address = c.holder_address;
          to_address = reserves_address;
          op = "stake";
          amt = c.amt;
          tx_hash = c.stake_id;
          block_number = c.block_number;
        }
        ∷ db'.consensus_revert;
  })

abbrev pub closed_record : ℤ → ConsensusStakeRecord → ConsensusStakeRecord
closed_record height r = record r {
  unstake_block = some height;
  status = "closed";
  score = some (calculate_consensus_score r.amt r.stake_block height);
}

-- The second result is the message with `consensus.Amt = record.Amt`.
unfoldable pub consensus_unstake : ConsensusInfo → String → Db → Result (ConsensusInfo × Db)
consensus_unstake c reserves_address db = do
  fail_if (c.stake_id == "") bad_tick
  r ← or_err (first_where (is_active c.stake_id) db.consensus_stake_record) no_row
  fail_if (not (r.holder_address == c.holder_address)) not_holder
  db' ←
      transfer_drc20 "CARDI" reserves_address c.holder_address r.amt c.tx_hash c.block_number false
        (record db {
          consensus_stake_record =
              update_first (is_active c.stake_id) (closed_record c.block_number)
                db.consensus_stake_record;
        })
  ok (
    record c { amt = r.amt },
    record db' {
      consensus_revert =
          record {
            from_address = reserves_address;
            to_address = c.holder_address;
            op = "unstake";
            amt = r.amt;
            tx_hash = c.stake_id;
            block_number = c.block_number;
          }
          ∷ db'.consensus_revert;
    },
  )

-- The transfer back is commented out in the two functions: the rows of the token log undo it.
unfoldable pub consensus_revert_stake : String → Db → Db
consensus_revert_stake stake_id db = record db {
  consensus_stake_record = delete_where (is_stake stake_id) db.consensus_stake_record;
}

unfoldable pub consensus_revert_unstake : String → Db → Result Db
consensus_revert_unstake stake_id db = do
  r ← or_err (first_where (is_stake stake_id) db.consensus_stake_record) no_row
  ok (record db {
    consensus_stake_record =
        update_first (is_stake stake_id)
          (λ (q : ConsensusStakeRecord). record q {
            status = "active";
            unstake_block = none;
            score = some (pos 0);
          })
          db.consensus_stake_record;
  })

-- The body of the loop in `consensusFork`.
unfoldable pub undo_consensus : ConsensusRevert → Db → Result Db
undo_consensus r db =
    if r.op == "stake"
    then ok (consensus_revert_stake r.tx_hash db)
    else if r.op == "unstake"
    then consensus_revert_unstake r.tx_hash db
    else ok db

unfoldable pub undo_consensuses : List ConsensusRevert → Db → Result Db
undo_consensuses [] db = ok db
undo_consensuses (r ∷ log) db = undo_consensus r db >>= λ db'. undo_consensuses log db'

unfoldable pub consensuses_above : ℤ → List ConsensusRevert → List ConsensusRevert
consensuses_above height = find_where (λ (r : ConsensusRevert). ltb_ℤ height r.block_number)

unfoldable pub consensus_fork : ℤ → Db → Result Db
consensus_fork height db = undo_consensuses (consensuses_above height db.consensus_revert) db
