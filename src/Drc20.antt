-- ===== src/Drc20.antt =====
-- storage/common.go: TransferDrc20, MintDrc20 and BurnDrc20, and the fork handler of
-- explorer/drc20.go that undoes them. A call gives the new database or an error; the partial
-- writes of a failed call are dropped, as every caller rolls its transaction back.
pub mod Effects
pub mod Balances
pub mod Conservation
pub mod Covers
pub mod Undo
pub mod Rollback
pub mod Issue
pub mod Frames
pub mod View
pub mod Calls
pub mod Refines
use dogeuni_indexer.Prelude.{
  ℕ, String, Bool, true, false, not, Option, none, some, List, [], ◌∷◌, ◌==◌, if◌then◌else◌, ◌&&◌,
}
use dogeuni_indexer.Prelude.Int.{ℤ, pos, ◌+ℤ◌, ◌-ℤ◌, ltb_ℤ, leb_ℤ}
use dogeuni_indexer.Prelude.Result.{
  Result, ok, err, ◌>>=◌, ◌>>◌, fail_if, or_err, bad_amount, same_address, no_row, insufficient,
  exceeds_supply,
}
use dogeuni_indexer.Models.{Drc20Collect, Drc20Revert, Db}
use dogeuni_indexer.Tables.{find_where}
use dogeuni_indexer.Holders.{find_holder, set_amt_sum, or_empty, create_missing}
use dogeuni_indexer.Tokens.{find_token, set_token, next_transactions}

-- `if !fork { tx.Create(revert) }`
unfoldable pub log_revert : Bool → Drc20Revert → List Drc20Revert → List Drc20Revert
log_revert true r log = log
log_revert false r log = r ∷ log

unfoldable pub transfer_drc20 : String → String → String → ℤ → String → ℤ → Bool → Db → Result Db
transfer_drc20 tick src dst amt tx_hash height fork db = do
  fail_if (leb_ℤ amt (pos 0)) bad_amount
  fail_if (src == dst) same_address
  add_from ← or_err (find_holder tick src db.drc20_collect_address) no_row
  fail_if (ltb_ℤ add_from.amt_sum amt) insufficient
  let add_to = or_empty tick dst (find_holder tick dst db.drc20_collect_address)
  let created = create_missing tick dst db.drc20_collect_address
  ok (record db {
    drc20_collect_address =
        set_amt_sum tick dst (add_to.amt_sum +ℤ amt)
          (set_amt_sum tick src (add_from.amt_sum -ℤ amt) created);
    drc20_revert =
        log_revert fork
          (record {
            from_address = src;
            to_address = dst;
            tick = tick;
            amt = amt;
            tx_hash = tx_hash;
            block_number = height;
          })
          db.drc20_revert;
  })

unfoldable pub mint_drc20 : String → String → ℤ → String → ℤ → Bool → Db → Result Db
mint_drc20 tick holder amt tx_hash height fork db = do
  drc20c ← or_err (find_token tick db.drc20_collect) no_row
  let drc20ca = or_empty tick holder (find_holder tick holder db.drc20_collect_address)
  let created = create_missing tick holder db.drc20_collect_address
  ok (record db {
    drc20_collect =
        set_token tick (drc20c.amt_sum +ℤ amt) (next_transactions fork drc20c.transactions)
          db.drc20_collect;
    drc20_collect_address = set_amt_sum tick holder (drc20ca.amt_sum +ℤ amt) created;
    drc20_revert =
        log_revert fork
          (record {
            from_address = "";
            to_address = holder;
            tick = tick;
            amt = amt;
            tx_hash = tx_hash;
            block_number = height;
          })
          db.drc20_revert;
  })

unfoldable pub burn_drc20 : String → String → ℤ → String → ℤ → Bool → Db → Result Db
burn_drc20 tick holder amt tx_hash height fork db = do
  drc20c ← or_err (find_token tick db.drc20_collect) no_row
  drc20ca ← or_err (find_holder tick holder db.drc20_collect_address) no_row
  fail_if (ltb_ℤ drc20c.amt_sum amt) exceeds_supply
  fail_if (ltb_ℤ drc20ca.amt_sum amt) insufficient
  ok (record db {
    drc20_collect =
        set_token tick (drc20c.amt_sum -ℤ amt) (next_transactions fork drc20c.transactions)
          db.drc20_collect;
    drc20_collect_address =
        set_amt_sum tick holder (drc20ca.amt_sum -ℤ amt) db.drc20_collect_address;
    drc20_revert =
        log_revert fork
          (record {
            from_address = holder;
            to_address = "";
            tick = tick;
            amt = amt;
            tx_hash = tx_hash;
            block_number = height;
          })
          db.drc20_revert;
  })

-- The body of the loop in `drc20Fork`: an issue is burned, a burn is minted, a transfer goes back.
unfoldable pub undo : Drc20Revert → Db → Result Db
undo r db =
    if not (r.to_address == "") && r.from_address == ""
    then burn_drc20 r.tick r.to_address r.amt "" (pos 0) true db
    else if not (r.from_address == "") && r.to_address == ""
    then mint_drc20 r.tick r.from_address r.amt "" (pos 0) true db
    else transfer_drc20 r.tick r.to_address r.from_address r.amt "" (pos 0) true db

-- `Where("block_number > ?", height)`
unfoldable pub reverts_above : ℤ → List Drc20Revert → List Drc20Revert
reverts_above height = find_where (λ (r : Drc20Revert). ltb_ℤ height r.block_number)

unfoldable pub undo_all : List Drc20Revert → Db → Result Db
undo_all [] db = ok db
undo_all (r ∷ log) db = undo r db >>= λ db'. undo_all log db'

unfoldable pub drc20_fork : ℤ → Db → Result Db
drc20_fork height db = undo_all (reverts_above height db.drc20_revert) db
