-- ===== src/Meme20.antt =====
-- storage/common.go: TransferMeme20, MintMeme20 and BurnMeme20, and meme20Fork of
-- explorer/meme20.go. A token goes by its id, and its supply is the column `max`.
pub mod Rows
pub mod View
pub mod Transfer
pub mod Issue
pub mod Refines
pub mod Rollback
use dogeuni_indexer.Prelude.{
  ℕ, String, Bool, true, false, not, ◌&&◌, Option, none, some, List, [], ◌∷◌, ◌++◌, ◌==◌,
  if◌then◌else◌,
}
use dogeuni_indexer.Prelude.Int.{ℤ, pos, ◌+ℤ◌, ◌-ℤ◌, ltb_ℤ, leb_ℤ}
use dogeuni_indexer.Prelude.Result.{
  Result, ok, ◌>>=◌, ◌>>◌, fail_if, or_err, bad_amount, same_address, no_row, insufficient,
  exceeds_supply,
}
use dogeuni_indexer.Models.{Meme20Collect, Meme20CollectAddress, Meme20Revert, Db}
use dogeuni_indexer.Tables.{find_where, first_where, update_first}
use dogeuni_indexer.Holders.{same_key}
use dogeuni_indexer.Tokens.{next_transactions}

unfoldable pub is_holder : String → String → Meme20CollectAddress → Bool
is_holder tick_id holder r = same_key r.tick_id r.holder_address tick_id holder

unfoldable pub is_meme : String → Meme20Collect → Bool
is_meme tick_id c = c.tick_id == tick_id

abbrev pub empty_meme_holder : String → String → Meme20CollectAddress
empty_meme_holder tick_id holder = record {
  tick_id = tick_id;
  amt = pos 0;
  holder_address = holder;
  transactions = 0;
}

-- The row that an operation works on when its lookup may fail with ErrRecordNotFound, and the
-- table with that row.
abbrev pub or_new : String → String → Option Meme20CollectAddress → Meme20CollectAddress
or_new tick_id holder none = empty_meme_holder tick_id holder
or_new tick_id holder (some r) = r

unfoldable pub with_row :
    String
    → String
    → Option Meme20CollectAddress
    → List Meme20CollectAddress
    → List Meme20CollectAddress
with_row tick_id holder none rs = rs ++ empty_meme_holder tick_id holder ∷ []
with_row tick_id holder (some r) rs = rs

-- `Update("amt", v)` of the row that was read.
unfoldable pub set_amt : String → String → ℤ → List Meme20CollectAddress → List Meme20CollectAddress
set_amt tick_id holder v =
    update_first (is_holder tick_id holder) (λ (r : Meme20CollectAddress). record r { amt = v })

-- `Updates` of the amount and the counter of the row that was read.
unfoldable pub set_amt_and_count :
    String → String → ℤ → ℕ → List Meme20CollectAddress → List Meme20CollectAddress
set_amt_and_count tick_id holder v n =
    update_first (is_holder tick_id holder)
      (λ (r : Meme20CollectAddress). record r { amt = v; transactions = n })

unfoldable pub set_meme : String → ℤ → ℕ → List Meme20Collect → List Meme20Collect
set_meme tick_id v n =
    update_first (is_meme tick_id) (λ (c : Meme20Collect). record c { max = v; transactions = n })

unfoldable pub log_meme : Bool → Meme20Revert → List Meme20Revert → List Meme20Revert
log_meme true r log = log
log_meme false r log = r ∷ log

unfoldable pub transfer_meme20 : String → String → String → ℤ → String → ℤ → Bool → Db → Result Db
transfer_meme20 tick_id src dst amt tx_hash height fork db = do
  fail_if (leb_ℤ amt (pos 0)) bad_amount
  fail_if (src == dst) same_address
  add_from ← or_err (first_where (is_holder tick_id src) db.meme20_collect_address) no_row
  fail_if (ltb_ℤ add_from.amt amt) insufficient
  let found = first_where (is_holder tick_id dst) db.meme20_collect_address
  let created = with_row tick_id dst found db.meme20_collect_address
  mc ← or_err (first_where (is_meme tick_id) db.meme20_collect) no_row
  ok (record db {
    meme20_collect_address =
        set_amt tick_id dst ((or_new tick_id dst found).amt +ℤ amt)
          (set_amt tick_id src (add_from.amt -ℤ amt) created);
    meme20_collect =
        set_meme tick_id mc.max (next_transactions fork mc.transactions) db.meme20_collect;
    meme20_revert =
        log_meme fork
          (record {
            from_address = src;
            to_address = dst;
            tick_id = tick_id;
            amt = amt;
            tx_hash = tx_hash;
            block_number = height;
          })
          db.meme20_revert;
  })

unfoldable pub mint_meme20 : String → String → ℤ → String → ℤ → Bool → Db → Result Db
mint_meme20 tick_id holder amt tx_hash height fork db = do
  meme20c ← or_err (first_where (is_meme tick_id) db.meme20_collect) no_row
  let found = first_where (is_holder tick_id holder) db.meme20_collect_address
  let meme20ca = or_new tick_id holder found
  let created = with_row tick_id holder found db.meme20_collect_address
  ok (record db {
    meme20_collect_address =
        set_amt_and_count tick_id holder (meme20ca.amt +ℤ amt)
          (next_transactions fork meme20ca.transactions) created;
    meme20_collect =
        set_meme tick_id (meme20c.max +ℤ amt) (next_transactions fork meme20c.transactions)
          db.meme20_collect;
    meme20_revert =
        log_meme fork
          (record {
            from_address = "";
            to_address = holder;
            tick_id = tick_id;
            amt = amt;
            tx_hash = tx_hash;
            block_number = height;
          })
          db.meme20_revert;
  })

-- Burning counts the holder's transactions down, and up again on a fork.
unfoldable pub burn_meme20 : String → String → ℤ → String → ℤ → Bool → Db → Result Db
burn_meme20 tick_id holder amt tx_hash height fork db = do
  meme20ca ← or_err (first_where (is_holder tick_id holder) db.meme20_collect_address) no_row
  fail_if (ltb_ℤ meme20ca.amt amt) insufficient
  meme20c ← or_err (first_where (is_meme tick_id) db.meme20_collect) no_row
  fail_if (ltb_ℤ meme20c.max amt) exceeds_supply
  ok (record db {
    meme20_collect_address =
        set_amt_and_count tick_id holder (meme20ca.amt -ℤ amt)
          (next_transactions (not fork) meme20ca.transactions) db.meme20_collect_address;
    meme20_collect =
        set_meme tick_id (meme20c.max -ℤ amt) (next_transactions fork meme20c.transactions)
          db.meme20_collect;
    meme20_revert =
        log_meme fork
          (record {
            from_address = holder;
            to_address = "";
            tick_id = tick_id;
            amt = amt;
            tx_hash = tx_hash;
            block_number = height;
          })
          db.meme20_revert;
  })

-- The body of the loop in `meme20Fork`.
unfoldable pub undo_meme : Meme20Revert → Db → Result Db
undo_meme r db =
    if not (r.to_address == "") && r.from_address == ""
    then burn_meme20 r.tick_id r.to_address r.amt "" (pos 0) true db
    else if not (r.from_address == "") && r.to_address == ""
    then mint_meme20 r.tick_id r.from_address r.amt "" (pos 0) true db
    else transfer_meme20 r.tick_id r.to_address r.from_address r.amt "" (pos 0) true db

unfoldable pub memes_above : ℤ → List Meme20Revert → List Meme20Revert
memes_above height = find_where (λ (r : Meme20Revert). ltb_ℤ height r.block_number)

unfoldable pub undo_memes : List Meme20Revert → Db → Result Db
undo_memes [] db = ok db
undo_memes (r ∷ log) db = undo_meme r db >>= λ db'. undo_memes log db'

unfoldable pub meme20_fork : ℤ → Db → Result Db
meme20_fork height db = undo_memes (memes_above height db.meme20_revert) db
