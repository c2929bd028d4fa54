-- ===== src/Meme20/View.antt =====
-- storage/common.go: the ledger that the meme20 tables stand for, and the calls of their operations.
use dogeuni_indexer.Prelude.{
  ℕ, String, Bool, true, false, ◌≡◌, Option, none, some, List, eq_iff, arith, Bool-cases,
  Option-cases, inl, inr, refl, ◌∙◌, ap,
}
use dogeuni_indexer.Prelude.Int.{ℤ, pos, ◌≤ℤ◌}
use dogeuni_indexer.Prelude.Result.{Result, ok, err}
use dogeuni_indexer.Models.{Meme20Collect, Meme20CollectAddress, Meme20Revert, Db}
use dogeuni_indexer.Tables.{first_where}
use dogeuni_indexer.Ledger.{
  Ledger, Call, transfer, mint, burn, put_supply, or_zero, is_none, applied, refused_strictly,
  spec_strictly,
}
use dogeuni_indexer.Meme20.{is_meme, set_meme, transfer_meme20, mint_meme20, burn_meme20}
use dogeuni_indexer.Meme20.Rows.{find_row, meme_balance, meme_supply, meme_supply-set_meme}

unfoldable pub view_meme : Db → Ledger
view_meme db = record {
  balance = λ t h. meme_balance t h db.meme20_collect_address;
  supply = λ t. meme_supply t db.meme20_collect;
}

abbrev pub view_meme_result : Result Db → Option Ledger
view_meme_result (err e) = none
view_meme_result (ok db) = some (view_meme db)

-- The operation that a call names.
unfoldable pub run_meme : Call → String → ℤ → Bool → Db → Result Db
run_meme (transfer t src dst amt) tx_hash height fork db =
    transfer_meme20 t src dst amt tx_hash height fork db
run_meme (mint t holder amt) tx_hash height fork db =
    mint_meme20 t holder amt tx_hash height fork db
run_meme (burn t holder amt) tx_hash height fork db =
    burn_meme20 t holder amt tx_hash height fork db

-- Its row in the log.
unfoldable pub revert_of : Call → String → ℤ → Meme20Revert
revert_of (transfer t src dst amt) tx_hash height = record {
  from_address = src;
  to_address = dst;
  tick_id = t;
  amt = amt;
  tx_hash = tx_hash;
  block_number = height;
}
revert_of (mint t holder amt) tx_hash height = record {
  from_address = "";
  to_address = holder;
  tick_id = t;
  amt = amt;
  tx_hash = tx_hash;
  block_number = height;
}
revert_of (burn t holder amt) tx_hash height = record {
  from_address = holder;
  to_address = "";
  tick_id = t;
  amt = amt;
  tx_hash = tx_hash;
  block_number = height;
}

-- Only a burn of nothing looks at whether the row is there.
abbrev pub IsMemeCall : Call → Type 0
IsMemeCall (transfer t src dst amt) = Unit {0}
IsMemeCall (mint t holder amt) = Unit {0}
IsMemeCall (burn t holder amt) = pos 1 ≤ℤ amt

abbrev pub count_of : Option Meme20Collect → ℕ
count_of none = 0
count_of (some c) = c.transactions

pub row_of_positive :
    (t h : String) (amt : ℤ) (rs : List Meme20CollectAddress)
    → pos 1 ≤ℤ amt
    → amt ≤ℤ meme_balance t h rs
    → (r : Meme20CollectAddress) × (find_row t h rs ≡ some r) × (r.amt ≡ meme_balance t h rs)
unfolding meme_balance
row_of_positive t h amt rs p q = elim (Option-cases (find_row t h rs)) [
  | inl gone ↦ absurd (ground arith)
  | inr found ↦ (found.0, found.1, ground arith)
]

pub meme_of_supply :
    (t : String) (cs : List Meme20Collect)
    → is_none (meme_supply t cs) ≡ false
    → (c : Meme20Collect) × (first_where (is_meme t) cs ≡ some c) × (meme_supply t cs ≡ some c.max)
unfolding meme_supply
meme_of_supply t cs e = elim (Option-cases (first_where (is_meme t) cs)) [
  | inl gone ↦ absurd (ground arith)
  | inr found ↦ (found.0, found.1, ground arith)
]

pub same_supply :
    (t : String) (n : ℕ) (cs : List Meme20Collect) (c : Meme20Collect)
    → first_where (is_meme t) cs ≡ some c
    → (t' : String)
    → meme_supply t' (set_meme t (or_zero (meme_supply t cs)) n cs) ≡ meme_supply t' cs
same_supply t n cs c e t' =
    meme_supply-set_meme t (or_zero (meme_supply t cs)) n cs c e t'
    ∙ unfold put_supply meme_supply in ground (arith, eq_iff t t', e)

-- A call refines the ledger's when it fails where that one does, and otherwise gives a database
-- that stands for the same.
pub refines_of :
    (call : Call) (db : Db) (r : Result Db)
    → (refused_strictly call (view_meme db) ≡ true → (db' : Db) → r ≡ ok db' → ⊥)
    → (refused_strictly call (view_meme db) ≡ false
        → (db' : Db) × (r ≡ ok db') × (view_meme db' ≡ applied call (view_meme db)))
    → view_meme_result r ≡ spec_strictly call (view_meme db)
unfolding spec_strictly
refines_of call db r no_less no_more = elim (Bool-cases (refused_strictly call (view_meme db))) [
  | inl bad ↦ rw bad (failed r (no_less bad))
  | inr good ↦ let (db', e, same) = no_more good in rw (good, e) (ap some same)
]
  where
    failed : (r : Result Db) → ((db' : Db) → r ≡ ok db' → ⊥) → view_meme_result r ≡ none
    failed (err e) no_ok = refl
    failed (ok db') no_ok = absurd (no_ok db' refl)
