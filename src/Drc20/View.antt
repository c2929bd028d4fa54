-- ===== src/Drc20/View.antt =====
-- storage/common.go: the ledger that the DRC-20 tables stand for, and the calls of their operations.
use dogeuni_indexer.Prelude.{
  String, true, false, ◌≡◌, Option, none, some, arith, Bool-cases, inl, inr, refl, ap,
}
use dogeuni_indexer.Prelude.Int.{ℤ, pos, ◌≤ℤ◌}
use dogeuni_indexer.Prelude.Result.{Result, ok, err}
use dogeuni_indexer.Models.{Drc20Collect, Db}
use dogeuni_indexer.Holders.Balance.{balance, IsHeld}
use dogeuni_indexer.Tokens.{find_token}
use dogeuni_indexer.Drc20.{transfer_drc20, mint_drc20, burn_drc20}
use dogeuni_indexer.Drc20.Balances.{held_by}
use dogeuni_indexer.Ledger.{Ledger, Call, transfer, mint, burn, refused, applied, spec}

abbrev pub supply_of : Option Drc20Collect → Option ℤ
supply_of none = none
supply_of (some c) = some c.amt_sum

-- The ledger that a database stands for.
unfoldable pub view : Db → Ledger
view db = record {
  balance = λ t h. held_by t h db;
  supply = λ t. supply_of (find_token t db.drc20_collect);
}

abbrev pub view_result : Result Db → Option Ledger
view_result (err e) = none
view_result (ok db) = some (view db)

-- The operation that a call names, of a transaction in a block.
unfoldable pub run : Call → String → ℤ → Db → Result Db
run (transfer tick src dst amt) tx_hash height db =
    transfer_drc20 tick src dst amt tx_hash height false db
run (mint tick holder amt) tx_hash height db = mint_drc20 tick holder amt tx_hash height false db
run (burn tick holder amt) tx_hash height db = burn_drc20 tick holder amt tx_hash height false db

-- Only a burn of nothing looks at whether the row is there.
abbrev pub IsCall : Call → Type 0
IsCall (transfer tick src dst amt) = Unit {0}
IsCall (mint tick holder amt) = Unit {0}
IsCall (burn tick holder amt) = pos 1 ≤ℤ amt

pub positive-IsHeld :
    (t h : String) (amt : ℤ) (db : Db)
    → pos 1 ≤ℤ amt
    → amt ≤ℤ held_by t h db
    → IsHeld t h db.drc20_collect_address
unfolding balance
positive-IsHeld t h amt db p q = ground arith

-- A call refines the ledger's when it succeeds as often and its databases stand for the same.
pub refines_of :
    (call : Call) (db : Db) (r : Result Db)
    → (refused call (view db) ≡ true → (db' : Db) → r ≡ ok db' → ⊥)
    → (refused call (view db) ≡ false
        → (db' : Db) × (r ≡ ok db') × (view db' ≡ applied call (view db)))
    → view_result r ≡ spec call (view db)
unfolding spec
refines_of call db r no_less no_more = elim (Bool-cases (refused call (view db))) [
  | inl bad ↦ rw bad (failed r (no_less bad))
  | inr good ↦ let (db', e, same) = no_more good in rw (good, e) (ap some same)
]
  where
    failed : (r : Result Db) → ((db' : Db) → r ≡ ok db' → ⊥) → view_result r ≡ none
    failed (err e) no_ok = refl
    failed (ok db') no_ok = absurd (no_ok db' refl)
