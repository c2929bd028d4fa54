-- ===== src/Drc20/Refines.antt =====
-- storage/common.go: TransferDrc20, MintDrc20 and BurnDrc20 implement the abstract ledger.
use dogeuni_indexer.Prelude.{String, ◌≡◌, List, [], ◌∷◌, if◌then◌else◌, arith, refl, ◌∙◌, ap}
use dogeuni_indexer.Prelude.Int.{ℤ}
use dogeuni_indexer.Prelude.Result.{Result, ok, err}
use dogeuni_indexer.Models.{Db}
use dogeuni_indexer.Ledger.{Call, transfer, mint, burn, refused, applied, spec, spec_all}
use dogeuni_indexer.Drc20.View.{view, view_result, run, IsCall}
use dogeuni_indexer.Drc20.Calls.{transfer-refines, mint-refines, burn-refines}

-- One call of an operation, with a positive amount where it burns, is one call of the ledger: it
-- succeeds exactly when the ledger's does, and then its database stands for the ledger's result.
pub run-refines :
    (call : Call) (tx_hash : String) (height : ℤ) (db : Db)
    → IsCall call
    → view_result (run call tx_hash height db) ≡ spec call (view db)
run-refines (transfer t src dst amt) tx_hash height db ok_call =
    transfer-refines tx_hash height db t src dst amt
run-refines (mint t holder amt) tx_hash height db ok_call =
    mint-refines tx_hash height db t holder amt
run-refines (burn t holder amt) tx_hash height db ok_call =
    burn-refines tx_hash height db t holder amt ok_call

-- A call as its handler makes it: an error rolls the transaction back.
abbrev pub or_same : Db → Result Db → Db
or_same db (err e) = db
or_same db (ok db') = db'

-- The calls of a list, each of a transaction in a block.
unfoldable pub run_all : List (Call × String × ℤ) → Db → Db
run_all [] db = db
run_all ((call, tx_hash, height) ∷ calls) db =
    run_all calls (or_same db (run call tx_hash height db))

abbrev pub calls_of : List (Call × String × ℤ) → List Call
calls_of [] = []
calls_of ((call, tx_hash, height) ∷ calls) = call ∷ calls_of calls

abbrev pub AreCalls : List (Call × String × ℤ) → Type 0
AreCalls [] = Unit {0}
AreCalls ((call, tx_hash, height) ∷ calls) = IsCall call × AreCalls calls

view-or_same :
    (call : Call) (db : Db) (r : Result Db)
    → view_result r ≡ spec call (view db)
    → view (or_same db r) ≡ (if refused call (view db) then view db else applied call (view db))
unfolding spec
view-or_same call db (err e) same = ground arith
view-or_same call db (ok db') same = ground arith

-- Any calls of the three operations, the refused ones included, with a positive amount where they
-- burn, lead to the balances and the supplies to which the ledger's calls lead.
pub run_all-refines :
    (calls : List (Call × String × ℤ)) (db : Db)
    → AreCalls calls
    → view (run_all calls db) ≡ spec_all (calls_of calls) (view db)
unfolding run_all spec_all
run_all-refines [] db are = refl
run_all-refines ((call, tx_hash, height) ∷ calls) db are =
    run_all-refines calls (or_same db (run call tx_hash height db)) are.1
    ∙ ap (spec_all (calls_of calls))
        (view-or_same call db _ (run-refines call tx_hash height db are.0))
