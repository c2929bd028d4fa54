-- ===== src/Meme20/Refines.antt =====
-- storage/common.go: TransferMeme20, MintMeme20 and BurnMeme20 implement the abstract ledger.
use dogeuni_indexer.Prelude.{
  String, Bool, false, ◌≡◌, some, ap, sym, ◌∙◌, Bool-cases, inl, inr, arith,
}
use dogeuni_indexer.Prelude.Int.{ℤ}
use dogeuni_indexer.Prelude.Result.{ok}
use dogeuni_indexer.Models.{Db}
use dogeuni_indexer.Ledger.{Call, transfer, mint, burn, applied, refused_strictly, spec_strictly}
use dogeuni_indexer.Meme20.{log_meme, transfer_meme20, mint_meme20, burn_meme20}
use dogeuni_indexer.Meme20.View.{view_meme, view_meme_result, run_meme, revert_of, IsMemeCall}
use dogeuni_indexer.Meme20.Transfer.{transfer_meme20-refines}
use dogeuni_indexer.Meme20.Issue.{mint_meme20-refines, burn_meme20-refines}

-- One call, with a positive amount where it burns, is one call of the ledger, in which every call
-- wants the token deployed.
pub run_meme-refines :
    (call : Call) (tx_hash : String) (height : ℤ) (fork : Bool) (db : Db)
    → IsMemeCall call
    → view_meme_result (run_meme call tx_hash height fork db) ≡ spec_strictly call (view_meme db)
unfolding run_meme
run_meme-refines (transfer t src dst amt) tx_hash height fork db is =
    transfer_meme20-refines tx_hash height fork db t src dst amt
run_meme-refines (mint t holder amt) tx_hash height fork db is =
    mint_meme20-refines tx_hash height fork db t holder amt
run_meme-refines (burn t holder amt) tx_hash height fork db is =
    burn_meme20-refines tx_hash height fork db t holder amt is

-- What a call that succeeds does to the ledger.
pub run_meme-applied :
    (call : Call) (tx_hash : String) (height : ℤ) (fork : Bool) (db db' : Db)
    → IsMemeCall call
    → run_meme call tx_hash height fork db ≡ ok db'
    → (refused_strictly call (view_meme db) ≡ false) × (view_meme db' ≡ applied call (view_meme db))
unfolding spec_strictly
run_meme-applied call tx_hash height fork db db' is e =
    let made : some (view_meme db') ≡ spec_strictly call (view_meme db) =
      ap view_meme_result (sym e) ∙ run_meme-refines call tx_hash height fork db is in
    elim (Bool-cases (refused_strictly call (view_meme db))) [
      | inl bad ↦ absurd (ground (arith, made))
      | inr good ↦ (good, ground (arith, made))
    ]

-- A call that succeeds logs one row, unless a fork makes it.
pub run_meme-logs :
    (call : Call) (tx_hash : String) (height : ℤ) (fork : Bool) (db db' : Db)
    → run_meme call tx_hash height fork db ≡ ok db'
    → db'.meme20_revert ≡ log_meme fork (revert_of call tx_hash height) db.meme20_revert
unfolding run_meme revert_of transfer_meme20 mint_meme20 burn_meme20
run_meme-logs (transfer t src dst amt) tx_hash height fork db db' e = ground arith
run_meme-logs (mint t holder amt) tx_hash height fork db db' e = ground arith
run_meme-logs (burn t holder amt) tx_hash height fork db db' e = ground arith
