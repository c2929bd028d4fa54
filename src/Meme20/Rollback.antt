-- ===== src/Meme20/Rollback.antt =====
-- explorer/meme20.go `meme20Fork`: a fork takes back the calls of the blocks above its height.
use dogeuni_indexer.Prelude.{
  String, Bool, true, false, ◌≡◌, ◌≢◌, none, some, List, [], ◌∷◌, eq_iff, arith, ap, ◌∙◌, sym, refl,
}
use dogeuni_indexer.Prelude.Int.{ℤ, pos, ltb_ℤ}
use dogeuni_indexer.Prelude.Result.{Result, ok, err}
use dogeuni_indexer.Models.{Meme20Revert, Db}
use dogeuni_indexer.Tables.{find_where}
use dogeuni_indexer.Ledger.{Call, transfer, mint, burn, applied, refused_strictly, spec_strictly}
use dogeuni_indexer.Ledger.Undo.{opposite, IsPositive, IsNonNegative, opposite_undoes}
use dogeuni_indexer.Meme20.{log_meme, undo_meme, undo_memes, memes_above, meme20_fork}
use dogeuni_indexer.Meme20.View.{view_meme, view_meme_result, run_meme, revert_of, IsMemeCall}
use dogeuni_indexer.Meme20.Refines.{run_meme-refines, run_meme-logs}

-- No address that is named is empty, as the empty one means none in a row of the log.
abbrev pub IsNamed : Call → Type 0
IsNamed (transfer t src dst amt) = (src ≢ "") × (dst ≢ "")
IsNamed (mint t holder amt) = holder ≢ ""
IsNamed (burn t holder amt) = holder ≢ ""

-- Calls that succeed, in blocks above a height, one after the other.
pub data MemeReach (above : ℤ) (base : Db) : Db → Type 0 where
  here : MemeReach above base base
  next :
      {db : Db} (call : Call) (tx_hash : String) (height : ℤ) (db' : Db)
      → MemeReach above base db
      → ltb_ℤ above height ≡ true
      → IsPositive call
      → IsNamed call
      → run_meme call tx_hash height false db ≡ ok db'
      → MemeReach above base db'

undo_meme-revert_of :
    (call : Call) (tx_hash : String) (height : ℤ) (db : Db)
    → IsNamed call
    → undo_meme (revert_of call tx_hash height) db ≡ run_meme (opposite call) "" (pos 0) true db
unfolding undo_meme revert_of run_meme opposite
undo_meme-revert_of (transfer t src dst amt) tx_hash height db is =
    ground (arith, eq_iff src "", eq_iff dst "")
undo_meme-revert_of (mint t holder amt) tx_hash height db is =
    ground (arith, eq_iff holder "", eq_iff "" "")
undo_meme-revert_of (burn t holder amt) tx_hash height db is =
    ground (arith, eq_iff holder "", eq_iff "" "")

call_of_positive : (call : Call) → IsPositive call → IsMemeCall call
call_of_positive (transfer t src dst amt) is = tt
call_of_positive (mint t holder amt) is = tt
call_of_positive (burn t holder amt) is = is

opposite_call : (call : Call) → IsPositive call → IsMemeCall (opposite call)
unfolding opposite
opposite_call (transfer t src dst amt) is = tt
opposite_call (mint t holder amt) is = is
opposite_call (burn t holder amt) is = tt

-- What the ledger does when the call succeeds.
accepted :
    (call : Call) (tx_hash : String) (height : ℤ) (fork : Bool) (db db' : Db)
    → IsMemeCall call
    → run_meme call tx_hash height fork db ≡ ok db'
    → (refused_strictly call (view_meme db) ≡ false) × (view_meme db' ≡ applied call (view_meme db))
accepted call tx_hash height fork db db' is e =
    let same : some (view_meme db') ≡ spec_strictly call (view_meme db) =
      ap view_meme_result (sym e) ∙ run_meme-refines call tx_hash height fork db is in
    unfold spec_strictly in ground (arith, same)

succeeds :
    (call : Call) (tx_hash : String) (height : ℤ) (fork : Bool) (db : Db) (r : Result Db)
    → r ≡ run_meme call tx_hash height fork db
    → IsMemeCall call
    → refused_strictly call (view_meme db) ≡ false
    → (db' : Db) × (r ≡ ok db') × (view_meme db' ≡ applied call (view_meme db))
succeeds call tx_hash height fork db (err e) made is good =
    let same : none ≡ spec_strictly call (view_meme db) =
      ap view_meme_result made ∙ run_meme-refines call tx_hash height fork db is in
    absurd (unfold spec_strictly in ground (arith, same))
succeeds call tx_hash height fork db (ok db') made is good =
    (db', refl, (accepted call tx_hash height fork db db' is (sym made)).1)

MemeReach-IsNonNegative :
    {above : ℤ} {base db : Db}
    → IsNonNegative (view_meme base)
    → MemeReach above base db
    → IsNonNegative (view_meme db)
MemeReach-IsNonNegative inv here = inv
MemeReach-IsNonNegative inv (next {db} call tx_hash height db' r above positive named went) =
    let (good, same) =
      accepted call tx_hash height false db db' (call_of_positive call positive) went in
    rw same (opposite_undoes call (view_meme db) (MemeReach-IsNonNegative inv r) positive good).0

revert_of_height :
    (call : Call) (tx_hash : String) (height : ℤ)
    → (revert_of call tx_hash height).block_number ≡ height
unfolding revert_of
revert_of_height (transfer t src dst amt) tx_hash height = refl
revert_of_height (mint t holder amt) tx_hash height = refl
revert_of_height (burn t holder amt) tx_hash height = refl

memes_above-run :
    (above : ℤ) (call : Call) (tx_hash : String) (height : ℤ) (db db' : Db)
    → ltb_ℤ above height ≡ true
    → run_meme call tx_hash height false db ≡ ok db'
    → memes_above above db'.meme20_revert
      ≡ revert_of call tx_hash height ∷ memes_above above db.meme20_revert
memes_above-run above call tx_hash height db db' over went =
    rw (run_meme-logs call tx_hash height false db db' went) (
      unfold find_where memes_above log_meme in
      rw (revert_of_height call tx_hash height, over) refl)

undo_memes-step :
    (row : Meme20Revert) (log : List Meme20Revert) (a a1 : Db) (r : Result Db)
    → undo_meme row a ≡ ok a1
    → undo_memes log a1 ≡ r
    → undo_memes (row ∷ log) a ≡ r
unfolding undo_memes
undo_memes-step row log a a1 r e rest = rw e rest

-- Undoing the log from any database with the same balances and supplies.
undo_memes-MemeReach :
    {above : ℤ} {base db : Db}
    → IsNonNegative (view_meme base)
    → memes_above above base.meme20_revert ≡ []
    → MemeReach above base db
    → (a : Db) → view_meme a ≡ view_meme db
    → (a' : Db) × (undo_memes (memes_above above db.meme20_revert) a ≡ ok a')
      × (view_meme a' ≡ view_meme base)
undo_memes-MemeReach inv old here a same = (a, rw old (unfold undo_memes in refl), same)
undo_memes-MemeReach {above} inv old (next {db} call tx_hash height db' r over positive named went)
      a same =
    let (good, stands) =
      accepted call tx_hash height false db db' (call_of_positive call positive) went in
    let (_, open_back, back) =
      opposite_undoes call (view_meme db) (MemeReach-IsNonNegative inv r) positive good in
    let (a1, undone, restored) =
      succeeds (opposite call) "" (pos 0) true a (undo_meme (revert_of call tx_hash height) a)
        (undo_meme-revert_of call tx_hash height a named) (opposite_call call positive)
        (rw (same, stands) open_back) in
    let (a2, rest, base_again) =
      undo_memes-MemeReach inv old r a1 (restored ∙ rw (same, stands) back) in
    (
      a2,
      rw (memes_above-run above call tx_hash height db db' over went)
          (undo_memes-step _ _ a a1 (ok a2) undone rest),
      base_again,
    )

-- From a database with no negative balance or supply and no row above the height in the log: after
-- any transfers, issues and burns in blocks above the height that succeed, with positive amounts and
-- between addresses that are not empty, the fork of the meme20 tables to the height succeeds, and
-- every balance and every supply is what it was before them, a token that was not deployed included.
pub meme20_fork-MemeReach :
    (above : ℤ) (base db : Db)
    → IsNonNegative (view_meme base)
    → memes_above above base.meme20_revert ≡ []
    → MemeReach above base db
    → (a : Db) × (meme20_fork above db ≡ ok a) × (view_meme a ≡ view_meme base)
unfolding meme20_fork
meme20_fork-MemeReach above base db inv old r = undo_memes-MemeReach inv old r db refl
