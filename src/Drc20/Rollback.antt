-- ===== src/Drc20/Rollback.antt =====
-- explorer/drc20.go `drc20Fork`, with the `Drc20Revert` part of explorer/fork.go: undoing the log
-- of the operations above a height.
use dogeuni_indexer.Prelude.{String, true, false, ◌≡◌, ◌≢◌, refl, List, [], ◌∷◌, ◌∙◌}
use dogeuni_indexer.Prelude.Int.{ℤ, pos, ltb_ℤ, ◌≤ℤ◌}
use dogeuni_indexer.Prelude.Result.{ok}
use dogeuni_indexer.Models.{Drc20Revert, Db}
use dogeuni_indexer.Tables.{find_where}
use dogeuni_indexer.Holders.Balance.{balance}
use dogeuni_indexer.Tokens.Supply.{supply}
use dogeuni_indexer.Drc20.{
  log_revert, transfer_drc20, mint_drc20, burn_drc20, undo, undo_all, reverts_above, drc20_fork,
}
use dogeuni_indexer.Drc20.Effects.{transfer_drc20-eq-ok, mint_drc20-eq-ok, burn_drc20-eq-ok}
use dogeuni_indexer.Drc20.Conservation.{
  IsBacked, Moves, no_move, transferred, minted, burned, Moves-IsBacked,
}
use dogeuni_indexer.Drc20.Covers.{Covers, Covers-refl, Covers-trans}
use dogeuni_indexer.Drc20.Undo.{undo-Covers, transfer_undone, mint_undone, burn_undone}

-- One operation of a block above `above`, as the handlers make it: between addresses that are not
-- empty, and issuing no negative amount.
pub data Step (above : ℤ) : Db → Db → Type 0 where
  transfer :
      (tick src dst : String) (amt : ℤ) (tx_hash : String) (height : ℤ) (db db' : Db)
      → ltb_ℤ above height ≡ true
      → src ≢ ""
      → dst ≢ ""
      → transfer_drc20 tick src dst amt tx_hash height false db ≡ ok db'
      → Step above db db'
  mint :
      (tick holder : String) (amt : ℤ) (tx_hash : String) (height : ℤ) (db db' : Db)
      → ltb_ℤ above height ≡ true
      → holder ≢ ""
      → pos 0 ≤ℤ amt
      → mint_drc20 tick holder amt tx_hash height false db ≡ ok db'
      → Step above db db'
  burn :
      (tick holder : String) (amt : ℤ) (tx_hash : String) (height : ℤ) (db db' : Db)
      → ltb_ℤ above height ≡ true
      → holder ≢ ""
      → burn_drc20 tick holder amt tx_hash height false db ≡ ok db'
      → Step above db db'

pub data Reach (above : ℤ) (base : Db) : Db → Type 0 where
  here : Reach above base base
  next : {db db' : Db} → Reach above base db → Step above db db' → Reach above base db'

Step-Moves : {above : ℤ} {base db db' : Db} → Step above db db' → Moves base db → Moves base db'
Step-Moves (transfer t s d amt x h db db' _ _ _ e) m = transferred t s d amt x h false m e
Step-Moves (mint t a amt x h db db' _ _ p e) m = minted t a amt x h false m p e
Step-Moves (burn t a amt x h db db' _ _ e) m = burned t a amt x h false m e

pub Reach-Moves : {above : ℤ} {base db : Db} → Reach above base db → Moves base db
Reach-Moves here = no_move
Reach-Moves (next r st) = Step-Moves st (Reach-Moves r)

-- A step logs one row, above the height, whose undoing gives back the state before.
record Logs (above : ℤ) (db db' : Db) : Type 0 where
  row : Drc20Revert
  recent : ltb_ℤ above row.block_number ≡ true
  logged : db'.drc20_revert ≡ row ∷ db.drc20_revert
  undone : (a : Db) × (undo row db' ≡ ok a) × Covers a db

Step-Logs : {above : ℤ} {db db' : Db} → IsBacked db → Step above db db' → Logs above db db'
unfolding log_revert
Step-Logs inv (transfer t s d amt x h db db' recent f g e) =
    let (can, result) = transfer_drc20-eq-ok t s d amt x h false db db' e in
    rw result (record {
      row = _;
      recent = recent;
      logged = refl;
      undone = transfer_undone t amt x h db inv s d f g can;
    })
Step-Logs inv (mint t a amt x h db db' recent f _ e) =
    let (there, result) = mint_drc20-eq-ok t a amt x h false db db' e in
    rw result (record {
      row = _;
      recent = recent;
      logged = refl;
      undone = mint_undone t amt x h db inv a f there;
    })
Step-Logs inv (burn t a amt x h db db' recent f e) =
    let (can, result) = burn_drc20-eq-ok t a amt x h false db db' e in
    rw result (record {
      row = _;
      recent = recent;
      logged = refl;
      undone = burn_undone t amt x h db inv a f can;
    })

reverts_above-Logs :
    (above : ℤ) (db db' : Db) (g : Logs above db db')
    → reverts_above above db'.drc20_revert ≡ g.row ∷ reverts_above above db.drc20_revert
reverts_above-Logs above db db' g = rw g.logged (unfold find_where reverts_above in rw g.recent)

undo_all_step :
    (r : Drc20Revert) (log : List Drc20Revert) (a a' : Db)
    → undo r a ≡ ok a'
    → undo_all (r ∷ log) a ≡ undo_all log a'
undo_all_step r log a a' e = unfold undo_all in rw e

Reach-undo_all :
    {above : ℤ} {base db : Db}
    → IsBacked base
    → reverts_above above base.drc20_revert ≡ []
    → Reach above base db
    → (a : Db) → Covers a db
    → (a' : Db) × (undo_all (reverts_above above db.drc20_revert) a ≡ ok a') × Covers a' base
Reach-undo_all inv old here a c = (a, rw old (unfold undo_all in refl), c)
Reach-undo_all {above} inv old (next {db} {db'} r st) a c =
    let log = reverts_above above db.drc20_revert in
    let g = Step-Logs (Moves-IsBacked inv (Reach-Moves r)) st in
    let (b, back, covers) = g.undone in
    let (a1, e, c1) = undo-Covers g.row a db' b c back in
    let (a2, e2, c2) = Reach-undo_all inv old r a1 (Covers-trans c1 covers) in
    (a2, rw (reverts_above-Logs above db db' g) (undo_all_step g.row log a a1 e ∙ e2), c2)

-- From a database where every token's supply is the sum of its balances, no balance is negative
-- and no key stands twice, and whose log has no row above the height: after any transfers, issues
-- and burns in blocks above the height that succeed, between addresses that are not empty and with
-- no negative issue, a fork to the height succeeds, and every address has the balance and every
-- token the supply that it had before them.
pub drc20_fork-Reach :
    (above : ℤ) (base db : Db)
    → IsBacked base
    → reverts_above above base.drc20_revert ≡ []
    → Reach above base db
    → (a : Db) × (drc20_fork above db ≡ ok a)
      × ((t h : String)
          → balance t h a.drc20_collect_address ≡ balance t h base.drc20_collect_address)
      × ((t : String) → supply t a.drc20_collect ≡ supply t base.drc20_collect)
unfolding drc20_fork
drc20_fork-Reach above base db inv old r =
    let (a, e, c) = Reach-undo_all inv old r db (Covers-refl db) in (a, e, c.balances, c.supplies)
