-- ===== src/Meme20/Transfer.antt =====
-- storage/common.go: TransferMeme20 is the ledger's transfer.
use dogeuni_indexer.Prelude.{
  String, Bool, true, false, ◌≡◌, ◌≢◌, some, List, eq_iff, arith, fun_ext, ◌∙◌,
}
use dogeuni_indexer.Prelude.Int.{ℤ, pos, ◌≤ℤ◌, ◌+ℤ◌, ◌-ℤ◌}
use dogeuni_indexer.Prelude.Result.{ok}
use dogeuni_indexer.Models.{Meme20CollectAddress, Db}
use dogeuni_indexer.Tables.{first_where}
use dogeuni_indexer.Tokens.{next_transactions}
use dogeuni_indexer.Holders.Balance.{same_key-false, same_key_eq}
use dogeuni_indexer.Ledger.{
  Ledger-ext, transfer, put, or_zero, is_none, refused, applied, refused_strictly, spec_strictly,
}
use dogeuni_indexer.Meme20.{is_meme, or_new, with_row, set_amt, set_meme, log_meme, transfer_meme20}
use dogeuni_indexer.Meme20.Rows.{
  find_row, meme_balance, meme_supply, meme_balance-update_first, find_row-update_first,
  set_amt_keeps, find_row-with_row, find_row-with_row_other, meme_balance-with_row,
}
use dogeuni_indexer.Meme20.View.{
  view_meme, view_meme_result, revert_of, count_of, row_of_positive, meme_of_supply, same_supply,
  refines_of,
}

module _ (tx_hash : String) (height : ℤ) (fork : Bool) (db : Db) where
  module _ (t src dst : String) (amt : ℤ) where
    -- The rows after a transfer, from what was found.
    moved_balance :
        (rs : List Meme20CollectAddress) (r : Meme20CollectAddress)
        → find_row t src rs ≡ some r
        → src ≢ dst
        → (t' h' : String)
        → meme_balance t' h' (
            set_amt t dst
              ((or_new t dst (find_row t dst rs)).amt +ℤ amt)
              (set_amt t src (r.amt -ℤ amt) (with_row t dst (find_row t dst rs) rs)))
          ≡ put t src
              (meme_balance t src rs -ℤ amt)
              (put t dst (meme_balance t dst rs +ℤ amt) (λ t'' h''. meme_balance t'' h'' rs))
              t'
              h'
    unfolding set_amt put meme_balance
    moved_balance rs r found ne t' h' =
        let d = or_new t dst (find_row t dst rs) in
        let mid = with_row t dst (find_row t dst rs) rs in
        let v = r.amt -ℤ amt in
        let taken = find_row-with_row_other t dst t src rs r found in
        let after_src =
          find_row-update_first t src (λ (q : Meme20CollectAddress). record q { amt = v })
            (set_amt_keeps v) mid r taken in
        let there : find_row t dst (set_amt t src v mid) ≡ some d =
          after_src t dst ∙ rw (same_key-false t src t dst ne) (find_row-with_row t dst rs) in
        meme_balance-update_first t dst
          (λ (q : Meme20CollectAddress). record q { amt = d.amt +ℤ amt })
          (set_amt_keeps (d.amt +ℤ amt)) (set_amt t src v mid) d there t' h'
        ∙ ground (
          arith,
          after_src t' h',
          meme_balance-with_row t dst t' h' rs,
          same_key_eq t src t' h',
          same_key_eq t dst t' h',
          found,
        )

    transfer_meme20-refused :
        refused_strictly (transfer t src dst amt) (view_meme db) ≡ true
        → (db' : Db) → transfer_meme20 t src dst amt tx_hash height fork db ≡ ok db'
        → ⊥
    unfolding transfer_meme20 refused_strictly refused view_meme meme_balance meme_supply
    transfer_meme20-refused bad db' e = ground (arith, eq_iff src dst)

    abbrev after_transfer : Db
    after_transfer = record db {
      meme20_collect_address =
          set_amt t dst ((or_new t dst (find_row t dst db.meme20_collect_address)).amt +ℤ amt) (
            set_amt t src (meme_balance t src db.meme20_collect_address -ℤ amt) (
              with_row t dst (find_row t dst db.meme20_collect_address) db.meme20_collect_address));
      meme20_collect =
          set_meme t (or_zero (meme_supply t db.meme20_collect))
            (next_transactions fork (count_of (first_where (is_meme t) db.meme20_collect)))
            db.meme20_collect;
      meme20_revert =
          log_meme fork (revert_of (transfer t src dst amt) tx_hash height) db.meme20_revert;
    }

    transfer_meme20-success :
        refused_strictly (transfer t src dst amt) (view_meme db) ≡ false
        → transfer_meme20 t src dst amt tx_hash height fork db ≡ ok after_transfer
    unfolding transfer_meme20 refused_strictly refused view_meme meme_balance meme_supply revert_of
    transfer_meme20-success good = ground (arith, eq_iff src dst)

    view-after_transfer :
        refused_strictly (transfer t src dst amt) (view_meme db) ≡ false
        → view_meme after_transfer ≡ applied (transfer t src dst amt) (view_meme db)
    unfolding view_meme applied
    view-after_transfer good =
        let positive : pos 1 ≤ℤ amt = unfold refused_strictly refused in ground arith in
        let ne : src ≢ dst =
          λ p. unfold refused_strictly refused in ground (arith, eq_iff src dst) in
        let covered : amt ≤ℤ meme_balance t src db.meme20_collect_address =
          unfold refused_strictly refused in ground arith in
        let there : is_none (meme_supply t db.meme20_collect) ≡ false =
          unfold refused_strictly in ground arith in
        let (r, found, same) =
          row_of_positive t src amt db.meme20_collect_address positive covered in
        let (c, found_c, supplied) = meme_of_supply t db.meme20_collect there in
        Ledger-ext _ _
          (fun_ext λ t'.
            fun_ext λ h'. rw same at (moved_balance db.meme20_collect_address r found ne t' h'))
          (fun_ext λ t'. same_supply t _ db.meme20_collect c found_c t')

    pub transfer_meme20-refines :
        view_meme_result (transfer_meme20 t src dst amt tx_hash height fork db)
        ≡ spec_strictly (transfer t src dst amt) (view_meme db)
    transfer_meme20-refines =
        refines_of (transfer t src dst amt) db _ transfer_meme20-refused
          (λ good. (after_transfer, transfer_meme20-success good, view-after_transfer good))
