-- ===== src/Meme20/Issue.antt =====
-- storage/common.go: MintMeme20 and BurnMeme20 are the ledger's issue and burn.
use dogeuni_indexer.Prelude.{String, Bool, true, false, not, ◌≡◌, arith, fun_ext, refl, ◌∙◌}
use dogeuni_indexer.Prelude.Int.{ℤ, pos, ◌≤ℤ◌, ◌+ℤ◌, ◌-ℤ◌}
use dogeuni_indexer.Prelude.Result.{ok}
use dogeuni_indexer.Models.{Meme20CollectAddress, Db}
use dogeuni_indexer.Tables.{first_where}
use dogeuni_indexer.Tokens.{next_transactions}
use dogeuni_indexer.Ledger.{
  Ledger-ext, mint, burn, put, or_zero, is_none, refused, applied, refused_strictly, spec_strictly,
}
use dogeuni_indexer.Meme20.{
  is_meme, or_new, with_row, set_amt_and_count, set_meme, log_meme, mint_meme20, burn_meme20,
}
use dogeuni_indexer.Meme20.Rows.{
  find_row, meme_balance, meme_supply, meme_balance-update_first, set_count_keeps,
  find_row-with_row, meme_balance-with_row, meme_supply-set_meme,
}
use dogeuni_indexer.Meme20.View.{
  view_meme, view_meme_result, revert_of, count_of, row_of_positive, meme_of_supply, refines_of,
}

module _ (tx_hash : String) (height : ℤ) (fork : Bool) (db : Db) where
  module _ (t holder : String) (amt : ℤ) where
    abbrev after_mint : Db
    after_mint = record db {
      meme20_collect_address =
          set_amt_and_count t holder (meme_balance t holder db.meme20_collect_address +ℤ amt)
            (next_transactions fork
              (or_new t holder (find_row t holder db.meme20_collect_address)).transactions)
            (with_row t holder (find_row t holder db.meme20_collect_address)
              db.meme20_collect_address);
      meme20_collect =
          set_meme t (or_zero (meme_supply t db.meme20_collect) +ℤ amt)
            (next_transactions fork (count_of (first_where (is_meme t) db.meme20_collect)))
            db.meme20_collect;
      meme20_revert = log_meme fork (revert_of (mint t holder amt) tx_hash height) db.meme20_revert;
    }

    mint_meme20-refused :
        refused_strictly (mint t holder amt) (view_meme db) ≡ true
        → (db' : Db) → mint_meme20 t holder amt tx_hash height fork db ≡ ok db'
        → ⊥
    unfolding mint_meme20 refused_strictly refused view_meme meme_supply
    mint_meme20-refused bad db' e = ground arith

    mint_meme20-success :
        refused_strictly (mint t holder amt) (view_meme db) ≡ false
        → mint_meme20 t holder amt tx_hash height fork db ≡ ok after_mint
    unfolding mint_meme20 refused_strictly refused view_meme meme_balance meme_supply revert_of
    mint_meme20-success good = ground arith

    view-after_mint :
        refused_strictly (mint t holder amt) (view_meme db) ≡ false
        → view_meme after_mint ≡ applied (mint t holder amt) (view_meme db)
    unfolding view_meme applied put set_amt_and_count
    view-after_mint good =
        let rs = db.meme20_collect_address in
        let there : is_none (meme_supply t db.meme20_collect) ≡ false =
          unfold refused_strictly refused in ground arith in
        let (c, found_c, supplied) = meme_of_supply t db.meme20_collect there in
        let v = meme_balance t holder rs +ℤ amt in
        Ledger-ext _ _
          (fun_ext λ t'. fun_ext λ h'.
            meme_balance-update_first t holder
              (λ (q : Meme20CollectAddress). record q { amt = v; transactions = _ })
              (set_count_keeps v _) (with_row t holder (find_row t holder rs) rs)
              (or_new t holder (find_row t holder rs)) (find_row-with_row t holder rs) t' h'
            ∙ rw (meme_balance-with_row t holder t' h' rs) refl)
          (fun_ext λ t'. meme_supply-set_meme t _ _ db.meme20_collect c found_c t')

    pub mint_meme20-refines :
        view_meme_result (mint_meme20 t holder amt tx_hash height fork db)
        ≡ spec_strictly (mint t holder amt) (view_meme db)
    mint_meme20-refines =
        refines_of (mint t holder amt) db _ mint_meme20-refused
          (λ good. (after_mint, mint_meme20-success good, view-after_mint good))

    abbrev after_burn : Db
    after_burn = record db {
      meme20_collect_address =
          set_amt_and_count t holder (meme_balance t holder db.meme20_collect_address -ℤ amt)
            (next_transactions (not fork)
              (or_new t holder (find_row t holder db.meme20_collect_address)).transactions)
            db.meme20_collect_address;
      meme20_collect =
          set_meme t (or_zero (meme_supply t db.meme20_collect) -ℤ amt)
            (next_transactions fork (count_of (first_where (is_meme t) db.meme20_collect)))
            db.meme20_collect;
      meme20_revert = log_meme fork (revert_of (burn t holder amt) tx_hash height) db.meme20_revert;
    }

    burn_meme20-refused :
        refused_strictly (burn t holder amt) (view_meme db) ≡ true
        → (db' : Db) → burn_meme20 t holder amt tx_hash height fork db ≡ ok db'
        → ⊥
    unfolding burn_meme20 refused_strictly refused view_meme meme_supply meme_balance
    burn_meme20-refused bad db' e = ground arith

    burn_meme20-success :
        pos 1 ≤ℤ amt
        → refused_strictly (burn t holder amt) (view_meme db) ≡ false
        → burn_meme20 t holder amt tx_hash height fork db ≡ ok after_burn
    unfolding burn_meme20 refused_strictly refused view_meme meme_balance meme_supply revert_of
    burn_meme20-success positive good = ground arith

    view-after_burn :
        pos 1 ≤ℤ amt
        → refused_strictly (burn t holder amt) (view_meme db) ≡ false
        → view_meme after_burn ≡ applied (burn t holder amt) (view_meme db)
    unfolding view_meme applied put set_amt_and_count
    view-after_burn positive good =
        let rs = db.meme20_collect_address in
        let there : is_none (meme_supply t db.meme20_collect) ≡ false =
          unfold refused_strictly refused in ground arith in
        let covered : amt ≤ℤ meme_balance t holder rs =
          unfold refused_strictly refused in ground arith in
        let (c, found_c, supplied) = meme_of_supply t db.meme20_collect there in
        let (r, found, same) = row_of_positive t holder amt rs positive covered in
        let v = meme_balance t holder rs -ℤ amt in
        Ledger-ext _ _
          (fun_ext λ t'. fun_ext λ h'.
            meme_balance-update_first t holder
              (λ (q : Meme20CollectAddress). record q { amt = v; transactions = _ })
              (set_count_keeps v _) rs r found t' h')
          (fun_ext λ t'. meme_supply-set_meme t _ _ db.meme20_collect c found_c t')

    pub burn_meme20-refines :
        pos 1 ≤ℤ amt
        → view_meme_result (burn_meme20 t holder amt tx_hash height fork db)
          ≡ spec_strictly (burn t holder amt) (view_meme db)
    burn_meme20-refines positive =
        refines_of (burn t holder amt) db _ burn_meme20-refused
          (λ good. (after_burn, burn_meme20-success positive good, view-after_burn positive good))
