-- ===== src/Drc20/Undo.antt =====
-- explorer/drc20.go `drc20Fork`: one row of the log undone, right after the operation that logged it
-- and on any state that covers that one.
use dogeuni_indexer.Prelude.{
  String, Bool, true, false, not, ◌&&◌, ◌≡◌, ◌≢◌, inl, inr, refl, ◌==◌, eq_iff, arith, Bool-cases,
  ◌∙◌, sym,
}
use dogeuni_indexer.Prelude.Int.{ℤ, pos, ◌+ℤ◌, ◌-ℤ◌, ◌≤ℤ◌, int_laws, +ℤ_cancel, -ℤ_cancel}
use dogeuni_indexer.Prelude.Result.{ok}
use dogeuni_indexer.Models.{Drc20Revert, Db}
use dogeuni_indexer.Holders.Balance.{
  balance, put_amt_sum-absent, balance-put_amt_sum, balance-set_amt_sum, set_amt_sum-absent,
  same_key_eq, same_key-false, same_key_refl, IsHeld-put_amt_sum, balance-put_self,
  balance-set_self,
}
use dogeuni_indexer.Holders.Move.{balance-moved, moved-absent, IsHeld-moved_dst}
use dogeuni_indexer.Holders.Total.{balance_nonneg, total_nonneg}
use dogeuni_indexer.Tokens.Supply.{
  supply, IsDeployed, supply-set_token, set_token-absent, IsDeployed-set_token, supply-set_self,
}
use dogeuni_indexer.Drc20.{transfer_drc20, mint_drc20, burn_drc20, undo}
use dogeuni_indexer.Drc20.Conservation.{IsBacked}
use dogeuni_indexer.Drc20.Covers.{
  Covers, transfer_drc20-Covers, mint_drc20-Covers, burn_drc20-Covers,
}
use dogeuni_indexer.Drc20.Effects.{
  CanTransfer, after_transfer, transfer_revert, mint_revert, burn_revert, CanBurn, after_mint,
  after_burn, transfer_drc20_success, mint_drc20_success, burn_drc20_success,
}

abbrev is_issue : Drc20Revert → Bool
is_issue r = not (r.to_address == "") && r.from_address == ""

abbrev is_burn : Drc20Revert → Bool
is_burn r = not (r.from_address == "") && r.to_address == ""

-- What `undo` does with a row of each kind.
module _ (r : Drc20Revert) (db : Db) where
  undo_issue :
      is_issue r ≡ true → undo r db ≡ burn_drc20 r.tick r.to_address r.amt "" (pos 0) true db
  unfolding undo
  undo_issue p = ground arith

  undo_burn :
      is_issue r ≡ false
      → is_burn r ≡ true
      → undo r db ≡ mint_drc20 r.tick r.from_address r.amt "" (pos 0) true db
  unfolding undo
  undo_burn p q = ground arith

  undo_transfer :
      is_issue r ≡ false
      → is_burn r ≡ false
      → undo r db ≡ transfer_drc20 r.tick r.to_address r.from_address r.amt "" (pos 0) true db
  unfolding undo
  undo_transfer p q = ground arith

-- Undoing a row succeeds on a state that covers one on which it does, with covering results.
pub undo-Covers :
    (r : Drc20Revert) (a b b' : Db)
    → Covers a b
    → undo r b ≡ ok b'
    → (a' : Db) × (undo r a ≡ ok a') × Covers a' b'
undo-Covers r a b b' c e = elim (Bool-cases (is_issue r)) [
  | inl p ↦
      rw (undo_issue r a p) (
        burn_drc20-Covers r.tick r.amt "" (pos 0) a b b' c r.to_address
          (sym (undo_issue r b p) ∙ e))
  | inr p ↦ elim (Bool-cases (is_burn r)) [
    | inl q ↦ rw (undo_burn r a p q) (
        mint_drc20-Covers r.tick r.amt "" (pos 0) a b b' c r.from_address
          (sym (undo_burn r b p q) ∙ e))
    | inr q ↦ rw (undo_transfer r a p q) (
        transfer_drc20-Covers r.tick r.amt "" (pos 0) a b b' c r.to_address r.from_address
          (sym (undo_transfer r b p q) ∙ e))
  ]
]

module _ (tick : String) (amt : ℤ) (tx_hash : String) (height : ℤ) (db : Db)
    (inv : IsBacked db) where
  pub transfer_undone :
      (src dst : String)
      → src ≢ ""
      → dst ≢ ""
      → CanTransfer tick src dst amt tx_hash height false db
      → let db' = after_transfer tick src dst amt tx_hash height false db in
        (a : Db) × (undo (transfer_revert tick src dst amt tx_hash height false db) db' ≡ ok a)
        × Covers a db
  transfer_undone src dst f t can =
      let rs = db.drc20_collect_address in
      let db' = after_transfer tick src dst amt tx_hash height false db in
      let r = transfer_revert tick src dst amt tx_hash height false db in
      let p : is_issue r ≡ false = ground (arith, eq_iff src "", eq_iff dst "") in
      let q : is_burn r ≡ false = ground (arith, eq_iff src "", eq_iff dst "") in
      let rs' = db'.drc20_collect_address in
      let held' = IsHeld-moved_dst tick src dst amt rs in
      let had = balance_nonneg tick dst rs inv.sound in
      let moved_dst : balance tick dst rs' ≡ balance tick dst rs +ℤ amt = rw (
        balance-moved tick src dst amt rs can.held tick dst can.distinct,
        same_key-false tick src tick dst can.distinct,
        same_key_refl tick dst,
      ) in
      let moved_src : balance tick src rs' ≡ balance tick src rs -ℤ amt = rw (
        balance-moved tick src dst amt rs can.held tick src can.distinct,
        same_key_refl tick src,
      ) in
      let covered' : amt ≤ℤ balance tick dst rs' = rw moved_dst (omega int_laws) in
      let back : dst ≢ src = λ e. can.distinct (sym e) in
      (
        after_transfer tick dst src amt "" (pos 0) true db',
        undo_transfer r db' p q
            ∙ transfer_drc20_success tick dst src amt "" (pos 0) true db' (record {
              positive = can.positive;
              distinct = back;
              held = held';
              covered = covered';
            }),
        record {
          balances = λ x h.
              balance-moved tick dst src amt rs' held' x h back
              ∙ rw
                  (
                    moved_dst,
                    moved_src,
                    +ℤ_cancel,
                    -ℤ_cancel,
                    balance-moved tick src dst amt rs can.held x h can.distinct,
                  )
                  (ground (arith, same_key_eq tick src x h, same_key_eq tick dst x h));
          supplies = λ x. refl;
          absent = λ x h e.
              let (_, missing) = (moved-absent tick dst src amt rs' x h).0 e in
              ((moved-absent tick src dst amt rs x h).0 missing).1;
          undeployed = λ x e. e;
        },
      )

  pub mint_undone :
      (holder : String)
      → holder ≢ ""
      → IsDeployed tick db.drc20_collect
      → let db' = after_mint tick holder amt tx_hash height false db in
        (a : Db) × (undo (mint_revert tick holder amt tx_hash height false db) db' ≡ ok a)
        × Covers a db
  mint_undone holder t there =
      let rs = db.drc20_collect_address in
      let db' = after_mint tick holder amt tx_hash height false db in
      let r = mint_revert tick holder amt tx_hash height false db in
      let p : is_issue r ≡ true = ground (arith, eq_iff holder "", eq_iff "" "") in
      let rs' = db'.drc20_collect_address in
      let v = balance tick holder rs +ℤ amt in
      let had = balance_nonneg tick holder rs inv.sound in
      let issued = total_nonneg tick rs inv.sound in
      let supplied = inv.backed tick in
      let held' = IsHeld-put_amt_sum tick holder v rs in
      let there' : IsDeployed tick db'.drc20_collect =
        IsDeployed-set_token tick tick _ _ db.drc20_collect there in
      let now = balance-put_self tick holder v rs in
      let supply_now : supply tick db'.drc20_collect ≡ supply tick db.drc20_collect +ℤ amt =
        supply-set_self tick _ _ db.drc20_collect there in
      let issued' : amt ≤ℤ supply tick db'.drc20_collect =
        rw supply_now (omega (int_laws, issued, supplied)) in
      let covered' : amt ≤ℤ balance tick holder rs' = rw now (omega int_laws) in
      (
        after_burn tick holder amt "" (pos 0) true db',
        undo_issue r db' p
            ∙ burn_drc20_success tick holder amt "" (pos 0) true db'
                (record { deployed = there'; held = held'; issued = issued'; covered = covered' }),
        record {
          balances = λ x h.
              balance-set_amt_sum tick holder x h _ rs' held'
              ∙ rw (now, +ℤ_cancel, balance-put_amt_sum tick holder v rs x h)
                  (ground (arith, same_key_eq tick holder x h));
          supplies = λ x.
              supply-set_token tick x _ _ db'.drc20_collect there'
              ∙ rw (supply_now, +ℤ_cancel, supply-set_token tick x _ _ db.drc20_collect there)
                  (ground (arith, eq_iff tick x));
          absent = λ x h e.
              ((put_amt_sum-absent tick holder x h v rs).0
                ((set_amt_sum-absent tick holder x h _ rs').0 e)).1;
          undeployed = λ x e.
              (set_token-absent tick x _ _ db.drc20_collect).0
                ((set_token-absent tick x _ _ db'.drc20_collect).0 e);
        },
      )

  pub burn_undone :
      (holder : String)
      → holder ≢ ""
      → CanBurn tick holder amt tx_hash height false db
      → let db' = after_burn tick holder amt tx_hash height false db in
        (a : Db) × (undo (burn_revert tick holder amt tx_hash height false db) db' ≡ ok a)
        × Covers a db
  burn_undone holder t can =
      let rs = db.drc20_collect_address in
      let db' = after_burn tick holder amt tx_hash height false db in
      let r = burn_revert tick holder amt tx_hash height false db in
      let p : is_issue r ≡ false = ground (arith, eq_iff holder "", eq_iff "" "") in
      let q : is_burn r ≡ true = ground (arith, eq_iff holder "", eq_iff "" "") in
      let rs' = db'.drc20_collect_address in
      let v = balance tick holder rs -ℤ amt in
      let there' : IsDeployed tick db'.drc20_collect =
        IsDeployed-set_token tick tick _ _ db.drc20_collect can.deployed in
      let now = balance-set_self tick holder v rs can.held in
      let supply_now : supply tick db'.drc20_collect ≡ supply tick db.drc20_collect -ℤ amt =
        supply-set_self tick _ _ db.drc20_collect can.deployed in
      (
        after_mint tick holder amt "" (pos 0) true db',
        undo_burn r db' p q ∙ mint_drc20_success tick holder amt "" (pos 0) true db' there',
        record {
          balances = λ x h.
              balance-put_amt_sum tick holder _ rs' x h
              ∙ rw (now, -ℤ_cancel, balance-set_amt_sum tick holder x h v rs can.held)
                  (ground (arith, same_key_eq tick holder x h));
          supplies = λ x.
              supply-set_token tick x _ _ db'.drc20_collect there'
              ∙ rw
                  (supply_now, -ℤ_cancel, supply-set_token tick x _ _ db.drc20_collect can.deployed)
                  (ground (arith, eq_iff tick x));
          absent = λ x h e.
              (set_amt_sum-absent tick holder x h v rs).0
                ((put_amt_sum-absent tick holder x h _ rs').0 e).1;
          undeployed = λ x e.
              (set_token-absent tick x _ _ db.drc20_collect).0
                ((set_token-absent tick x _ _ db'.drc20_collect).0 e);
        },
      )
