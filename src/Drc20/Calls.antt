-- ===== src/Drc20/Calls.antt =====
-- storage/common.go: each DRC-20 operation is the ledger's.
use dogeuni_indexer.Prelude.{ℕ, String, true, false, ◌≡◌, some, List, eq_iff, arith, fun_ext, refl}
use dogeuni_indexer.Prelude.Int.{ℤ, pos, ◌≤ℤ◌}
use dogeuni_indexer.Models.{Drc20Collect, Db}
use dogeuni_indexer.Tokens.{find_token, set_token}
use dogeuni_indexer.Tokens.Supply.{supply, IsDeployed, find_token-set_token}
use dogeuni_indexer.Drc20.Effects.{
  CanTransfer, after_transfer, transfer_drc20_success, transfer_drc20-eq-ok, mint_drc20_success,
  mint_drc20-eq-ok, CanBurn, after_burn, burn_drc20_success, burn_drc20-eq-ok, after_mint,
}
use dogeuni_indexer.Drc20.Balances.{
  held_by, held_by-transfer_drc20, held_by-mint_drc20, held_by-burn_drc20,
}
use dogeuni_indexer.Ledger.{
  Ledger-ext, transfer, mint, burn, put, put_supply, refused, applied, spec,
}
use dogeuni_indexer.Drc20.View.{supply_of, view, view_result, run, positive-IsHeld, refines_of}

module _ (tx_hash : String) (height : ℤ) (db : Db) where
  module _ (t src dst : String) (amt : ℤ) where
    allowed-transfer :
        refused (transfer t src dst amt) (view db) ≡ false
        → CanTransfer t src dst amt tx_hash height false db
    unfolding refused view
    allowed-transfer good =
        let positive : pos 1 ≤ℤ amt = ground arith in
        let covered : amt ≤ℤ held_by t src db = ground arith in
        record {
          positive = positive;
          distinct = λ p. ground (arith, eq_iff src dst);
          held = positive-IsHeld t src amt db positive covered;
          covered = covered;
        }

    refused-transfer :
        refused (transfer t src dst amt) (view db) ≡ true
        → CanTransfer t src dst amt tx_hash height false db
        → ⊥
    unfolding refused view
    refused-transfer bad can =
        ground (arith, eq_iff src dst, can.positive, can.covered, can.distinct)

    view-after_transfer :
        CanTransfer t src dst amt tx_hash height false db
        → view (after_transfer t src dst amt tx_hash height false db)
          ≡ applied (transfer t src dst amt) (view db)
    unfolding view applied put
    view-after_transfer can =
        let (_, _, _, all) =
          held_by-transfer_drc20 t amt tx_hash height false db
            (after_transfer t src dst amt tx_hash height false db) src dst
            (transfer_drc20_success t src dst amt tx_hash height false db can) in
        Ledger-ext _ _ (fun_ext λ t'. fun_ext λ h. all t' h) refl

    pub transfer-refines :
        view_result (run (transfer t src dst amt) tx_hash height db)
        ≡ spec (transfer t src dst amt) (view db)
    unfolding run
    transfer-refines =
        refines_of (transfer t src dst amt) db _
          (λ bad db' e.
            refused-transfer bad
              (transfer_drc20-eq-ok t src dst amt tx_hash height false db db' e).0)
          (λ good.
            let can = allowed-transfer good in
            (
              _,
              transfer_drc20_success t src dst amt tx_hash height false db can,
              view-after_transfer can,
            ))

  supply_view :
      (t : String) (cs : List Drc20Collect)
      → IsDeployed t cs
      → supply_of (find_token t cs) ≡ some (supply t cs)
  unfolding supply
  supply_view t cs there = ground arith

  supply_put :
      (t : String) (v : ℤ) (n : ℕ) (cs : List Drc20Collect)
      → IsDeployed t cs
      → (t' : String)
      → supply_of (find_token t' (set_token t v n cs))
        ≡ put_supply t v (λ t''. supply_of (find_token t'' cs)) t'
  unfolding put_supply
  supply_put t v n cs there t' = ground (arith, find_token-set_token t t' v n cs, eq_iff t t')

  module _ (t holder : String) (amt : ℤ) where
    view-after_mint :
        IsDeployed t db.drc20_collect
        → view (after_mint t holder amt tx_hash height false db)
          ≡ applied (mint t holder amt) (view db)
    unfolding view applied put
    view-after_mint there =
        let e = mint_drc20_success t holder amt tx_hash height false db there in
        Ledger-ext _ _
          (fun_ext
            λ t'. fun_ext λ h. held_by-mint_drc20 t amt tx_hash height false db _ holder e t' h)
          (rw (supply_view t db.drc20_collect there)
            (fun_ext (supply_put t _ _ db.drc20_collect there)))

    pub mint-refines :
        view_result (run (mint t holder amt) tx_hash height db) ≡ spec (mint t holder amt) (view db)
    unfolding run refused view
    mint-refines =
        refines_of (mint t holder amt) db _
          (λ bad db' e.
            let (there, _) = mint_drc20-eq-ok t holder amt tx_hash height false db db' e in
            ground arith)
          (λ good.
            let there : IsDeployed t db.drc20_collect = ground arith in
            (
              _,
              mint_drc20_success t holder amt tx_hash height false db there,
              view-after_mint there,
            ))

    view-after_burn :
        CanBurn t holder amt tx_hash height false db
        → view (after_burn t holder amt tx_hash height false db)
          ≡ applied (burn t holder amt) (view db)
    unfolding view applied put
    view-after_burn can =
        let e = burn_drc20_success t holder amt tx_hash height false db can in
        Ledger-ext _ _
          (fun_ext
            λ t'. fun_ext λ h. held_by-burn_drc20 t amt tx_hash height false db _ holder e t' h)
          (rw (supply_view t db.drc20_collect can.deployed)
            (fun_ext (supply_put t _ _ db.drc20_collect can.deployed)))

    allowed-burn :
        pos 1 ≤ℤ amt
        → refused (burn t holder amt) (view db) ≡ false
        → CanBurn t holder amt tx_hash height false db
    unfolding refused view supply
    allowed-burn positive good =
        let covered : amt ≤ℤ held_by t holder db = ground arith in
        record {
          deployed = ground arith;
          held = positive-IsHeld t holder amt db positive covered;
          issued = ground arith;
          covered = covered;
        }

    refused-burn :
        refused (burn t holder amt) (view db) ≡ true
        → CanBurn t holder amt tx_hash height false db
        → ⊥
    unfolding refused view supply
    refused-burn bad can = ground (arith, can.deployed, can.issued, can.covered)

    pub burn-refines :
        pos 1 ≤ℤ amt
        → view_result (run (burn t holder amt) tx_hash height db)
          ≡ spec (burn t holder amt) (view db)
    unfolding run
    burn-refines positive =
        refines_of (burn t holder amt) db _
          (λ bad db' e.
            refused-burn bad (burn_drc20-eq-ok t holder amt tx_hash height false db db' e).0)
          (λ good.
            let can = allowed-burn positive good in
            (_, burn_drc20_success t holder amt tx_hash height false db can, view-after_burn can))
