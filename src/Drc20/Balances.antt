-- ===== src/Drc20/Balances.antt =====
-- storage/common.go: what a token operation that succeeds does to each balance.
use dogeuni_indexer.Prelude.{String, Bool, ◌≡◌, ◌≢◌, if◌then◌else◌, arith, ◌∙◌, ap}
use dogeuni_indexer.Prelude.Int.{ℤ, pos, ◌+ℤ◌, ◌-ℤ◌, ◌≤ℤ◌}
use dogeuni_indexer.Prelude.Result.{ok}
use dogeuni_indexer.Models.{Db}
use dogeuni_indexer.Holders.{same_key}
use dogeuni_indexer.Holders.Balance.{
  balance, IsHeld, balance-put_amt_sum, balance-set_amt_sum, same_key_eq, same_key_refl,
  same_key-false,
}
use dogeuni_indexer.Holders.Move.{balance-moved, IsHeld-moved, IsHeld-moved_dst}
use dogeuni_indexer.Drc20.{transfer_drc20, mint_drc20, burn_drc20}
use dogeuni_indexer.Drc20.Effects.{transfer_drc20-eq-ok, mint_drc20-eq-ok, burn_drc20-eq-ok}

-- What an address holds of a token.
abbrev pub held_by : String → String → Db → ℤ
held_by tick holder db = balance tick holder db.drc20_collect_address

module _ (tick : String) (amt : ℤ) (tx_hash : String) (height : ℤ) (fork : Bool) (db db' : Db) where
  -- A transfer that succeeds is of a positive amount, between two different addresses, the first
  -- of which has the amount; it takes the amount from the first, gives it to the second, and
  -- changes no other balance.
  pub held_by-transfer_drc20 :
      (src dst : String)
      → transfer_drc20 tick src dst amt tx_hash height fork db ≡ ok db'
      → (pos 1 ≤ℤ amt)
        × (src ≢ dst)
        × (amt ≤ℤ held_by tick src db)
        × ((t h : String)
            → held_by t h db' ≡ (
                if same_key tick src t h
                then held_by tick src db -ℤ amt
                else if same_key tick dst t h
                then held_by tick dst db +ℤ amt
                else held_by t h db))
  held_by-transfer_drc20 src dst e =
      let (can, result) = transfer_drc20-eq-ok tick src dst amt tx_hash height fork db db' e in
      (
        can.positive,
        can.distinct,
        can.covered,
        λ t h.
            ap (held_by t h) result
            ∙ balance-moved tick src dst amt db.drc20_collect_address can.held t h can.distinct,
      )

  -- Issuing adds the amount to one balance.
  pub held_by-mint_drc20 :
      (holder : String)
      → mint_drc20 tick holder amt tx_hash height fork db ≡ ok db'
      → (t h : String)
      → held_by t h db'
        ≡ (if same_key tick holder t h then held_by tick holder db +ℤ amt else held_by t h db)
  held_by-mint_drc20 holder e t h =
      let (_, result) = mint_drc20-eq-ok tick holder amt tx_hash height fork db db' e in
      ap (held_by t h) result
      ∙ balance-put_amt_sum tick holder (held_by tick holder db +ℤ amt) db.drc20_collect_address t h

  -- Burning takes the amount from one balance.
  pub held_by-burn_drc20 :
      (holder : String)
      → burn_drc20 tick holder amt tx_hash height fork db ≡ ok db'
      → (t h : String)
      → held_by t h db'
        ≡ (if same_key tick holder t h then held_by tick holder db -ℤ amt else held_by t h db)
  held_by-burn_drc20 holder e t h =
      let (can, result) = burn_drc20-eq-ok tick holder amt tx_hash height fork db db' e in
      ap (held_by t h) result
      ∙ balance-set_amt_sum tick holder t h (held_by tick holder db -ℤ amt) db.drc20_collect_address
          can.held

  -- The parts of a transfer that a caller needs, one at a time.
  module _ (src dst : String)
      (e : transfer_drc20 tick src dst amt tx_hash height fork db ≡ ok db') where
    pub transfer_src : held_by tick src db' ≡ held_by tick src db -ℤ amt
    transfer_src =
        let (_, _, _, all) = held_by-transfer_drc20 src dst e in
        all tick src ∙ rw (same_key_refl tick src)

    pub transfer_dst : held_by tick dst db' ≡ held_by tick dst db +ℤ amt
    transfer_dst =
        let (_, ne, _, all) = held_by-transfer_drc20 src dst e in
        all tick dst ∙ rw (same_key-false tick src tick dst ne, same_key_refl tick dst)

    pub transfer_other_tick : (t h : String) → tick ≢ t → held_by t h db' ≡ held_by t h db
    transfer_other_tick t h ne =
        let (_, _, _, all) = held_by-transfer_drc20 src dst e in
        all t h ∙ ground (arith, same_key_eq tick src t h, same_key_eq tick dst t h)

    pub transfer_other_holder :
        (t h : String) → src ≢ h → dst ≢ h → held_by t h db' ≡ held_by t h db
    transfer_other_holder t h p q =
        let (_, _, _, all) = held_by-transfer_drc20 src dst e in
        all t h ∙ rw (same_key-false tick src t h p, same_key-false tick dst t h q)

    pub transfer-IsHeld_src : IsHeld tick src db.drc20_collect_address
    transfer-IsHeld_src =
        let (can, _) = transfer_drc20-eq-ok tick src dst amt tx_hash height fork db db' e in
        can.held

    pub transfer-keeps_IsHeld :
        (t h : String) → IsHeld t h db.drc20_collect_address → IsHeld t h db'.drc20_collect_address
    transfer-keeps_IsHeld t h held =
        let (_, result) = transfer_drc20-eq-ok tick src dst amt tx_hash height fork db db' e in
        rw result (IsHeld-moved tick src dst amt db.drc20_collect_address t h held)

    pub transfer-IsHeld_dst : IsHeld tick dst db'.drc20_collect_address
    transfer-IsHeld_dst =
        let (_, result) = transfer_drc20-eq-ok tick src dst amt tx_hash height fork db db' e in
        rw result (IsHeld-moved_dst tick src dst amt db.drc20_collect_address)

    pub transfer_orders : db'.exchange_collect ≡ db.exchange_collect
    transfer_orders =
        let (_, result) = transfer_drc20-eq-ok tick src dst amt tx_hash height fork db db' e in
        ap (λ (x : Db). x.exchange_collect) result

    pub transfer_order_log : db'.exchange_revert ≡ db.exchange_revert
    transfer_order_log =
        let (_, result) = transfer_drc20-eq-ok tick src dst amt tx_hash height fork db db' e in
        ap (λ (x : Db). x.exchange_revert) result

    -- A transfer writes no other table than the balances and the log.
    pub transfer_pools : db'.swap_liquidity ≡ db.swap_liquidity
    transfer_pools =
        let (_, result) = transfer_drc20-eq-ok tick src dst amt tx_hash height fork db db' e in
        ap (λ (x : Db). x.swap_liquidity) result
