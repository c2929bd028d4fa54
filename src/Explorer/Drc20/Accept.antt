-- ===== src/Explorer/Drc20/Accept.antt =====
-- Which DRC-20 messages `executeDrc20` applies.
use Prim.Native.String.{len}
use dogeuni_indexer.Prelude.{
  ℕ, ◌≤◌, Option-cases, inl, inr, String, false, ◌≡◌, ◌≢◌, ◌↔◌, refl, some, arith,
}
use dogeuni_indexer.Prelude.Int.{ℤ, pos, negsuc, pos_mul, ◌+ℤ◌, ◌*ℤ◌, ◌≤ℤ◌}
use dogeuni_indexer.Prelude.Result.{ok, ◌>>=◌, >>=-eq-ok}
use dogeuni_indexer.Models.{Drc20Collect, Drc20Info, Db}
use dogeuni_indexer.Holders.Balance.{balance, IsHeld}
use dogeuni_indexer.Tokens.{find_token}
use dogeuni_indexer.Tokens.Supply.{IsDeployed}
use dogeuni_indexer.Drc20.{transfer_drc20}
use dogeuni_indexer.Drc20.Effects.{
  mint_drc20_success, transfer_drc20_success, transfer_drc20-eq-ok, after_mint, after_transfer,
}
use dogeuni_indexer.Drc20.Balances.{held_by}
use dogeuni_indexer.Explorer.Drc20.{
  verify_mint, verify_transfer, verify_drc20, drc20_mint, drc20_transfer, apply_drc20,
  execute_drc20, split_count, closed,
}

split_count_positive : (s : String) → 1 ≤ split_count s
unfolding split_count
split_count_positive String.[] = omega arith
split_count_positive (String.◌∷◌ c s) = ground (arith, split_count_positive s)

le_mul : (a : ℤ) (k : ℕ) → pos 0 ≤ℤ a → 1 ≤ k → a ≤ℤ a *ℤ pos k
le_mul (pos n) k p q = rw (pos_mul n k) (grind arith)
le_mul (negsuc n) k p q = absurd (omega arith)

module _ (m : Drc20Info) (db : Db) where
  execute_mint : m.op ≡ "mint" → execute_drc20 m db ≡ (verify_mint m db >>= λ _. drc20_mint m db)
  unfolding execute_drc20 verify_drc20 apply_drc20
  execute_mint e = rw e refl

  execute_transfer :
      m.op ≡ "transfer" → execute_drc20 m db ≡ (verify_transfer m db >>= λ _. drc20_transfer m db)
  unfolding execute_drc20 verify_drc20 apply_drc20
  execute_transfer e = rw e refl

  verify_mint-IsDeployed : verify_mint m db ≡ ok tt → IsDeployed m.tick db.drc20_collect
  unfolding verify_mint
  verify_mint-IsDeployed e = ground arith

  drc20_mint_success : IsDeployed m.tick db.drc20_collect → (db' : Db) × (drc20_mint m db ≡ ok db')
  unfolding drc20_mint
  drc20_mint_success there = (
    closed m.tx_hash
        (after_mint m.tick m.holder_address (m.amt *ℤ m.repeat) m.tx_hash m.block_number false db),
    rw (
        mint_drc20_success m.tick m.holder_address (m.amt *ℤ m.repeat) m.tx_hash m.block_number
          false db there),
  )

  -- What the checks ask of a mint, and of a transfer.
  pub record CanMint : Type 0 where
    pub token : Drc20Collect
    pub found : find_token m.tick db.drc20_collect ≡ some token
    pub long : 2 ≤ len m.tick
    pub short : len m.tick ≤ 8
    pub positive : pos 1 ≤ℤ m.amt
    pub limited : m.amt ≤ℤ token.lim
    pub capped : token.amt_sum +ℤ m.amt *ℤ m.repeat ≤ℤ token.max

  verify_mint-CanMint : verify_mint m db ≡ ok tt → CanMint
  unfolding verify_mint
  verify_mint-CanMint e = elim (Option-cases (find_token m.tick db.drc20_collect)) [
    | inl missing ↦ ground arith
    | inr (c, found) ↦ record {
      token = c;
      found = found;
      long = ground arith;
      short = ground arith;
      positive = ground arith;
      limited = ground arith;
      capped = ground arith;
    }
  ]

  CanMint-verify_mint : CanMint → verify_mint m db ≡ ok tt
  unfolding verify_mint
  CanMint-verify_mint can = ground arith

  -- A mint message is applied exactly when its token is deployed with a name of 2 to 8 bytes, its
  -- amount is positive and at most the token's limit, and what it issues, repeats included, keeps the
  -- supply within the maximum.
  pub execute_mint_iff : m.op ≡ "mint" → ((db' : Db) × (execute_drc20 m db ≡ ok db')) ↔ CanMint
  execute_mint_iff op = (
    λ (db', e).
        let (_, checked, _) = >>=-eq-ok (verify_mint m db) _ (rw (execute_mint op) at e) in
        verify_mint-CanMint checked,
    λ can.
        let checked = CanMint-verify_mint can in
        let (db', done) = drc20_mint_success (verify_mint-IsDeployed checked) in
        (db', rw (execute_mint op, checked) done),
  )

  pub record CanSend : Type 0 where
    pub positive : pos 1 ≤ℤ m.amt
    pub distinct : m.holder_address ≢ m.to_address
    pub held : IsHeld m.tick m.holder_address db.drc20_collect_address
    pub covered : m.amt *ℤ pos (split_count m.to_address) ≤ℤ held_by m.tick m.holder_address db

  verify_transfer_bounds :
      verify_transfer m db ≡ ok tt
      → (pos 1 ≤ℤ m.amt)
        × IsHeld m.tick m.holder_address db.drc20_collect_address
        × (m.amt *ℤ pos (split_count m.to_address) ≤ℤ held_by m.tick m.holder_address db)
  unfolding verify_transfer balance
  verify_transfer_bounds e = ground arith

  CanSend-verify_transfer : CanSend → verify_transfer m db ≡ ok tt
  unfolding verify_transfer balance
  CanSend-verify_transfer can = ground arith

  drc20_transfer-distinct :
      (db' : Db) → drc20_transfer m db ≡ ok db' → m.holder_address ≢ m.to_address
  unfolding drc20_transfer
  drc20_transfer-distinct db' e =
      let (d, f, _) =
        >>=-eq-ok
          (transfer_drc20 m.tick m.holder_address m.to_address m.amt m.tx_hash m.block_number false
            db)
          _ e in
      (transfer_drc20-eq-ok m.tick m.holder_address m.to_address m.amt m.tx_hash m.block_number
        false db d f).0.distinct

  drc20_transfer_success : CanSend → (db' : Db) × (drc20_transfer m db ≡ ok db')
  unfolding drc20_transfer
  drc20_transfer_success can =
      let alone =
        le_mul m.amt (split_count m.to_address) (omega (arith, can.positive))
          (split_count_positive m.to_address) in
      (
        closed m.tx_hash (
            after_transfer m.tick m.holder_address m.to_address m.amt m.tx_hash m.block_number false
              db),
        rw (
            transfer_drc20_success m.tick m.holder_address m.to_address m.amt m.tx_hash
              m.block_number false db
              (record {
                positive = can.positive;
                distinct = can.distinct;
                held = can.held;
                covered = omega (arith, alone, can.covered);
              })),
      )

  -- A transfer message is applied exactly when its amount is positive, the receiver is another
  -- address, and the sender has a row with at least the amount times one more than the commas in the
  -- receiver's text.
  pub execute_transfer_iff :
      m.op ≡ "transfer" → ((db' : Db) × (execute_drc20 m db ≡ ok db')) ↔ CanSend
  execute_transfer_iff op = (
    λ (db', e).
        let (_, checked, sent) =
          >>=-eq-ok (verify_transfer m db) _ (rw (execute_transfer op) at e) in
        let (positive, held, covered) = verify_transfer_bounds checked in
        record {
          positive = positive;
          distinct = drc20_transfer-distinct db' sent;
          held = held;
          covered = covered;
        },
    λ can.
        let (db', done) = drc20_transfer_success can in
        (db', rw (execute_transfer op, CanSend-verify_transfer can) done),
  )
