-- ===== src/Explorer/Wdoge/Solid.antt =====
-- The wrapped-dogecoin messages keep every token's supply the sum of its balances.
use dogeuni_indexer.Prelude.{◌≡◌, refl, sym, false, inl, inr, ◌⊎◌, arith}
use dogeuni_indexer.Prelude.Int.{pos, ◌≤ℤ◌}
use dogeuni_indexer.Prelude.Result.{Result, ok, err, >>=-eq-ok, ok-eq-ok}
use dogeuni_indexer.Models.{WDogeInfo, Db}
use dogeuni_indexer.Pools.Solid.{IsSolid, same-IsSolid}
use dogeuni_indexer.Pools.Tokens.{mint_drc20-IsSolid, burn_drc20-IsSolid}
use dogeuni_indexer.Wdoge.{doge_deposit, doge_withdraw}
use dogeuni_indexer.Explorer.Wdoge.{
  verify_wdoge, verify_wdoge_deposit, wdoge_deposit, wdoge_withdraw, wdoge_deposit_swap,
  wdoge_withdraw_swap, execute_wdoge, scan_wdoge, settle,
}

module _ (w : WDogeInfo) (db db' : Db) (v : IsSolid db) where
  doge_deposit-IsSolid : pos 0 ≤ℤ w.amt → doge_deposit w db ≡ ok db' → IsSolid db'
  unfolding doge_deposit
  doge_deposit-IsSolid p e =
      mint_drc20-IsSolid w.tick w.amt w.tx_hash w.block_number false db db' v w.holder_address p e

  doge_withdraw-IsSolid : doge_withdraw w db ≡ ok db' → IsSolid db'
  unfolding doge_withdraw
  doge_withdraw-IsSolid e =
      burn_drc20-IsSolid w.tick w.amt w.tx_hash w.block_number false db db' v w.holder_address e

module _ (w : WDogeInfo) (db db' : Db) (v : IsSolid db) where
  pub wdoge_deposit_swap-IsSolid : pos 0 ≤ℤ w.amt → wdoge_deposit_swap w db ≡ ok db' → IsSolid db'
  unfolding wdoge_deposit_swap
  wdoge_deposit_swap-IsSolid p e =
      let (d, f, g) = >>=-eq-ok (doge_deposit w db) _ e in
      rw (sym (ok-eq-ok g)) (same-IsSolid refl refl refl (doge_deposit-IsSolid w db d v p f))

  pub wdoge_withdraw_swap-IsSolid : wdoge_withdraw_swap w db ≡ ok db' → IsSolid db'
  unfolding wdoge_withdraw_swap
  wdoge_withdraw_swap-IsSolid e =
      let (d, f, g) = >>=-eq-ok (doge_withdraw w db) _ e in
      rw (sym (ok-eq-ok g)) (same-IsSolid refl refl refl (doge_withdraw-IsSolid w db d v f))

  wdoge_deposit-IsSolid : pos 0 ≤ℤ w.amt → wdoge_deposit w db ≡ ok db' → IsSolid db'
  unfolding wdoge_deposit
  wdoge_deposit-IsSolid p e =
      let (d, f, g) = >>=-eq-ok (doge_deposit w db) _ e in
      rw (sym (ok-eq-ok g)) (same-IsSolid refl refl refl (doge_deposit-IsSolid w db d v p f))

  wdoge_withdraw-IsSolid : wdoge_withdraw w db ≡ ok db' → IsSolid db'
  unfolding wdoge_withdraw
  wdoge_withdraw-IsSolid e =
      let (d, f, g) = >>=-eq-ok (doge_withdraw w db) _ e in
      rw (sym (ok-eq-ok g)) (same-IsSolid refl refl refl (doge_withdraw-IsSolid w db d v f))

  execute_cases :
      execute_wdoge w db ≡ ok db'
      → ((pos 1 ≤ℤ w.amt) × (wdoge_deposit w db ≡ ok db')) ⊎ (wdoge_withdraw w db ≡ ok db')
  unfolding execute_wdoge verify_wdoge verify_wdoge_deposit
  execute_cases e = ground arith

  execute_wdoge-IsSolid : execute_wdoge w db ≡ ok db' → IsSolid db'
  execute_wdoge-IsSolid e = elim (execute_cases e) [
    | inl (p, f) ↦ wdoge_deposit-IsSolid (omega (arith, p)) f
    | inr f ↦ wdoge_withdraw-IsSolid f
  ]

settle-IsSolid :
    (w : WDogeInfo) (db : Db) (r : Result Db)
    → IsSolid db
    → ((db' : Db) → r ≡ ok db' → IsSolid db')
    → IsSolid (settle w db r)
settle-IsSolid w db (ok db') v h = h db' refl
settle-IsSolid w db (err e) v h = same-IsSolid refl refl refl v

pub scan_wdoge-IsSolid : (w : WDogeInfo) (db : Db) → IsSolid db → IsSolid (scan_wdoge w db)
unfolding scan_wdoge
scan_wdoge-IsSolid w db v =
    settle-IsSolid w db (execute_wdoge w db) v (λ db' e. execute_wdoge-IsSolid w db db' v e)
