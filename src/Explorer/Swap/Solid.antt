-- ===== src/Explorer/Swap/Solid.antt =====
-- A transaction's orders on the pools keep every token's supply the sum of its balances, with the
-- dogecoin deposited before them and withdrawn after them.
use dogeuni_indexer.Prelude.{
  String, ◌≡◌, refl, sym, inl, inr, ◌⊎◌, List, [], ◌∷◌, arith, Bool-cases,
}
use dogeuni_indexer.Prelude.Int.{ℤ, pos, ◌+ℤ◌, ◌≤ℤ◌, ltb_ℤ}
use dogeuni_indexer.Prelude.Result.{Result, ok, err, >>=-eq-ok, ok-eq-ok, ok-eq-ok_pair}
use dogeuni_indexer.Models.{SwapInfo, Db}
use dogeuni_indexer.Pools.Solid.{IsSolid, same-IsSolid}
use dogeuni_indexer.Swap.{sort_tokens, swap_create, swap_add, swap_remove, swap_exec}
use dogeuni_indexer.Swap.Conservation.{
  swap_create-IsSolid, swap_add-IsSolid, swap_remove-IsSolid, swap_exec-IsSolid,
}
use dogeuni_indexer.Explorer.Wdoge.Solid.{wdoge_deposit_swap-IsSolid, wdoge_withdraw_swap-IsSolid}
use dogeuni_indexer.Explorer.Swap.{
  verify_swap, handle_create, handle_add, handle_remove, handle_exec, sort_ticks,
}
use dogeuni_indexer.Explorer.Swap.Execute.{
  deposits, deposit_row, withdraw_row, withdrawal_of, execute_order, execute_orders,
  orders_and_withdrawal, deposit_first, set_err_infos, settle, scan_pair_v1,
}

module _ (script_address : String → String) where
  module _ (s s' : SwapInfo) (db db' : Db) (v : IsSolid db) where
    handle_create-IsSolid : handle_create script_address s db ≡ ok (s', db') → IsSolid db'
    unfolding handle_create
    handle_create-IsSolid e =
        let (r, f, g) = >>=-eq-ok (swap_create script_address (sort_tokens s) db) _ e in
        rw (sym (ok-eq-ok_pair g).1) (
          same-IsSolid refl refl refl
            (swap_create-IsSolid script_address (sort_tokens s) r.0 db r.1 v f))

    handle_add-IsSolid : handle_add script_address s db ≡ ok (s', db') → IsSolid db'
    unfolding handle_add
    handle_add-IsSolid e =
        let (r, f, g) = >>=-eq-ok (swap_add script_address (sort_tokens s) db) _ e in
        rw (sym (ok-eq-ok_pair g).1) (
          same-IsSolid refl refl refl
            (swap_add-IsSolid script_address (sort_tokens s) r.0 db r.1 v f))

    handle_remove-IsSolid : handle_remove s db ≡ ok (s', db') → IsSolid db'
    unfolding handle_remove
    handle_remove-IsSolid e =
        let (r, f, g) = >>=-eq-ok (swap_remove (sort_ticks s) db) _ e in
        rw (sym (ok-eq-ok_pair g).1)
          (same-IsSolid refl refl refl (swap_remove-IsSolid (sort_ticks s) r.0 db r.1 v f))

    handle_exec-IsSolid : handle_exec s db ≡ ok (s', db') → IsSolid db'
    unfolding handle_exec
    handle_exec-IsSolid e =
        let (r, f, g) = >>=-eq-ok (swap_exec s db) _ e in
        rw (sym (ok-eq-ok_pair g).1)
          (same-IsSolid refl refl refl (swap_exec-IsSolid s r.0 db r.1 v f))

    -- The handler that carried out an order.
    execute_order_cases :
        execute_order script_address s db ≡ ok (s', db')
        → (handle_create script_address s db ≡ ok (s', db'))
          ⊎ (handle_add script_address s db ≡ ok (s', db'))
          ⊎ (handle_remove s db ≡ ok (s', db'))
          ⊎ (handle_exec s db ≡ ok (s', db'))
    unfolding execute_order verify_swap
    execute_order_cases e = ground arith

    execute_order-IsSolid : execute_order script_address s db ≡ ok (s', db') → IsSolid db'
    execute_order-IsSolid e = elim (execute_order_cases e) [
      | inl f ↦ handle_create-IsSolid f
      | inr (inl f) ↦ handle_add-IsSolid f
      | inr (inr (inl f)) ↦ handle_remove-IsSolid f
      | inr (inr (inr f)) ↦ handle_exec-IsSolid f
    ]

  execute_orders-IsSolid :
      (ss : List SwapInfo) (n m : ℤ) (db db' : Db)
      → IsSolid db
      → execute_orders script_address ss n db ≡ ok (m, db')
      → IsSolid db'
  unfolding execute_orders
  execute_orders-IsSolid [] n m db db' v e = rw (sym (ok-eq-ok_pair e).1) v
  execute_orders-IsSolid (s ∷ ss) n m db db' v e =
      let (r, f, g) = >>=-eq-ok (execute_order script_address s db) _ e in
      execute_orders-IsSolid ss (n +ℤ withdrawal_of r.0) m r.1 db'
        (execute_order-IsSolid s r.0 db r.1 v f) g

  orders_and_withdrawal-IsSolid :
      (first : SwapInfo) (ss : List SwapInfo) (db db' : Db)
      → IsSolid db
      → orders_and_withdrawal script_address first ss db ≡ ok db'
      → IsSolid db'
  unfolding orders_and_withdrawal
  orders_and_withdrawal-IsSolid first ss db db' v e =
      let (r, f, g) = >>=-eq-ok (execute_orders script_address ss (pos 0) db) _ e in
      let w = execute_orders-IsSolid ss (pos 0) r.0 db r.1 v f in
      elim (Bool-cases (ltb_ℤ (pos 0) r.0)) [
        | inl some_left ↦
            wdoge_withdraw_swap-IsSolid (withdraw_row first r.0) r.1 db' w (rw some_left at g)
        | inr nothing ↦ rw (sym (ok-eq-ok (rw nothing at g))) w
      ]

  deposit_first-IsSolid :
      (first : SwapInfo) (ss : List SwapInfo) (db db' : Db)
      → IsSolid db
      → deposit_first first ss db ≡ ok db'
      → IsSolid db'
  unfolding deposit_first
  deposit_first-IsSolid first ss db db' v e = elim (Bool-cases (ltb_ℤ (pos 0) (deposits ss))) [
    | inl p ↦
        let positive : pos 0 ≤ℤ deposits ss = ground arith in
        wdoge_deposit_swap-IsSolid (deposit_row first (deposits ss)) db db' v positive (rw p at e)
    | inr nothing ↦ rw (sym (ok-eq-ok (rw nothing at e))) v
  ]

  settle-IsSolid :
      (tx_hash : String) (db : Db) (r : Result Db)
      → IsSolid db
      → ((db' : Db) → r ≡ ok db' → IsSolid db')
      → IsSolid (settle tx_hash db r)
  unfolding set_err_infos
  settle-IsSolid tx_hash db (ok db') v h = h db' refl
  settle-IsSolid tx_hash db (err e) v h = same-IsSolid refl refl refl v

  second-IsSolid :
      (first : SwapInfo) (rest : List SwapInfo) (db : Db) (r : Result Db)
      → IsSolid db
      → ((db' : Db) → r ≡ ok db' → IsSolid db')
      → IsSolid (elim r [
        | err e ↦ set_err_infos first.tx_hash e db
        | ok db1 ↦
            settle first.tx_hash db1 (orders_and_withdrawal script_address first (first ∷ rest) db1)
      ])
  unfolding set_err_infos
  second-IsSolid first rest db (ok db1) v h =
      settle-IsSolid first.tx_hash db1
        (orders_and_withdrawal script_address first (first ∷ rest) db1) (h db1 refl)
        (λ db' e. orders_and_withdrawal-IsSolid first (first ∷ rest) db1 db' (h db1 refl) e)
  second-IsSolid first rest db (err e) v h = same-IsSolid refl refl refl v

  pub scan_pair_v1-IsSolid :
      (first : SwapInfo) (rest : List SwapInfo) (db : Db)
      → IsSolid db
      → IsSolid (scan_pair_v1 script_address first rest db)
  unfolding scan_pair_v1
  scan_pair_v1-IsSolid first rest db v =
      second-IsSolid first rest db (deposit_first first (first ∷ rest) db) v
        (λ db' e. deposit_first-IsSolid first (first ∷ rest) db db' v e)
