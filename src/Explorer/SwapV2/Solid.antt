-- ===== src/Explorer/SwapV2/Solid.antt =====
-- The orders of pair-v2 keep every DRC-20 token's supply the sum of its balances, with the dogecoin
-- deposited before them and withdrawn after them.
use dogeuni_indexer.Prelude.{
  String, Bool, true, false, ◌≡◌, refl, sym, List, [], ◌∷◌, if◌then◌else◌, arith, ◌==◌, ◌||◌,
}
use dogeuni_indexer.Prelude.Int.{ℤ, pos, ◌+ℤ◌, ltb_ℤ}
use dogeuni_indexer.Prelude.Result.{
  Result, ok, err, ◌>>=◌, >>=-eq-ok, ok-eq-ok_pair, fail_if, insufficient,
}
use dogeuni_indexer.Models.{SwapV2Info, Db}
use dogeuni_indexer.Pools.Solid.{IsSolid, same-IsSolid}
use dogeuni_indexer.Pools.Calls.{
  EndsSolid, ok-EndsSolid, after-EndsSolid, if-EndsSolid, transfer-EndsSolid,
  transfer_meme20-EndsSolid, mint_meme20-EndsSolid, burn_meme20-EndsSolid,
}
use dogeuni_indexer.Swap.{first_liquidity, remove_share, exec_out}
use dogeuni_indexer.SwapV2.{
  is_drc20, pay_v2, pair_of, add_amounts_v2, add_liquidity_v2, oriented_v2, reserve_of_v2,
  update_v2_liquidity, swap_v2_create, swap_v2_add, swap_v2_remove, swap_v2_exec,
}
use dogeuni_indexer.Explorer.Wdoge.Solid.{wdoge_deposit_swap-IsSolid, wdoge_withdraw_swap-IsSolid}
use dogeuni_indexer.Explorer.SwapV2.{
  verify_swap_v2, sort_tokens_v2, handle_create_v2, handle_add_v2, handle_remove_v2, handle_exec_v2,
}
use dogeuni_indexer.Explorer.SwapV2.Execute.{
  deposits_v2, wdoge_row_v2, withdrawal_of_v2, deposit_first_v2, set_err_infos_v2, settle_v2,
  apply_order_v2, execute_order_v2, execute_orders_v2, orders_and_withdrawal_v2, scan_pair_v2,
}

-- The database that a call gives beside something else, when it succeeds, is solid.
abbrev SecondSolid {ℓ} : {T : Type ℓ} → Result (T × Db) → Type ℓ
SecondSolid {T} r = (t : T) (db' : Db) → r ≡ ok (t, db') → IsSolid db'

ok-SecondSolid {ℓ} : {T : Type ℓ} (t : T) (db : Db) → IsSolid db → SecondSolid (ok (t, db))
ok-SecondSolid t db v t' db' e = rw (sym (ok-eq-ok_pair e).1) v

after-SecondSolid {ℓ κ} :
    {T : Type ℓ} {U : Type κ} (r : Result U) (rest : U → Result (T × Db))
    → ((u : U) → r ≡ ok u → SecondSolid (rest u))
    → SecondSolid (r >>= rest)
after-SecondSolid r rest next t db' e = let (u, f, g) = >>=-eq-ok r rest e in next u f t db' g

-- A call on the database before the rest.
then-SecondSolid {ℓ} :
    {T : Type ℓ} (r : Result Db) (rest : Db → Result (T × Db))
    → EndsSolid r
    → ((d : Db) → IsSolid d → SecondSolid (rest d))
    → SecondSolid (r >>= rest)
then-SecondSolid r rest first next = after-SecondSolid r rest λ d f. next d (first d f)

pay_v2-EndsSolid :
    (s : SwapV2Info) (t src dst : String) (amt : ℤ) (db : Db)
    → IsSolid db
    → EndsSolid (pay_v2 s t src dst amt db)
unfolding pay_v2
pay_v2-EndsSolid s t src dst amt db v =
    if-EndsSolid (is_drc20 t) _ _
      (λ _. transfer-EndsSolid t amt s.tx_hash s.block_number db v src dst)
      (λ _. transfer_meme20-EndsSolid t amt s.tx_hash s.block_number db v src dst)

module _ (script_address : String → String) (s : SwapV2Info) (db : Db) (v : IsSolid db) where
  swap_v2_create-SecondSolid : SecondSolid (swap_v2_create script_address s db)
  unfolding swap_v2_create update_v2_liquidity
  swap_v2_create-SecondSolid = after-SecondSolid (first_liquidity s.amt0 s.amt1) _ (λ l _.
      then-SecondSolid _ _ (pay_v2-EndsSolid s _ _ _ _ _ (same-IsSolid refl refl refl v)) (λ d1 v1.
        then-SecondSolid _ _ (pay_v2-EndsSolid s _ _ _ _ d1 v1) (λ d2 v2.
          then-SecondSolid _ _ (mint_meme20-EndsSolid _ _ _ _ _ (same-IsSolid refl refl refl v2) _)
            (λ d3 v3.
              then-SecondSolid _ _ (mint_meme20-EndsSolid _ _ _ _ d3 v3 _)
                (λ d4 v4. ok-SecondSolid _ _ (same-IsSolid refl refl refl v4))))))

  swap_v2_add-SecondSolid : SecondSolid (swap_v2_add script_address s db)
  unfolding swap_v2_add update_v2_liquidity
  swap_v2_add-SecondSolid = after-SecondSolid (pair_of s db) _ (λ p _.
      after-SecondSolid (add_amounts_v2 s p) _ (λ a _.
        after-SecondSolid (add_liquidity_v2 a.0 a.1 p) _ (λ l _.
          then-SecondSolid _ _ (pay_v2-EndsSolid s _ _ _ _ db v) (λ d1 v1.
            then-SecondSolid _ _ (pay_v2-EndsSolid s _ _ _ _ d1 v1) (λ d2 v2.
              then-SecondSolid _ _ (mint_meme20-EndsSolid _ _ _ _ d2 v2 _)
                (λ d3 v3. ok-SecondSolid _ _ (same-IsSolid refl refl refl v3)))))))

swap_v2_remove-SecondSolid :
    (s : SwapV2Info) (db : Db) → IsSolid db → SecondSolid (swap_v2_remove s db)
unfolding swap_v2_remove update_v2_liquidity
swap_v2_remove-SecondSolid s db v = after-SecondSolid (pair_of s db) _ (λ p _.
    after-SecondSolid (remove_share s.liquidity p.amt0 p.liquidity_total) _ (λ a _.
      after-SecondSolid (remove_share s.liquidity p.amt1 p.liquidity_total) _ (λ b _.
        after-SecondSolid (fail_if (ltb_ℤ p.amt0 a || ltb_ℤ p.amt1 b) insufficient) _ (λ u _.
          then-SecondSolid _ _ (pay_v2-EndsSolid s _ _ _ _ db v) (λ d1 v1.
            then-SecondSolid _ _ (pay_v2-EndsSolid s _ _ _ _ d1 v1) (λ d2 v2.
              then-SecondSolid _ _ (burn_meme20-EndsSolid _ _ _ _ d2 v2 _)
                (λ d3 v3. ok-SecondSolid _ _ (same-IsSolid refl refl refl v3))))))))

swap_v2_exec-SecondSolid : (s : SwapV2Info) (db : Db) → IsSolid db → SecondSolid (swap_v2_exec s db)
unfolding swap_v2_exec update_v2_liquidity
swap_v2_exec-SecondSolid s db v = after-SecondSolid (pair_of s db) _ (λ p _.
    after-SecondSolid (oriented_v2 s p) _ (λ s' _.
      after-SecondSolid (reserve_of_v2 s'.tick1_id p) _ (λ ro _.
        after-SecondSolid (reserve_of_v2 s'.tick0_id p) _ (λ ri _.
          after-SecondSolid (exec_out s'.amt0 ri ro) _ (λ out _.
            then-SecondSolid _ _ (pay_v2-EndsSolid s' _ _ _ _ db v) (λ d1 v1.
              then-SecondSolid _ _ (pay_v2-EndsSolid s' _ _ _ _ d1 v1)
                (λ d2 v2. ok-SecondSolid _ _ (same-IsSolid refl refl refl v2))))))))

-- A handler runs an operation and updates the message's row.
handled-SecondSolid :
    (r : Result (SwapV2Info × Db)) (f : SwapV2Info × Db → Db)
    → SecondSolid r
    → ((p : SwapV2Info × Db) → IsSolid p.1 → IsSolid (f p))
    → SecondSolid (r >>= λ p. ok (p.0, f p))
handled-SecondSolid r f first keeps =
    after-SecondSolid r _ λ p e. ok-SecondSolid p.0 (f p) (keeps p (first p.0 p.1 e))

if-SecondSolid {ℓ} :
    {T : Type ℓ} (b : Bool) (x y : Result (T × Db))
    → SecondSolid x
    → SecondSolid y
    → SecondSolid (if b then x else y)
if-SecondSolid true x y p q = p
if-SecondSolid false x y p q = q

module _ (script_address : String → String) where
  apply_order_v2-SecondSolid :
      (s : SwapV2Info) (db : Db) → IsSolid db → SecondSolid (apply_order_v2 script_address s db)
  unfolding apply_order_v2 handle_create_v2 handle_add_v2 handle_remove_v2 handle_exec_v2
  apply_order_v2-SecondSolid s db v =
      if-SecondSolid (s.op == "create") _ _
        (handled-SecondSolid _ _ (swap_v2_create-SecondSolid script_address (sort_tokens_v2 s) db v)
          (λ p w. same-IsSolid refl refl refl w))
        (if-SecondSolid (s.op == "add") _ _
          (handled-SecondSolid _ _ (swap_v2_add-SecondSolid script_address s db v)
            (λ p w. same-IsSolid refl refl refl w))
          (if-SecondSolid (s.op == "remove") _ _
            (handled-SecondSolid _ _ (swap_v2_remove-SecondSolid s db v)
              (λ p w. same-IsSolid refl refl refl w))
            (if-SecondSolid (s.op == "swap") _ _
              (handled-SecondSolid _ _ (swap_v2_exec-SecondSolid s db v)
                (λ p w. same-IsSolid refl refl refl w))
              (ok-SecondSolid s db v))))

  execute_orders_v2-SecondSolid :
      (ss : List SwapV2Info) (withdrawn : ℤ) (db : Db)
      → IsSolid db
      → SecondSolid (execute_orders_v2 script_address ss withdrawn db)
  unfolding execute_orders_v2 execute_order_v2
  execute_orders_v2-SecondSolid [] withdrawn db v = ok-SecondSolid withdrawn db v
  execute_orders_v2-SecondSolid (s ∷ ss) withdrawn db v =
      after-SecondSolid (execute_order_v2 script_address s db) _ (λ r e.
        execute_orders_v2-SecondSolid ss (withdrawn +ℤ withdrawal_of_v2 r.0) r.1 (
          after-SecondSolid (verify_swap_v2 s db) _ (λ s' _. apply_order_v2-SecondSolid s' db v) r.0
            r.1 e))

  orders_and_withdrawal_v2-EndsSolid :
      (first : SwapV2Info) (ss : List SwapV2Info) (db : Db)
      → IsSolid db
      → EndsSolid (orders_and_withdrawal_v2 script_address first ss db)
  unfolding orders_and_withdrawal_v2
  orders_and_withdrawal_v2-EndsSolid first ss db v =
      after-EndsSolid (execute_orders_v2 script_address ss (pos 0) db) _ (λ r e.
        let w = execute_orders_v2-SecondSolid ss (pos 0) db v r.0 r.1 e in
        if-EndsSolid (ltb_ℤ (pos 0) r.0) _ _
          (λ _ db' f.
            wdoge_withdraw_swap-IsSolid (wdoge_row_v2 "withdraw-swap" first r.0) r.1 db' w f)
          (λ _. ok-EndsSolid r.1 w))

  deposit_first_v2-EndsSolid :
      (first : SwapV2Info) (amt : ℤ) (db : Db)
      → IsSolid db
      → EndsSolid (deposit_first_v2 first amt db)
  unfolding deposit_first_v2
  deposit_first_v2-EndsSolid first amt db v =
      if-EndsSolid (ltb_ℤ (pos 0) amt) _ _
        (λ p db' f.
          wdoge_deposit_swap-IsSolid (wdoge_row_v2 "deposit-swap" first amt) db db' v (ground arith)
            f)
        (λ _. ok-EndsSolid db v)

  settle_v2-IsSolid :
      (tx_hash : String) (db : Db) (r : Result Db)
      → IsSolid db
      → EndsSolid r
      → IsSolid (settle_v2 tx_hash db r)
  settle_v2-IsSolid tx_hash db (ok db') v h = h db' refl
  settle_v2-IsSolid tx_hash db (err e) v h = same-IsSolid refl refl refl v

  -- The two transactions, after the first loop.
  two_transactions :
      (first : SwapV2Info) (swaps : List SwapV2Info) (db : Db) (r : Result Db)
      → IsSolid db
      → EndsSolid r
      → IsSolid (elim r [
        | err e ↦ set_err_infos_v2 first.tx_hash e db
        | ok db1 ↦
            settle_v2 first.tx_hash db1 (orders_and_withdrawal_v2 script_address first swaps db1)
      ])
  two_transactions first swaps db (err e) v h = same-IsSolid refl refl refl v
  two_transactions first swaps db (ok db1) v h =
      let w = h db1 refl in
      settle_v2-IsSolid first.tx_hash db1 _ w (orders_and_withdrawal_v2-EndsSolid first swaps db1 w)

  pub scan_pair_v2-IsSolid :
      (first : SwapV2Info) (rest : List SwapV2Info) (db : Db)
      → IsSolid db
      → IsSolid (scan_pair_v2 script_address first rest db)
  unfolding scan_pair_v2
  scan_pair_v2-IsSolid first rest db v = go (deposits_v2 (first ∷ rest) db)
    where
      go :
          (r : Result (List SwapV2Info × ℤ))
          → IsSolid (elim r [
            | err e ↦ set_err_infos_v2 first.tx_hash e db
            | ok (swaps, amt) ↦ elim (deposit_first_v2 first amt db) [
              | err e ↦ set_err_infos_v2 first.tx_hash e db
              | ok db1 ↦
                  settle_v2 first.tx_hash db1
                    (orders_and_withdrawal_v2 script_address first swaps db1)
            ]
          ])
      go (err e) = same-IsSolid refl refl refl v
      go (ok (swaps, amt)) =
          two_transactions first swaps db (deposit_first_v2 first amt db) v
            (deposit_first_v2-EndsSolid first amt db v)
