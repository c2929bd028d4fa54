-- ===== src/Explorer/SwapV2.antt =====
-- explorer/swap_v2.go's handlers, and the checks of pair-v2 in explorer/verifys.go.
pub mod Execute
pub mod Solid
use dogeuni_indexer.Prelude.{
  String, Bool, true, false, some, none, List, ◌∷◌, [], ◌==◌, if◌then◌else◌, ◌&&◌, ◌||◌, Option,
}
use dogeuni_indexer.Prelude.Int.{ℤ, pos, ◌+ℤ◌, ◌*ℤ◌, ltb_ℤ, leb_ℤ, eqb_ℤ}
use dogeuni_indexer.Prelude.Div.{div_ℤ}
use dogeuni_indexer.Prelude.Result.{
  Error, Result, ok, err, ◌>>=◌, ◌>>◌, fail_if, or_err, bad_amount, below_min, no_row, insufficient,
  same_tick, already_exists,
}
use dogeuni_indexer.Models.{
  SwapV2Info, SwapV2Liquidity, SwapV2Revert, Meme20Collect, Meme20CollectAddress,
  Drc20CollectAddress, WDogeInfo, Db,
}
use dogeuni_indexer.Tables.{first_where, update_where, delete_where}
use dogeuni_indexer.Holders.{find_holder}
use dogeuni_indexer.Meme20.{is_holder, is_meme}
use dogeuni_indexer.Swap.{gtb_str, exec_out}
use dogeuni_indexer.SwapV2.{
  is_drc20, pair_of, oriented_v2, reserve_of_v2, is_pair, swap_v2_create, swap_v2_add,
  swap_v2_remove, swap_v2_exec, update_v2_liquidity_fork,
}

-- The amount in the sender's row of a token of either kind.
abbrev sum_of : Result Drc20CollectAddress → Result ℤ
sum_of (err e) = err e
sum_of (ok r) = ok r.amt_sum

abbrev amt_of : Result Meme20CollectAddress → Result ℤ
amt_of (err e) = err e
amt_of (ok r) = ok r.amt

unfoldable pub balance_of : String → String → Db → Result ℤ
balance_of tick_id holder db =
    if is_drc20 tick_id
    then sum_of (or_err (find_holder tick_id holder db.drc20_collect_address) no_row)
    else amt_of (or_err (first_where (is_holder tick_id holder) db.meme20_collect_address) no_row)

unfoldable pub verify_swap_v2_create : SwapV2Info → Db → Result (Unit {0})
verify_swap_v2_create swap db = do
  fail_if (leb_ℤ swap.amt0 (pos 0) || leb_ℤ swap.amt1 (pos 0)) bad_amount
  fail_if (swap.tick0_id == swap.tick1_id) same_tick
  sum0 ← balance_of swap.tick0_id swap.holder_address db
  fail_if (ltb_ℤ sum0 swap.amt0) insufficient
  sum1 ← balance_of swap.tick1_id swap.holder_address db
  fail_if (ltb_ℤ sum1 swap.amt1) insufficient

unfoldable pub verify_swap_v2_add : SwapV2Info → Db → Result (Unit {0})
verify_swap_v2_add swap db = do
  fail_if (leb_ℤ swap.amt0 (pos 0) || leb_ℤ swap.amt1 (pos 0)) bad_amount
  swapl ← pair_of swap db
  sum0 ← balance_of swapl.tick0_id swap.holder_address db
  sum1 ← balance_of swapl.tick1_id swap.holder_address db
  fail_if (leb_ℤ (swap.amt0 *ℤ swapl.amt1) (pos 0)) bad_amount
  amount_b ← div_ℤ (swap.amt0 *ℤ swapl.amt1) swapl.amt0
  if ltb_ℤ amount_b swap.amt1_min
      then (do
        fail_if (leb_ℤ (swap.amt1 *ℤ swapl.amt0) (pos 0)) bad_amount
        amount_a ← div_ℤ (swap.amt1 *ℤ swapl.amt0) swapl.amt1
        fail_if (ltb_ℤ amount_a swap.amt0_min) below_min
        fail_if (ltb_ℤ sum0 amount_a) insufficient
        fail_if (ltb_ℤ sum1 swap.amt1) insufficient)
      else (do
        fail_if (ltb_ℤ sum0 swap.amt0) insufficient
        fail_if (ltb_ℤ sum1 amount_b) insufficient)

unfoldable pub verify_swap_v2_remove : SwapV2Info → Db → Result (Unit {0})
verify_swap_v2_remove swap db = do
  fail_if (leb_ℤ swap.liquidity (pos 0)) bad_amount
  swapl ← pair_of swap db
  fail_if (ltb_ℤ swapl.liquidity_total swap.liquidity) insufficient
  card0 ←
      or_err (first_where (is_holder swapl.pair_id swap.holder_address) db.meme20_collect_address)
        no_row
  fail_if (ltb_ℤ card0.amt swap.liquidity) insufficient

-- The sender's exchanges in the same block that were carried out.
abbrev exchanged : SwapV2Info → SwapV2Info → Bool
exchanged swap i =
    eqb_ℤ i.block_number swap.block_number
    && i.holder_address == swap.holder_address
    && i.op == "swap"
    && eqb_ℤ i.order_status (pos 0)

abbrev is_some : Option SwapV2Info → Bool
is_some none = false
is_some (some i) = true

-- Also the message with the pool's other token, which this check writes to it.
unfoldable pub verify_swap_v2_exec : SwapV2Info → Db → Result SwapV2Info
verify_swap_v2_exec swap db = do
  fail_if (leb_ℤ swap.amt0 (pos 0)) bad_amount
  swapl ← pair_of swap db
  fail_if (is_some (first_where (exchanged swap) db.swap_v2_info)) already_exists
  swap' ← oriented_v2 swap swapl
  reserve_out ← reserve_of_v2 swap'.tick1_id swapl
  reserve_in ← reserve_of_v2 swap'.tick0_id swapl
  amtout ← exec_out swap'.amt0 reserve_in reserve_out
  fail_if (ltb_ℤ amtout swap'.amt1_min) below_min
  sum0 ← balance_of swap'.tick0_id swap'.holder_address db
  fail_if (ltb_ℤ sum0 swap'.amt0) insufficient
  ok swap'

-- An unknown operation is no error.
unfoldable pub verify_swap_v2 : SwapV2Info → Db → Result SwapV2Info
verify_swap_v2 swap db =
    if swap.op == "create"
    then (verify_swap_v2_create swap db >>= λ t. ok swap)
    else if swap.op == "add"
    then (verify_swap_v2_add swap db >>= λ t. ok swap)
    else if swap.op == "remove"
    then (verify_swap_v2_remove swap db >>= λ t. ok swap)
    else if swap.op == "swap"
    then verify_swap_v2_exec swap db
    else ok swap

-- `SortTokens`, on the fields that it is called with.
unfoldable pub sort_tokens_v2 : SwapV2Info → SwapV2Info
sort_tokens_v2 s =
    if gtb_str s.tick0_id s.tick1_id
    then record s {
      tick0_id = s.tick1_id;
      tick1_id = s.tick0_id;
      amt0 = s.amt1;
      amt1 = s.amt0;
      amt0_min = s.amt1_min;
      amt1_min = s.amt0_min;
    }
    else s

-- `Where("tx_hash = ? and tx_index = ?").Updates(...)` on `swap_v2_info`.
abbrev is_order : SwapV2Info → SwapV2Info → Bool
is_order swap i = i.tx_hash == swap.tx_hash && eqb_ℤ i.tx_index swap.tx_index

abbrev update_order : SwapV2Info → (SwapV2Info → SwapV2Info) → Db → Db
update_order swap f db = record db { swap_v2_info = update_where (is_order swap) f db.swap_v2_info }

module _ (script_address : String → String) where
  unfoldable pub handle_create_v2 : SwapV2Info → Db → Result (SwapV2Info × Db)
  handle_create_v2 swap db = do
    r ← swap_v2_create script_address (sort_tokens_v2 swap) db
    ok (
      r.0,
      update_order r.0
          (λ (i : SwapV2Info). record i {
            order_status = pos 0;
            amt0_out = r.0.amt0_out;
            amt1_out = r.0.amt1_out;
            liquidity = r.0.liquidity;
          })
          r.1,
    )

  unfoldable pub handle_add_v2 : SwapV2Info → Db → Result (SwapV2Info × Db)
  handle_add_v2 swap db = do
    r ← swap_v2_add script_address swap db
    ok (
      r.0,
      update_order r.0
          (λ (i : SwapV2Info). record i {
            order_status = pos 0;
            tick0 = r.0.tick0;
            tick0_id = r.0.tick0_id;
            tick1 = r.0.tick1;
            tick1_id = r.0.tick1_id;
            amt0_out = r.0.amt0_out;
            amt1_out = r.0.amt1_out;
            liquidity = r.0.liquidity;
          })
          r.1,
    )

unfoldable pub handle_remove_v2 : SwapV2Info → Db → Result (SwapV2Info × Db)
handle_remove_v2 swap db = do
  r ← swap_v2_remove swap db
  ok (
    r.0,
    update_order r.0
        (λ (i : SwapV2Info). record i {
          order_status = pos 0;
          amt0_out = r.0.amt0_out;
          amt1_out = r.0.amt1_out;
          tick0 = r.0.tick0;
          tick0_id = r.0.tick0_id;
          tick1 = r.0.tick1;
          tick1_id = r.0.tick1_id;
        })
        r.1,
  )

unfoldable pub handle_exec_v2 : SwapV2Info → Db → Result (SwapV2Info × Db)
handle_exec_v2 swap db = do
  r ← swap_v2_exec swap db
  ok (
    r.0,
    update_order r.0
        (λ (i : SwapV2Info). record i {
          order_status = pos 0;
          amt1_out = r.0.amt1_out;
          tick0 = r.0.tick0;
          tick1 = r.0.tick1;
          tick1_id = r.0.tick1_id;
        })
        r.1,
  )
