-- ===== src/Explorer/Swap.antt =====
-- explorer/swap.go's handlers and the pool checks of explorer/verifys.go.
pub mod Execute
pub mod Limits
pub mod Solid
use dogeuni_indexer.Prelude.{
  String, Bool, true, false, some, none, List, ◌∷◌, [], ◌==◌, if◌then◌else◌, ◌&&◌, ◌||◌, Option,
}
use dogeuni_indexer.Prelude.Int.{ℤ, pos, ◌*ℤ◌, ltb_ℤ, leb_ℤ, eqb_ℤ}
use dogeuni_indexer.Prelude.Div.{div_ℤ}
use dogeuni_indexer.Prelude.Result.{
  Result, ok, err, ◌>>=◌, ◌>>◌, fail_if, or_err, bad_amount, below_min, no_row, insufficient,
  unsupported_op, same_tick, already_exists,
}
use dogeuni_indexer.Models.{SwapInfo, SwapLiquidity, Drc20CollectAddress, Db}
use dogeuni_indexer.Tables.{update_where}
use dogeuni_indexer.Holders.{find_holder}
use dogeuni_indexer.Pools.{find_pool}
use dogeuni_indexer.Swap.{
  sort_tokens, pair_tick, exec_out, reserve_of, swap_create, swap_add, swap_remove, swap_exec,
}

abbrev has_pool : Option SwapLiquidity → Bool
has_pool none = false
has_pool (some p) = true

-- `Where("tick = ? and holder_address = ?").First`
abbrev holder_of : String → String → Db → Result Drc20CollectAddress
holder_of tick holder db = or_err (find_holder tick holder db.drc20_collect_address) no_row

abbrev pool_of : SwapInfo → Db → Result SwapLiquidity
pool_of sorted db = or_err (find_pool sorted.tick0 sorted.tick1 db.swap_liquidity) no_row

unfoldable pub verify_swap_create : SwapInfo → Db → Result (Unit {0})
verify_swap_create swap db = do
  fail_if (leb_ℤ swap.amt0 (pos 0) || leb_ℤ swap.amt1 (pos 0)) bad_amount
  fail_if (swap.tick0 == swap.tick1) same_tick
  let sorted = sort_tokens swap
  fail_if (has_pool (find_pool sorted.tick0 sorted.tick1 db.swap_liquidity)) already_exists
  card0 ← holder_of sorted.tick0 swap.holder_address db
  card1 ← holder_of sorted.tick1 swap.holder_address db
  fail_if (ltb_ℤ card0.amt_sum sorted.amt0) insufficient
  fail_if (ltb_ℤ card1.amt_sum sorted.amt1) insufficient

unfoldable pub verify_swap_add : SwapInfo → Db → Result (Unit {0})
verify_swap_add swap db = do
  let sorted = sort_tokens swap
  fail_if (leb_ℤ swap.amt0 (pos 0) || leb_ℤ swap.amt1 (pos 0)) bad_amount
  fail_if (swap.tick0 == swap.tick1) same_tick
  swapl ← pool_of sorted db
  card0 ← holder_of sorted.tick0 swap.holder_address db
  card1 ← holder_of sorted.tick1 swap.holder_address db
  fail_if (leb_ℤ (sorted.amt0 *ℤ swapl.amt1) (pos 0)) bad_amount
  amount_b ← div_ℤ (sorted.amt0 *ℤ swapl.amt1) swapl.amt0
  if ltb_ℤ amount_b sorted.amt1_min
      then (do
        fail_if (leb_ℤ (sorted.amt1 *ℤ swapl.amt0) (pos 0)) bad_amount
        amount_a ← div_ℤ (sorted.amt1 *ℤ swapl.amt0) swapl.amt1
        fail_if (ltb_ℤ amount_a sorted.amt0_min) below_min
        fail_if (ltb_ℤ card0.amt_sum amount_a) insufficient
        fail_if (ltb_ℤ card1.amt_sum sorted.amt1) insufficient)
      else (do
        fail_if (ltb_ℤ card0.amt_sum sorted.amt0) insufficient
        fail_if (ltb_ℤ card1.amt_sum amount_b) insufficient)

unfoldable pub verify_swap_exec : SwapInfo → Db → Result (Unit {0})
verify_swap_exec swap db = do
  fail_if (leb_ℤ swap.amt0 (pos 0) || ltb_ℤ swap.amt1_min (pos 0)) bad_amount
  fail_if (swap.tick0 == swap.tick1) same_tick
  swapl ← pool_of (sort_tokens swap) db
  reserve_out ← reserve_of swap.tick1 swapl
  reserve_in ← reserve_of swap.tick0 swapl
  amtout ← exec_out swap.amt0 reserve_in reserve_out
  fail_if (ltb_ℤ amtout swap.amt1_min) below_min
  card0 ← holder_of swap.tick0 swap.holder_address db
  card1 ← holder_of swap.tick1 swapl.reserves_address db
  fail_if (ltb_ℤ card0.amt_sum swap.amt0) insufficient
  fail_if (ltb_ℤ card1.amt_sum amtout) insufficient

unfoldable pub verify_swap_remove : SwapInfo → Db → Result (Unit {0})
verify_swap_remove swap db = do
  fail_if (leb_ℤ swap.liquidity (pos 0)) bad_amount
  fail_if (swap.tick0 == swap.tick1) same_tick
  let sorted = sort_tokens swap
  swapl ← pool_of sorted db
  fail_if (ltb_ℤ swapl.liquidity_total swap.liquidity) insufficient
  card0 ← holder_of (pair_tick sorted.tick0 sorted.tick1) swap.holder_address db
  fail_if (ltb_ℤ card0.amt_sum swap.liquidity) insufficient

unfoldable pub verify_swap : SwapInfo → Db → Result (Unit {0})
verify_swap swap db =
    if swap.op == "create"
    then verify_swap_create swap db
    else if swap.op == "add"
    then verify_swap_add swap db
    else if swap.op == "remove"
    then verify_swap_remove swap db
    else if swap.op == "swap"
    then verify_swap_exec swap db
    else err unsupported_op

-- `Where("tx_hash = ? and tx_index = ?").Updates(...)` on `swap_info`.
abbrev is_order : SwapInfo → SwapInfo → Bool
is_order swap i = i.tx_hash == swap.tx_hash && eqb_ℤ i.tx_index swap.tx_index

abbrev update_order : SwapInfo → (SwapInfo → SwapInfo) → Db → Db
update_order swap f db = record db { swap_info = update_where (is_order swap) f db.swap_info }

abbrev all_amounts : SwapInfo → SwapInfo → SwapInfo
all_amounts swap i = record i {
  order_status = pos 0;
  amt0_out = swap.amt0_out;
  amt1_out = swap.amt1_out;
  liquidity = swap.liquidity;
}

module _ (script_address : String → String) where
  unfoldable pub handle_create : SwapInfo → Db → Result (SwapInfo × Db)
  handle_create swap db = do
    r ← swap_create script_address (sort_tokens swap) db
    ok (r.0, update_order r.0 (all_amounts r.0) r.1)

  unfoldable pub handle_add : SwapInfo → Db → Result (SwapInfo × Db)
  handle_add swap db = do
    r ← swap_add script_address (sort_tokens swap) db
    ok (r.0, update_order r.0 (all_amounts r.0) r.1)

-- Only the two tokens are sorted here.
abbrev pub sort_ticks : SwapInfo → SwapInfo
sort_ticks swap =
    let sorted = sort_tokens swap in record swap { tick0 = sorted.tick0; tick1 = sorted.tick1 }

unfoldable pub handle_remove : SwapInfo → Db → Result (SwapInfo × Db)
handle_remove swap db = do
  r ← swap_remove (sort_ticks swap) db
  ok (
    r.0,
    update_order r.0
        (λ (i : SwapInfo). record i {
          order_status = pos 0;
          amt0_out = r.0.amt0_out;
          amt1_out = r.0.amt1_out;
        })
        r.1,
  )

unfoldable pub handle_exec : SwapInfo → Db → Result (SwapInfo × Db)
handle_exec swap db = do
  r ← swap_exec swap db
  ok (
    r.0,
    update_order r.0 (λ (i : SwapInfo). record i { order_status = pos 0; amt1_out = r.0.amt1_out })
        r.1,
  )
