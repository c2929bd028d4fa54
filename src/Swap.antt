-- ===== src/Swap.antt =====
-- storage/swap.go, with `SortTokens` of utils/util.go: the pools of two DRC-20 tokens. The address
-- of a pool's reserves is that of a script hash, which btcutil computes: `script_address`.
pub mod Amounts
pub mod Run
pub mod Exchange
pub mod Conservation
pub mod Shares
pub mod Removal
use Prim.Native.String.{String, compare, ◌++◌ as ◌^^◌}
use Prim.Native.Nat.{Ordering}
use dogeuni_indexer.Prelude.{
  ℕ, Bool, true, false, Option, none, some, List, [], ◌∷◌, ◌++◌, ◌==◌, if◌then◌else◌, ◌&&◌, ◌||◌,
}
use dogeuni_indexer.Prelude.Int.{ℤ, pos, ◌+ℤ◌, ◌-ℤ◌, ◌*ℤ◌, ltb_ℤ, leb_ℤ}
use dogeuni_indexer.Prelude.Div.{div_ℤ, sqrt_ℤ}
use dogeuni_indexer.Prelude.Result.{
  Result, ok, err, ◌>>=◌, ◌>>◌, fail_if, or_err, no_row, minimum_liquidity, insufficient,
}
use dogeuni_indexer.Models.{Drc20Collect, SwapInfo, SwapLiquidity, SwapRevert, Db}
use dogeuni_indexer.Drc20.{transfer_drc20, mint_drc20, burn_drc20}
use dogeuni_indexer.Pools.{find_pool, update_liquidity}

-- `MINI_LIQUIDITY`
abbrev pub mini_liquidity : ℤ
mini_liquidity = pos 1000

-- `utils.MAX_NUMBER`
abbrev pub max_number : ℤ
max_number = pos 99999999999999999999999999999999999999999

-- `a > b` on strings, which Go compares byte by byte.
unfoldable pub gtb_str : String → String → Bool
gtb_str a b = elim (compare a b) [ Ordering.gt ↦ true | _ ↦ false ]

-- `SortTokens`, on the fields that it is called with.
unfoldable pub sort_tokens : SwapInfo → SwapInfo
sort_tokens s =
    if gtb_str s.tick0 s.tick1
    then record s {
      tick0 = s.tick1;
      tick1 = s.tick0;
      amt0 = s.amt1;
      amt1 = s.amt0;
      amt0_min = s.amt1_min;
      amt1_min = s.amt0_min;
    }
    else s

-- `swap.Tick0 + "-SWAP-" + swap.Tick1`
unfoldable pub pair_tick : String → String → String
pair_tick tick0 tick1 = (tick0 ^^ "-SWAP-") ^^ tick1

-- The calls of the token operations, with the message's hash and block.
abbrev pub pay : SwapInfo → String → String → String → ℤ → Db → Result Db
pay s tick src dst amt db = transfer_drc20 tick src dst amt s.tx_hash s.block_number false db

abbrev pub issue : SwapInfo → String → String → ℤ → Db → Result Db
issue s tick holder amt db = mint_drc20 tick holder amt s.tx_hash s.block_number false db

-- The liquidity that a new pool issues to its creator.
unfoldable pub first_liquidity : ℤ → ℤ → Result ℤ
first_liquidity amt0 amt1 = do
  base ← sqrt_ℤ (amt0 *ℤ amt1)
  fail_if (leb_ℤ base mini_liquidity) minimum_liquidity
  ok (base -ℤ mini_liquidity)

-- What `SwapAdd` takes of each token, for the pool's reserves.
unfoldable pub add_amounts : SwapInfo → SwapLiquidity → Result (ℤ × ℤ)
add_amounts s p = do
  amount_b ← div_ℤ (s.amt0 *ℤ p.amt1) p.amt0
  if leb_ℤ s.amt1_min amount_b && leb_ℤ amount_b s.amt1 then ok (s.amt0, amount_b) else (do
    amount_a ← div_ℤ (s.amt1 *ℤ p.amt0) p.amt1
    if leb_ℤ s.amt0_min amount_a && leb_ℤ amount_a s.amt0
        then ok (amount_a, s.amt1)
        else err insufficient)

-- The liquidity that an addition issues: the smaller of the two shares.
unfoldable pub add_liquidity : ℤ → ℤ → SwapLiquidity → Result ℤ
add_liquidity amt0_out amt1_out p = do
  liquidity0 ← div_ℤ (amt0_out *ℤ p.liquidity_total) p.amt0
  liquidity1 ← div_ℤ (amt1_out *ℤ p.liquidity_total) p.amt1
  ok (if ltb_ℤ liquidity1 liquidity0 then liquidity1 else liquidity0)

-- The share of a reserve that a removal pays out.
unfoldable pub remove_share : ℤ → ℤ → ℤ → Result ℤ
remove_share liquidity reserve total = div_ℤ (liquidity *ℤ reserve) total

-- What an exchange pays out: the fee is 3 for each whole 1000 of the input.
unfoldable pub exec_out : ℤ → ℤ → ℤ → Result ℤ
exec_out amt0 reserve_in reserve_out = do
  amtfee0 ← div_ℤ amt0 (pos 1000)
  let amtin = amt0 -ℤ amtfee0 *ℤ pos 3
  div_ℤ (amtin *ℤ reserve_out) (reserve_in +ℤ amtin)

-- `amtMap[tick]`: the second entry was written last. A missing one is nil, on which `Mul` panics.
unfoldable pub reserve_of : String → SwapLiquidity → Result ℤ
reserve_of tick p =
    if tick == p.tick1 then ok p.amt1 else if tick == p.tick0 then ok p.amt0 else err no_row

module _ (script_address : String → String) where
  unfoldable pub swap_create : SwapInfo → Db → Result (SwapInfo × Db)
  swap_create swap db = do
    let reserves_address = script_address (swap.tick0 ^^ swap.tick1)
    let tick = pair_tick swap.tick0 swap.tick1
    liquidity_base ← first_liquidity swap.amt0 swap.amt1
    let swap' = record swap {
      tick = tick;
      amt0_out = swap.amt0;
      amt1_out = swap.amt1;
      liquidity = liquidity_base;
    }
    let sl : SwapLiquidity = record {
      tick = tick;
      tick0 = swap.tick0;
      tick1 = swap.tick1;
      amt0 = pos 0;
      amt1 = pos 0;
      liquidity_total = liquidity_base;
      reserves_address = reserves_address;
      holder_address = swap.holder_address;
    }
    db1 ←
        pay swap swap.tick0 swap.holder_address reserves_address swap.amt0
          (record db { swap_liquidity = db.swap_liquidity ++ sl ∷ [] })
    db2 ← pay swap swap.tick1 swap.holder_address reserves_address swap.amt1 db1
    let drc20c : Drc20Collect = record {
      tick = tick;
      amt_sum = pos 0;
      max = max_number;
      lim = pos 0;
      dec = 8;
      holder_address = reserves_address;
      tx_hash = swap.tx_hash;
      transactions = 0;
    }
    db3 ←
        issue swap tick swap.holder_address liquidity_base
          (record db2 { drc20_collect = db2.drc20_collect ++ drc20c ∷ [] })
    db4 ← issue swap tick reserves_address mini_liquidity db3
    let db5 = update_liquidity tick db4
    let revert : SwapRevert = record {
      op = "create";
      tick = tick;
      block_number = swap.block_number;
    }
    ok (swap', record db5 { swap_revert = revert ∷ db5.swap_revert })

  unfoldable pub swap_add : SwapInfo → Db → Result (SwapInfo × Db)
  swap_add swap db = do
    let reserves_address = script_address (swap.tick0 ^^ swap.tick1)
    let tick = pair_tick swap.tick0 swap.tick1
    swapl ← or_err (find_pool swap.tick0 swap.tick1 db.swap_liquidity) no_row
    amounts ← add_amounts swap swapl
    liquidity ← add_liquidity amounts.0 amounts.1 swapl
    db1 ← pay swap swap.tick0 swap.holder_address reserves_address amounts.0 db
    db2 ← pay swap swap.tick1 swap.holder_address reserves_address amounts.1 db1
    db3 ← issue swap tick swap.holder_address liquidity db2
    ok (
      record swap { tick = tick; amt0_out = amounts.0; amt1_out = amounts.1 },
      update_liquidity tick db3,
    )

unfoldable pub swap_remove : SwapInfo → Db → Result (SwapInfo × Db)
swap_remove swap db = do
  swapl ← or_err (find_pool swap.tick0 swap.tick1 db.swap_liquidity) no_row
  amt0_out ← remove_share swap.liquidity swapl.amt0 swapl.liquidity_total
  amt1_out ← remove_share swap.liquidity swapl.amt1 swapl.liquidity_total
  fail_if (ltb_ℤ swapl.amt0 amt0_out || ltb_ℤ swapl.amt1 amt1_out) insufficient
  db1 ← pay swap swap.tick0 swapl.reserves_address swap.holder_address amt0_out db
  db2 ← pay swap swap.tick1 swapl.reserves_address swap.holder_address amt1_out db1
  db3 ←
      burn_drc20 swapl.tick swap.holder_address swap.liquidity swap.tx_hash swap.block_number false
        db2
  ok (record swap { amt0_out = amt0_out; amt1_out = amt1_out }, update_liquidity swapl.tick db3)

unfoldable pub swap_exec : SwapInfo → Db → Result (SwapInfo × Db)
swap_exec swap db = do
  let sorted = sort_tokens swap
  swapl ← or_err (find_pool sorted.tick0 sorted.tick1 db.swap_liquidity) no_row
  reserve_out ← reserve_of swap.tick1 swapl
  reserve_in ← reserve_of swap.tick0 swapl
  amtout ← exec_out swap.amt0 reserve_in reserve_out
  db1 ← pay swap swap.tick0 swap.holder_address swapl.reserves_address swap.amt0 db
  db2 ← pay swap swap.tick1 swapl.reserves_address swap.holder_address amtout db1
  ok (record swap { amt1_out = amtout }, update_liquidity swapl.tick db2)
