-- ===== src/SwapV2.antt =====
-- storage/swap_v2.go: the pools of two tokens, each of DRC-20 or of meme20, whose shares are a meme20
-- token under the pair's id. `SummarySwapV2`, which keeps prices and whose error is only logged, is
-- left out.
pub mod Pay
pub mod Issue
pub mod Run
pub mod Addition
pub mod Exchange
use Prim.Native.String.{String, len}
use dogeuni_indexer.Prelude.{
  ℕ, Bool, Option, none, some, List, [], ◌∷◌, ◌++◌, ◌==◌, if◌then◌else◌, ◌&&◌, ◌||◌, ltb, false,
}
use dogeuni_indexer.Prelude.Int.{ℤ, pos, ◌+ℤ◌, ◌*ℤ◌, ltb_ℤ, leb_ℤ}
use dogeuni_indexer.Prelude.Div.{div_ℤ}
use dogeuni_indexer.Prelude.Result.{
  Result, ok, err, ◌>>=◌, ◌>>◌, fail_if, or_err, no_row, insufficient,
}
use dogeuni_indexer.Models.{
  Drc20CollectAddress, Meme20Collect, Meme20CollectAddress, SwapV2Info, SwapV2Liquidity,
  SwapV2Revert, Db,
}
use dogeuni_indexer.Tables.{first_where, update_where}
use dogeuni_indexer.Holders.{find_holder}
use dogeuni_indexer.Drc20.{transfer_drc20}
use dogeuni_indexer.Meme20.{is_holder, is_meme, transfer_meme20, mint_meme20, burn_meme20}
use dogeuni_indexer.Swap.{mini_liquidity, first_liquidity, remove_share, exec_out}

-- `MEMETICKID_LENGTH`
abbrev pub memetickid_length : ℕ
memetickid_length = 64

-- `len(tickId) < MEMETICKID_LENGTH`
unfoldable pub is_drc20 : String → Bool
is_drc20 tick_id = ltb (len tick_id) memetickid_length

-- A transfer of either kind of token, with the message's hash and block.
unfoldable pub pay_v2 : SwapV2Info → String → String → String → ℤ → Db → Result Db
pay_v2 s tick_id src dst amt db =
    if is_drc20 tick_id
    then transfer_drc20 tick_id src dst amt s.tx_hash s.block_number false db
    else transfer_meme20 tick_id src dst amt s.tx_hash s.block_number false db

abbrev pub issue_v2 : SwapV2Info → String → ℤ → Db → Result Db
issue_v2 s holder amt db = mint_meme20 s.pair_id holder amt s.tx_hash s.block_number false db

unfoldable pub is_pair : String → SwapV2Liquidity → Bool
is_pair pair_id p = p.pair_id == pair_id

-- `Where("pair_id = ?").First`
abbrev pub pair_of : SwapV2Info → Db → Result SwapV2Liquidity
pair_of swap db = or_err (first_where (is_pair swap.pair_id) db.swap_v2_liquidity) no_row

-- `UpdateV2Liquidity` on one pool: an amount is what the reserves hold of the token, where there is
-- a row for it in the table of the DRC-20 balances, and then where there is one in that of meme20.
abbrev pub or_drc20 : ℤ → Option Drc20CollectAddress → ℤ
or_drc20 amt none = amt
or_drc20 amt (some r) = r.amt_sum

abbrev pub or_meme20 : ℤ → Option Meme20CollectAddress → ℤ
or_meme20 amt none = amt
or_meme20 amt (some r) = r.amt

unfoldable pub reserve_v2 : String → String → ℤ → Db → ℤ
reserve_v2 tick_id reserves_address amt db =
    or_meme20 (or_drc20 amt (find_holder tick_id reserves_address db.drc20_collect_address))
      (first_where (is_holder tick_id reserves_address) db.meme20_collect_address)

-- The supply of the shares, with 0 for the NULL of a token that has no row.
unfoldable pub total_v2 : String → Db → ℤ
total_v2 pair_id db = elim (first_where (is_meme pair_id) db.meme20_collect) [
  | none ↦ pos 0
  | some c ↦ c.max
]

unfoldable pub refresh_v2 : Db → SwapV2Liquidity → SwapV2Liquidity
refresh_v2 db p = record p {
  amt0 = reserve_v2 p.tick0_id p.reserves_address p.amt0 db;
  amt1 = reserve_v2 p.tick1_id p.reserves_address p.amt1 db;
  liquidity_total = total_v2 p.pair_id db;
}

unfoldable pub update_v2_liquidity : String → Db → Db
update_v2_liquidity pair_id db = record db {
  swap_v2_liquidity = update_where (is_pair pair_id) (refresh_v2 db) db.swap_v2_liquidity;
}

-- `UpdateV2LiquidityFork`: every pool.
unfoldable pub refresh_all_v2 : Db → List SwapV2Liquidity → List SwapV2Liquidity
refresh_all_v2 db [] = []
refresh_all_v2 db (p ∷ ps) = refresh_v2 db p ∷ refresh_all_v2 db ps

unfoldable pub update_v2_liquidity_fork : Db → Db
update_v2_liquidity_fork db = record db {
  swap_v2_liquidity = refresh_all_v2 db db.swap_v2_liquidity;
}

-- What an addition counts of each token.
unfoldable pub add_amounts_v2 : SwapV2Info → SwapV2Liquidity → Result (ℤ × ℤ)
add_amounts_v2 s p = do
  amount_b ← div_ℤ (s.amt0 *ℤ p.amt1) p.amt0
  if leb_ℤ s.amt1_min amount_b && leb_ℤ amount_b s.amt1 then ok (s.amt0, amount_b) else (do
    amount_a ← div_ℤ (s.amt1 *ℤ p.amt0) p.amt1
    if leb_ℤ s.amt0_min amount_a && leb_ℤ amount_a s.amt0
        then ok (amount_a, s.amt1)
        else err insufficient)

unfoldable pub add_liquidity_v2 : ℤ → ℤ → SwapV2Liquidity → Result ℤ
add_liquidity_v2 amt0_out amt1_out p = do
  liquidity0 ← div_ℤ (amt0_out *ℤ p.liquidity_total) p.amt0
  liquidity1 ← div_ℤ (amt1_out *ℤ p.liquidity_total) p.amt1
  ok (if ltb_ℤ liquidity1 liquidity0 then liquidity1 else liquidity0)

-- The message with the pool's tokens, in the pool's order.
abbrev pub with_ticks : SwapV2Info → SwapV2Liquidity → SwapV2Info
with_ticks s p = record s {
  tick0 = p.tick0;
  tick0_id = p.tick0_id;
  tick1 = p.tick1;
  tick1_id = p.tick1_id;
}

-- The message with the pool's other token as its output.
unfoldable pub oriented_v2 : SwapV2Info → SwapV2Liquidity → Result SwapV2Info
oriented_v2 s p =
    if s.tick0_id == p.tick0_id
    then ok (record s { tick0 = p.tick0; tick1 = p.tick1; tick1_id = p.tick1_id })
    else if s.tick0_id == p.tick1_id
    then ok (record s { tick1_id = p.tick0_id; tick0 = p.tick1; tick1 = p.tick0 })
    else err no_row

-- `amtMap[tickId]`: the second entry was written last. A missing one is nil, on which `Mul` panics.
unfoldable pub reserve_of_v2 : String → SwapV2Liquidity → Result ℤ
reserve_of_v2 tick_id p =
    if tick_id == p.tick1_id
    then ok p.amt1
    else if tick_id == p.tick0_id
    then ok p.amt0
    else err no_row

module _ (script_address : String → String) where
  unfoldable pub swap_v2_create : SwapV2Info → Db → Result (SwapV2Info × Db)
  swap_v2_create swap db = do
    let reserves_address = script_address swap.pair_id
    liquidity_base ← first_liquidity swap.amt0 swap.amt1
    let swap' = record swap {
      amt0_out = swap.amt0;
      amt1_out = swap.amt1;
      liquidity = liquidity_base;
    }
    let sl : SwapV2Liquidity = record {
      pair_id = swap.pair_id;
      tick0_id = swap.tick0_id;
      tick1_id = swap.tick1_id;
      tick0 = swap.tick0;
      tick1 = swap.tick1;
      amt0 = pos 0;
      amt1 = pos 0;
      liquidity_total = liquidity_base;
      reserves_address = reserves_address;
      holder_address = swap.holder_address;
    }
    db1 ←
        pay_v2 swap swap.tick0_id swap.holder_address reserves_address swap.amt0
          (record db { swap_v2_liquidity = db.swap_v2_liquidity ++ sl ∷ [] })
    db2 ← pay_v2 swap swap.tick1_id swap.holder_address reserves_address swap.amt1 db1
    let meme20c : Meme20Collect = record {
      tick_id = swap.pair_id;
      tick = "Liquidity Provider";
      name = "";
      max = pos 0;
      dec = 8;
      holder_address = reserves_address;
      transactions = 0;
    }
    db3 ←
        issue_v2 swap swap.holder_address liquidity_base
          (record db2 { meme20_collect = db2.meme20_collect ++ meme20c ∷ [] })
    db4 ← issue_v2 swap reserves_address mini_liquidity db3
    let db5 = update_v2_liquidity swap.pair_id db4
    let revert : SwapV2Revert = record {
      op = "create";
      pair_id = swap.pair_id;
      block_number = swap.block_number;
    }
    ok (swap', record db5 { swap_v2_revert = revert ∷ db5.swap_v2_revert })

  -- The transfers take the whole amounts of the message, not those that the shares are for.
  unfoldable pub swap_v2_add : SwapV2Info → Db → Result (SwapV2Info × Db)
  swap_v2_add swap db = do
    let reserves_address = script_address swap.pair_id
    swapl ← pair_of swap db
    amounts ← add_amounts_v2 swap swapl
    liquidity ← add_liquidity_v2 amounts.0 amounts.1 swapl
    db1 ← pay_v2 swap swapl.tick0_id swap.holder_address reserves_address swap.amt0 db
    db2 ← pay_v2 swap swapl.tick1_id swap.holder_address reserves_address swap.amt1 db1
    db3 ←
        mint_meme20 swapl.pair_id swap.holder_address liquidity swap.tx_hash swap.block_number false
          db2
    ok (
      record (with_ticks swap swapl) {
        amt0_out = amounts.0;
        amt1_out = amounts.1;
        liquidity = liquidity;
      },
      update_v2_liquidity swap.pair_id db3,
    )

unfoldable pub swap_v2_remove : SwapV2Info → Db → Result (SwapV2Info × Db)
swap_v2_remove swap db = do
  swapl ← pair_of swap db
  amt0_out ← remove_share swap.liquidity swapl.amt0 swapl.liquidity_total
  amt1_out ← remove_share swap.liquidity swapl.amt1 swapl.liquidity_total
  fail_if (ltb_ℤ swapl.amt0 amt0_out || ltb_ℤ swapl.amt1 amt1_out) insufficient
  db1 ← pay_v2 swap swapl.tick0_id swapl.reserves_address swap.holder_address amt0_out db
  db2 ← pay_v2 swap swapl.tick1_id swapl.reserves_address swap.holder_address amt1_out db1
  db3 ←
      burn_meme20 swapl.pair_id swap.holder_address swap.liquidity swap.tx_hash swap.block_number
        false db2
  ok (
    record (with_ticks swap swapl) { amt0_out = amt0_out; amt1_out = amt1_out },
    update_v2_liquidity swap.pair_id db3,
  )

unfoldable pub swap_v2_exec : SwapV2Info → Db → Result (SwapV2Info × Db)
swap_v2_exec swap db = do
  swapl ← pair_of swap db
  swap' ← oriented_v2 swap swapl
  reserve_out ← reserve_of_v2 swap'.tick1_id swapl
  reserve_in ← reserve_of_v2 swap'.tick0_id swapl
  amtout ← exec_out swap'.amt0 reserve_in reserve_out
  db1 ← pay_v2 swap' swap'.tick0_id swap'.holder_address swapl.reserves_address swap'.amt0 db
  db2 ← pay_v2 swap' swap'.tick1_id swapl.reserves_address swap'.holder_address amtout db1
  ok (record swap' { amt1_out = amtout }, update_v2_liquidity swap'.pair_id db2)
