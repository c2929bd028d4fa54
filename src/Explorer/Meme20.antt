-- ===== src/Explorer/Meme20.antt =====
-- explorer/meme20.go and the meme20 checks of explorer/verifys.go, with `executeMeme20` and the
-- branch of `scan` that calls it (explorer/scanner.go).
use dogeuni_indexer.Prelude.{
  String, Bool, true, false, ◌&&◌, ◌||◌, Option, none, some, List, [], ◌∷◌, ◌++◌, ◌==◌,
  if◌then◌else◌,
}
use dogeuni_indexer.Prelude.Int.{pos, ltb_ℤ, leb_ℤ, eqb_ℤ}
use dogeuni_indexer.Prelude.Result.{
  Result, ok, err, ◌>>=◌, ◌>>◌, fail_if, or_err, bad_amount, no_row, insufficient, bad_tick,
  over_max, already_exists, unsupported_op,
}
use dogeuni_indexer.Models.{Meme20Info, Meme20Collect, PumpInfo, SwapV2Info, Db}
use dogeuni_indexer.Tables.{first_where, update_where}
use dogeuni_indexer.Meme20.{is_holder, is_meme, transfer_meme20}
use dogeuni_indexer.Explorer.Drc20.{max_allowed_value}

-- `Where("tx_hash = ?").Update("order_status", 0)`, and the same of `err_info` for a failed message.
abbrev pub closed : String → Db → Db
closed tx_hash db = record db {
  meme20_info =
      update_where (λ (i : Meme20Info). i.tx_hash == tx_hash)
        (λ (i : Meme20Info). record i { order_status = pos 0 }) db.meme20_info;
}

abbrev pub settle : Meme20Info → Db → Result Db → Db
settle m db (ok db') = db'
settle m db (err e) = record db {
  meme20_info =
      update_where (λ (i : Meme20Info). i.tx_hash == m.tx_hash)
        (λ (i : Meme20Info). record i { err_info = some e }) db.meme20_info;
}

unfoldable pub verify_meme20_deploy : Meme20Info → Result (Unit {0})
verify_meme20_deploy m = do
  fail_if (m.tick == "" || m.name == "") bad_tick
  fail_if (leb_ℤ m.max (pos 0)) bad_amount
  fail_if (ltb_ℤ max_allowed_value m.max) over_max

-- The trades and exchanges of the sender in the same block that were carried out.
abbrev pub traded : Meme20Info → PumpInfo → Bool
traded m i =
    eqb_ℤ i.block_number m.block_number
    && i.holder_address == m.holder_address
    && i.op == "trade"
    && eqb_ℤ i.order_status (pos 0)

abbrev pub swapped : Meme20Info → SwapV2Info → Bool
swapped m i =
    eqb_ℤ i.block_number m.block_number
    && i.holder_address == m.holder_address
    && i.op == "swap"
    && eqb_ℤ i.order_status (pos 0)

abbrev is_some {ℓ} : {A : Type ℓ} → Option A → Bool
is_some none = false
is_some (some a) = true

unfoldable pub verify_meme20_transfer : Meme20Info → Db → Result (Unit {0})
verify_meme20_transfer m db = do
  fail_if (leb_ℤ m.amt (pos 0)) bad_amount
  meme1 ←
      or_err (first_where (is_holder m.tick_id m.holder_address) db.meme20_collect_address) no_row
  fail_if (is_some (first_where (traded m) db.pump_info)) already_exists
  fail_if (is_some (first_where (swapped m) db.swap_v2_info)) already_exists
  fail_if (ltb_ℤ meme1.amt m.amt) insufficient

unfoldable pub verify_meme20 : Meme20Info → Db → Result (Unit {0})
verify_meme20 m db =
    if m.op == "deploy"
    then verify_meme20_deploy m
    else if m.op == "transfer"
    then verify_meme20_transfer m db
    else err unsupported_op

-- The token's row is updated where it is there, and created where it is not.
unfoldable pub with_meme :
    Meme20Info → Option Meme20Collect → List Meme20Collect → List Meme20Collect
with_meme m none cs =
    cs
    ++ record {
      tick_id = m.tick_id;
      tick = m.tick;
      name = m.name;
      max = m.max;
      dec = 8;
      holder_address = m.holder_address;
      transactions = 0;
    }
      ∷ []
with_meme m (some c) cs =
    update_where (is_meme m.tick_id)
      (λ (d : Meme20Collect). record d { tick = m.tick; name = m.name; max = m.max; dec = 8 }) cs

-- The deployer gets the whole supply, in a row that is created.
unfoldable pub meme_deploy : Meme20Info → Db → Result Db
meme_deploy m db = ok (
    closed m.tx_hash (record db {
      meme20_collect =
          with_meme m (first_where (is_meme m.tick_id) db.meme20_collect) db.meme20_collect;
      meme20_collect_address =
          db.meme20_collect_address
          ++ record {
            tick_id = m.tick_id;
            amt = m.max;
            holder_address = m.holder_address;
            transactions = 0;
          }
            ∷ [];
    }))

unfoldable pub meme20_transfer : Meme20Info → Db → Result Db
meme20_transfer m db = do
  db' ←
      transfer_meme20 m.tick_id m.holder_address m.to_address m.amt m.tx_hash m.block_number false
        db
  ok (closed m.tx_hash db')

unfoldable pub execute_meme20 : Meme20Info → Db → Result Db
execute_meme20 m db = do
  verify_meme20 m db
  if m.op == "deploy"
      then meme_deploy m db
      else if m.op == "transfer"
      then meme20_transfer m db
      else ok db

unfoldable pub scan_meme20 : Meme20Info → Db → Db
scan_meme20 m db = settle m db (execute_meme20 m db)
