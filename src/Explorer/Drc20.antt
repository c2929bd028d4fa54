-- ===== src/Explorer/Drc20.antt =====
-- explorer/drc20.go and the DRC-20 checks of explorer/verifys.go, with `executeDrc20` and the
-- branch of `scan` that calls it (explorer/scanner.go). A handler runs in one transaction: on an
-- error it is rolled back, and the database is the one before.
pub mod Cap
pub mod Accept
pub mod Solid
use Prim.Native.String.{String, len}
use Prim.Native.String
use Prim.Native.Char.{code}
use Prim.Native.Nat.{compare, Ordering}
use dogeuni_indexer.Prelude.{
  ℕ, suc, ◌+◌, Bool, true, false, Option, none, some, List, [], ◌∷◌, ◌++◌, ◌==◌, if◌then◌else◌, ltb,
  ◌||◌,
}
use dogeuni_indexer.Prelude.Int.{ℤ, pos, ◌+ℤ◌, ◌*ℤ◌, ltb_ℤ, leb_ℤ}
use dogeuni_indexer.Prelude.Result.{
  Error, Result, ok, err, ◌>>=◌, ◌>>◌, fail_if, or_err, bad_amount, no_row, insufficient, bad_tick,
  over_max, below_lim, already_exists, over_limit, over_maximum, unsupported_op,
}
use dogeuni_indexer.Models.{Drc20Collect, Drc20Info, Db}
use dogeuni_indexer.Holders.{find_holder}
use dogeuni_indexer.Tokens.{find_token}
use dogeuni_indexer.Drc20.{transfer_drc20, mint_drc20}

-- `maxAllowedValue`
abbrev pub max_allowed_value : ℤ
max_allowed_value = pos 99999999999999999999999999999999999999999

abbrev is_some : Option Drc20Collect → Bool
is_some none = false
is_some (some c) = true

-- `len(card.Tick) < 2 || len(card.Tick) > 8`, in bytes.
abbrev bad_length : String → Bool
bad_length tick = ltb (len tick) 2 || ltb 8 (len tick)

unfoldable pub verify_deploy : Drc20Info → Db → Result (Unit {0})
verify_deploy card db = do
  fail_if (bad_length card.tick) bad_tick
  fail_if (leb_ℤ card.max (pos 0) || leb_ℤ card.lim (pos 0)) bad_amount
  fail_if (ltb_ℤ max_allowed_value card.max || ltb_ℤ max_allowed_value card.lim) over_max
  fail_if (ltb_ℤ card.max card.lim) below_lim
  fail_if (is_some (find_token card.tick db.drc20_collect)) already_exists

unfoldable pub verify_mint : Drc20Info → Db → Result (Unit {0})
verify_mint card db = do
  fail_if (bad_length card.tick) bad_tick
  card1 ← or_err (find_token card.tick db.drc20_collect) no_row
  fail_if (leb_ℤ card.amt (pos 0)) bad_amount
  fail_if (ltb_ℤ card1.lim card.amt) over_limit
  fail_if (ltb_ℤ card1.max (card1.amt_sum +ℤ card.amt *ℤ card.repeat)) over_maximum

-- `len(strings.Split(s, ","))`: one more than the commas.
unfoldable pub split_count : String → ℕ
split_count String.[] = 1
split_count (String.◌∷◌ c s) = elim (compare (code c) b',') [
  | Ordering.eq ↦ suc (split_count s)
  | _ ↦ split_count s
]

unfoldable pub verify_transfer : Drc20Info → Db → Result (Unit {0})
verify_transfer card db = do
  fail_if (leb_ℤ card.amt (pos 0)) bad_amount
  card1 ← or_err (find_holder card.tick card.holder_address db.drc20_collect_address) no_row
  fail_if (ltb_ℤ card1.amt_sum (card.amt *ℤ pos (split_count card.to_address))) insufficient

unfoldable pub verify_drc20 : Drc20Info → Db → Result (Unit {0})
verify_drc20 card db =
    if card.op == "deploy"
    then verify_deploy card db
    else if card.op == "mint"
    then verify_mint card db
    else if card.op == "transfer"
    then verify_transfer card db
    else err unsupported_op

-- `Model(&Drc20Info{}).Where("tx_hash = ?").Update("order_status", 0)`
unfoldable pub close_order : String → List Drc20Info → List Drc20Info
close_order tx_hash [] = []
close_order tx_hash (i ∷ is) =
    (if i.tx_hash == tx_hash then record i { order_status = pos 0 } else i) ∷ close_order tx_hash is

abbrev pub closed : String → Db → Db
closed tx_hash db = record db { drc20_info = close_order tx_hash db.drc20_info }

-- The row of `drc20Deploy`; its `amt_sum` is unset, which `Number.Value` stores as 0.
abbrev pub deployed : Drc20Info → Drc20Collect
deployed drc20 = record {
  tick = drc20.tick;
  amt_sum = pos 0;
  max = drc20.max;
  lim = drc20.lim;
  dec = drc20.dec;
  holder_address = drc20.holder_address;
  tx_hash = drc20.tx_hash;
  transactions = 0;
}

unfoldable pub drc20_deploy : Drc20Info → Db → Result Db
drc20_deploy drc20 db =
    ok
      (closed drc20.tx_hash (record db { drc20_collect = db.drc20_collect ++ deployed drc20 ∷ [] }))

unfoldable pub drc20_mint : Drc20Info → Db → Result Db
drc20_mint drc20 db = do
  db' ←
      mint_drc20 drc20.tick drc20.holder_address (drc20.amt *ℤ drc20.repeat) drc20.tx_hash
        drc20.block_number false db
  ok (closed drc20.tx_hash db')

unfoldable pub drc20_transfer : Drc20Info → Db → Result Db
drc20_transfer drc20 db = do
  db' ←
      transfer_drc20 drc20.tick drc20.holder_address drc20.to_address drc20.amt drc20.tx_hash
        drc20.block_number false db
  ok (closed drc20.tx_hash db')

-- The three tests on `Op` after the checks, of which one holds.
unfoldable pub apply_drc20 : Drc20Info → Db → Result Db
apply_drc20 drc20 db =
    if drc20.op == "deploy"
    then drc20_deploy drc20 db
    else if drc20.op == "mint"
    then drc20_mint drc20 db
    else if drc20.op == "transfer"
    then drc20_transfer drc20 db
    else ok db

unfoldable pub execute_drc20 : Drc20Info → Db → Result Db
execute_drc20 drc20 db = do verify_drc20 drc20 db; apply_drc20 drc20 db

-- `Update("err_info", err.Error())` on the message's row.
unfoldable pub set_err_info : String → Error → List Drc20Info → List Drc20Info
set_err_info tx_hash e [] = []
set_err_info tx_hash e (i ∷ is) =
    (if i.tx_hash == tx_hash then record i { err_info = some e } else i) ∷ set_err_info tx_hash e is

-- The "drc-20" branch of `scan`, on a decoded message: a failed one leaves its error only.
abbrev pub settle : Drc20Info → Db → Result Db → Db
settle drc20 db (ok db') = db'
settle drc20 db (err e) = record db { drc20_info = set_err_info drc20.tx_hash e db.drc20_info }

unfoldable pub scan_drc20 : Drc20Info → Db → Db
scan_drc20 drc20 db = settle drc20 db (execute_drc20 drc20 db)

unfoldable pub scan_all : List Drc20Info → Db → Db
scan_all [] db = db
scan_all (m ∷ ms) db = scan_all ms (scan_drc20 m db)
