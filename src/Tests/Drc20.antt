-- ===== src/Tests/Drc20.antt =====
-- The token operations, run and undone.
use dogeuni_indexer.Prelude.{
  String, ◌≡◌, ◌≢◌, ◌↔◌, refl, false, ◌==◌, if◌then◌else◌, arith, [], eq_iff,
}
use dogeuni_indexer.Prelude.Int.{pos, ◌+ℤ◌, ◌-ℤ◌, ◌≤ℤ◌}
use dogeuni_indexer.Prelude.Result.{ok}
use dogeuni_indexer.Models.{Db}
use dogeuni_indexer.Tables.{find_where}
use dogeuni_indexer.Holders.{same_key, row_is, find_holder, set_amt_sum, create_missing}
use dogeuni_indexer.Holders.Balance.{balance}
use dogeuni_indexer.Tokens.{find_token, set_token}
use dogeuni_indexer.Tokens.Supply.{supply}
use dogeuni_indexer.Drc20.{transfer_drc20, mint_drc20, burn_drc20, reverts_above, drc20_fork}
use dogeuni_indexer.Drc20.Effects.{CanTransfer, CanBurn}
use dogeuni_indexer.Drc20.Balances.{held_by, held_by-transfer_drc20}
use dogeuni_indexer.Drc20.Issue.{
  issued, transfer_drc20_iff, burn_drc20_iff, mint_drc20_effect, burn_drc20_effect,
}
use dogeuni_indexer.Drc20.Conservation.{Moves-IsBacked, IsBacked}
use dogeuni_indexer.Drc20.Rollback.{
  Reach, here, next, mint, transfer, burn, Reach-Moves, drc20_fork-Reach,
}
use dogeuni_indexer.Tests.Data.{genesis, genesis-IsBacked, funded0, funded1, funded, db_of}

-- Two strings that differ are told apart by the test.
pub differ : (a b : String) → (a == b) ≡ false → a ≢ b
differ a b e = λ p. ground (arith, eq_iff a b)

pub minted0 : mint_drc20 "dogi" "reserves" (pos 100000) "tx1" (pos 11) false genesis ≡ ok funded0
unfolding mint_drc20 find_token find_holder
minted0 = refl

pub minted1 : mint_drc20 "woof" "reserves" (pos 200000) "tx2" (pos 12) false funded0 ≡ ok funded1
unfolding mint_drc20 find_token find_holder row_is same_key set_amt_sum create_missing set_token
minted1 = refl

pub minted2 : mint_drc20 "dogi" "alice" (pos 5000) "tx3" (pos 12) false funded1 ≡ ok funded
unfolding mint_drc20 find_token find_holder row_is same_key set_amt_sum create_missing set_token
minted2 = refl

abbrev paid : Db
paid = db_of (transfer_drc20 "dogi" "alice" "bob" (pos 2000) "tx4" (pos 13) false funded)

paid_ok : transfer_drc20 "dogi" "alice" "bob" (pos 2000) "tx4" (pos 13) false funded ≡ ok paid
unfolding mint_drc20 transfer_drc20 find_token find_holder row_is same_key set_amt_sum
    create_missing set_token ◌+ℤ◌ ◌-ℤ◌
paid_ok = refl

abbrev burned : Db
burned = db_of (burn_drc20 "dogi" "bob" (pos 500) "tx5" (pos 13) false paid)

burned_ok : burn_drc20 "dogi" "bob" (pos 500) "tx5" (pos 13) false paid ≡ ok burned
unfolding mint_drc20 burn_drc20 transfer_drc20 find_token find_holder row_is same_key set_amt_sum
    create_missing set_token ◌+ℤ◌ ◌-ℤ◌
burned_ok = refl

pub funded-Reach : Reach (pos 10) genesis funded
funded-Reach =
    next
      (next
        (next here (
          mint "dogi" "reserves" (pos 100000) "tx1" (pos 11) genesis funded0 refl
            (differ "reserves" "" refl) (omega arith) minted0))
        (mint "woof" "reserves" (pos 200000) "tx2" (pos 12) funded0 funded1 refl
          (differ "reserves" "" refl) (omega arith) minted1))
      (mint "dogi" "alice" (pos 5000) "tx3" (pos 12) funded1 funded refl (differ "alice" "" refl)
        (omega arith) minted2)

burned-Reach : Reach (pos 10) genesis burned
burned-Reach =
    next
      (next funded-Reach (
        transfer "dogi" "alice" "bob" (pos 2000) "tx4" (pos 13) funded paid refl
          (differ "alice" "" refl) (differ "bob" "" refl) paid_ok))
      (burn "dogi" "bob" (pos 500) "tx5" (pos 13) paid burned refl (differ "bob" "" refl) burned_ok)

pub funded-IsBacked : IsBacked funded
funded-IsBacked = Moves-IsBacked genesis-IsBacked (Reach-Moves funded-Reach)

Moves-IsBacked_example : IsBacked burned
Moves-IsBacked_example = Moves-IsBacked genesis-IsBacked (Reach-Moves burned-Reach)

no_reverts : reverts_above (pos 10) genesis.drc20_revert ≡ []
unfolding find_where reverts_above
no_reverts = refl

drc20_fork-Reach_example :
    (a : Db) × (drc20_fork (pos 10) burned ≡ ok a)
    × ((t h : String)
        → balance t h a.drc20_collect_address ≡ balance t h genesis.drc20_collect_address)
    × ((t : String) → supply t a.drc20_collect ≡ supply t genesis.drc20_collect)
drc20_fork-Reach_example =
    drc20_fork-Reach (pos 10) genesis burned genesis-IsBacked no_reverts burned-Reach

abbrev alice : String
alice = "alice"

abbrev bob : String
bob = "bob"

held_by-transfer_drc20_example :
    (pos 1 ≤ℤ pos 2000)
    × (alice ≢ bob)
    × (pos 2000 ≤ℤ held_by "dogi" alice funded)
    × ((t h : String)
        → held_by t h paid ≡ (
            if same_key "dogi" alice t h
            then held_by "dogi" alice funded -ℤ pos 2000
            else if same_key "dogi" bob t h
            then held_by "dogi" bob funded +ℤ pos 2000
            else held_by t h funded))
held_by-transfer_drc20_example =
    held_by-transfer_drc20 "dogi" (pos 2000) "tx4" (pos 13) false funded paid alice bob paid_ok

transfer_drc20_iff_example :
    ((db' : Db) × (transfer_drc20 "dogi" alice bob (pos 2000) "tx4" (pos 13) false funded ≡ ok db'))
    ↔ CanTransfer "dogi" alice bob (pos 2000) "tx4" (pos 13) false funded
transfer_drc20_iff_example =
    transfer_drc20_iff "dogi" (pos 2000) "tx4" (pos 13) false funded alice bob

burn_drc20_iff_example :
    ((db' : Db) × (burn_drc20 "dogi" bob (pos 500) "tx5" (pos 13) false paid ≡ ok db'))
    ↔ CanBurn "dogi" bob (pos 500) "tx5" (pos 13) false paid
burn_drc20_iff_example = burn_drc20_iff "dogi" (pos 500) "tx5" (pos 13) false paid bob

mint_drc20_effect_example :
    ((t h : String)
      → held_by t h funded ≡ (
          if same_key "dogi" alice t h
          then held_by "dogi" alice funded1 +ℤ pos 5000
          else held_by t h funded1))
    × ((t : String)
        → issued t funded
          ≡ (if "dogi" == t then issued "dogi" funded1 +ℤ pos 5000 else issued t funded1))
mint_drc20_effect_example =
    mint_drc20_effect "dogi" (pos 5000) "tx3" (pos 12) false funded1 funded alice minted2

burn_drc20_effect_example :
    (pos 500 ≤ℤ held_by "dogi" bob paid)
    × (pos 500 ≤ℤ issued "dogi" paid)
    × ((t h : String)
        → held_by t h burned ≡ (
            if same_key "dogi" bob t h
            then held_by "dogi" bob paid -ℤ pos 500
            else held_by t h paid))
    × ((t : String)
        → issued t burned ≡ (if "dogi" == t then issued "dogi" paid -ℤ pos 500 else issued t paid))
burn_drc20_effect_example =
    burn_drc20_effect "dogi" (pos 500) "tx5" (pos 13) false paid burned bob burned_ok
