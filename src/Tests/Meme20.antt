-- ===== src/Tests/Meme20.antt =====
-- A meme20 token of which one address holds the supply, transferred, burned and forked back.
use dogeuni_indexer.Prelude.{false, ◌≡◌, refl, [], ◌∷◌, arith}
use dogeuni_indexer.Prelude.Int.{pos, ◌+ℤ◌, ◌-ℤ◌}
use dogeuni_indexer.Prelude.Result.{ok}
use dogeuni_indexer.Models.{Db}
use dogeuni_indexer.Tables.{find_where, first_where, update_first}
use dogeuni_indexer.Holders.{same_key}
use dogeuni_indexer.Ledger.{transfer, burn}
use dogeuni_indexer.Ledger.Undo.{IsNonNegative}
use dogeuni_indexer.Meme20.{
  is_holder, is_meme, with_row, set_amt, set_amt_and_count, set_meme, log_meme, transfer_meme20,
  burn_meme20, memes_above, meme20_fork,
}
use dogeuni_indexer.Meme20.Rows.{meme_balance, meme_supply}
use dogeuni_indexer.Meme20.View.{view_meme, run_meme}
use dogeuni_indexer.Meme20.Rollback.{here, next, meme20_fork-MemeReach}
use dogeuni_indexer.Tests.Data.{genesis, db_of}
use dogeuni_indexer.Tests.Drc20.{differ}

abbrev pub meme_market : Db
meme_market = record genesis {
  meme20_collect =
      record {
        tick_id = "meme";
        tick = "MEME";
        name = "a meme";
        max = pos 1000;
        dec = 8;
        holder_address = "alice";
        transactions = 1;
      }
      ∷ [];
  meme20_collect_address =
      record { tick_id = "meme"; amt = pos 1000; holder_address = "alice"; transactions = 1 } ∷ [];
}

meme_market-IsNonNegative : IsNonNegative (view_meme meme_market)
unfolding view_meme meme_balance meme_supply first_where is_holder is_meme
meme_market-IsNonNegative = record { balances = λ t h. ground arith; supplies = λ t. ground arith }

abbrev sent : Db
sent = db_of (transfer_meme20 "meme" "alice" "bob" (pos 300) "tx20" (pos 20) false meme_market)

sent_ok :
    run_meme (transfer "meme" "alice" "bob" (pos 300)) "tx20" (pos 20) false meme_market ≡ ok sent
unfolding run_meme transfer_meme20 first_where is_holder is_meme same_key update_first with_row
    set_amt set_meme log_meme ◌+ℤ◌ ◌-ℤ◌
sent_ok = refl

abbrev burned : Db
burned = db_of (burn_meme20 "meme" "bob" (pos 100) "tx21" (pos 21) false sent)

burned_ok : run_meme (burn "meme" "bob" (pos 100)) "tx21" (pos 21) false sent ≡ ok burned
unfolding run_meme burn_meme20 transfer_meme20 first_where is_holder is_meme same_key update_first
    with_row set_amt set_amt_and_count set_meme log_meme ◌+ℤ◌ ◌-ℤ◌
burned_ok = refl

meme20_fork-MemeReach_example :
    (a : Db) × (meme20_fork (pos 19) burned ≡ ok a) × (view_meme a ≡ view_meme meme_market)
meme20_fork-MemeReach_example =
    meme20_fork-MemeReach (pos 19) meme_market burned meme_market-IsNonNegative
      (unfold find_where memes_above in refl)
      (next (burn "meme" "bob" (pos 100)) "tx21" (pos 21) burned
        (next (transfer "meme" "alice" "bob" (pos 300)) "tx20" (pos 20) sent here refl tt
          (differ "alice" "" refl, differ "bob" "" refl) sent_ok)
        refl (omega arith) (differ "bob" "" refl) burned_ok)
