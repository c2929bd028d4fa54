-- ===== src/Tests/Ledger.antt =====
-- The token operations against the abstract ledger: an issue, a transfer that is refused, a
-- transfer and a burn.
use dogeuni_indexer.Prelude.{String, false, ◌≡◌, List, [], ◌∷◌, arith}
use dogeuni_indexer.Prelude.Int.{ℤ, pos}
use dogeuni_indexer.Ledger.{Call, transfer, mint, burn, spec_all, spec_strictly}
use dogeuni_indexer.Drc20.View.{view}
use dogeuni_indexer.Drc20.Refines.{run_all, calls_of, run_all-refines}
use dogeuni_indexer.Meme20.View.{view_meme, view_meme_result, run_meme}
use dogeuni_indexer.Meme20.Refines.{run_meme-refines}
use dogeuni_indexer.Tests.Data.{genesis}
use dogeuni_indexer.Tests.Meme20.{meme_market}

abbrev calls : List (Call × String × ℤ)
calls =
    (mint "dogi" "alice" (pos 500), "tx1", pos 11)
    ∷ (transfer "dogi" "bob" "alice" (pos 10), "tx2", pos 11)
    ∷ (transfer "dogi" "alice" "bob" (pos 200), "tx3", pos 12)
    ∷ (burn "dogi" "bob" (pos 50), "tx4", pos 12)
    ∷ []

run_all-refines_example : view (run_all calls genesis) ≡ spec_all (calls_of calls) (view genesis)
run_all-refines_example = run_all-refines calls genesis (tt, (tt, (tt, (omega arith, tt))))

run_meme-refines_example :
    view_meme_result (run_meme (burn "meme" "alice" (pos 300)) "tx5" (pos 20) false meme_market)
    ≡ spec_strictly (burn "meme" "alice" (pos 300)) (view_meme meme_market)
run_meme-refines_example =
    run_meme-refines (burn "meme" "alice" (pos 300)) "tx5" (pos 20) false meme_market (omega arith)
