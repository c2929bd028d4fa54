-- ===== src/SwapV2/Issue.antt =====
-- storage/common.go `MintMeme20`: an issue of one meme20 token, on the balances of both kinds.
use dogeuni_indexer.Prelude.{String, false, ◌≡◌, ◌≢◌, some, ap, eq_iff, arith}
use dogeuni_indexer.Prelude.Int.{ℤ, ◌+ℤ◌}
use dogeuni_indexer.Prelude.Result.{ok}
use dogeuni_indexer.Models.{Db}
use dogeuni_indexer.Holders.Balance.{same_key_eq, same_key_refl}
use dogeuni_indexer.Ledger.{Ledger, mint, put, put_supply, or_zero, applied}
use dogeuni_indexer.Meme20.{mint_meme20}
use dogeuni_indexer.Meme20.Rows.{meme_balance, meme_supply}
use dogeuni_indexer.Meme20.View.{view_meme, run_meme}
use dogeuni_indexer.Meme20.Refines.{run_meme-applied}
use dogeuni_indexer.SwapV2.Pay.{funds}

-- What an issue that succeeds does.
pub record Issued (t holder : String) (amt : ℤ) (db db' : Db) : Type 0 where
  pub balance :
      meme_balance t holder db'.meme20_collect_address
      ≡ meme_balance t holder db.meme20_collect_address +ℤ amt
  pub supply :
      meme_supply t db'.meme20_collect ≡ some (or_zero (meme_supply t db.meme20_collect) +ℤ amt)
  pub others : (t' h' : String) → t ≢ t' → funds t' h' db' ≡ funds t' h' db

pub mint_meme20-Issued :
    (t holder : String) (amt : ℤ) (x : String) (h : ℤ) (db db' : Db)
    → mint_meme20 t holder amt x h false db ≡ ok db'
    → Issued t holder amt db db'
unfolding run_meme applied view_meme put put_supply funds
mint_meme20-Issued t holder amt x h db db' e =
    let (_, same) = run_meme-applied (mint t holder amt) x h false db db' tt e in
    let kept : db'.drc20_collect_address ≡ db.drc20_collect_address =
      unfold mint_meme20 in ground arith in
    let balances = λ (t' h' : String). ap (λ (l : Ledger). l.balance t' h') same in
    let supplies = ap (λ (l : Ledger). l.supply t) same in
    record {
      balance = ground (arith, balances t holder, same_key_refl t holder);
      supply = ground (arith, supplies, eq_iff t t);
      others = λ t' h' apart. ground (arith, balances t' h', kept, same_key_eq t holder t' h');
    }
