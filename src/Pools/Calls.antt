-- ===== src/Pools/Calls.antt =====
-- Calls that keep the invariant when they succeed, put together as the handlers put them together.
use dogeuni_indexer.Prelude.{String, Bool, true, false, ◌≡◌, refl, sym, if◌then◌else◌, arith}
use dogeuni_indexer.Prelude.Int.{ℤ, pos, ◌≤ℤ◌}
use dogeuni_indexer.Prelude.Result.{Result, Error, ok, err, ◌>>=◌, >>=-eq-ok, ok-eq-ok}
use dogeuni_indexer.Models.{Db}
use dogeuni_indexer.Pools.Solid.{IsSolid, same-IsSolid}
use dogeuni_indexer.Pools.Tokens.{transfer_drc20-IsSolid, mint_drc20-IsSolid, burn_drc20-IsSolid}
use dogeuni_indexer.Drc20.{transfer_drc20, mint_drc20, burn_drc20}
use dogeuni_indexer.Meme20.{transfer_meme20, mint_meme20, burn_meme20}

-- The database of a call that succeeds is solid.
abbrev pub EndsSolid : Result Db → Type 0
EndsSolid r = (db' : Db) → r ≡ ok db' → IsSolid db'

pub ok-EndsSolid : (db : Db) → IsSolid db → EndsSolid (ok db)
ok-EndsSolid db v db' e = rw (sym (ok-eq-ok e)) v

pub err-EndsSolid : (e : Error) → EndsSolid (err e)
err-EndsSolid e db' f = cc

pub then-EndsSolid :
    (r : Result Db) (rest : Db → Result Db)
    → EndsSolid r
    → ((d : Db) → IsSolid d → EndsSolid (rest d))
    → EndsSolid (r >>= rest)
then-EndsSolid r rest first next db' e =
    let (d, f, g) = >>=-eq-ok r rest e in next d (first d f) db' g

-- A check or a lookup before the rest.
pub after-EndsSolid {ℓ} :
    {T : Type ℓ} (r : Result T) (rest : T → Result Db)
    → ((t : T) → r ≡ ok t → EndsSolid (rest t))
    → EndsSolid (r >>= rest)
after-EndsSolid r rest next db' e = let (t, f, g) = >>=-eq-ok r rest e in next t f db' g

pub if-EndsSolid :
    (b : Bool) (x y : Result Db)
    → (b ≡ true → EndsSolid x)
    → (b ≡ false → EndsSolid y)
    → EndsSolid (if b then x else y)
if-EndsSolid true x y p q = p refl
if-EndsSolid false x y p q = q refl

module _ (tick : String) (amt : ℤ) (tx_hash : String) (height : ℤ) (db : Db) (v : IsSolid db) where
  pub transfer-EndsSolid :
      (src dst : String) → EndsSolid (transfer_drc20 tick src dst amt tx_hash height false db)
  transfer-EndsSolid src dst db' e =
      transfer_drc20-IsSolid tick amt tx_hash height false db db' v src dst e

  pub mint-EndsSolid :
      (holder : String)
      → pos 0 ≤ℤ amt
      → EndsSolid (mint_drc20 tick holder amt tx_hash height false db)
  mint-EndsSolid holder p db' e =
      mint_drc20-IsSolid tick amt tx_hash height false db db' v holder p e

  pub burn-EndsSolid :
      (holder : String) → EndsSolid (burn_drc20 tick holder amt tx_hash height false db)
  burn-EndsSolid holder db' e = burn_drc20-IsSolid tick amt tx_hash height false db db' v holder e

-- The calls of the meme20 operations write no DRC-20 table.
module _ (t : String) (amt : ℤ) (x : String) (h : ℤ) (db : Db) (v : IsSolid db) where
  pub transfer_meme20-EndsSolid :
      (src dst : String) → EndsSolid (transfer_meme20 t src dst amt x h false db)
  unfolding transfer_meme20
  transfer_meme20-EndsSolid src dst db' e =
      let kept : (db'.drc20_collect ≡ db.drc20_collect)
          × (db'.drc20_collect_address ≡ db.drc20_collect_address)
          × (db'.swap_liquidity ≡ db.swap_liquidity) =
        ground arith in
      same-IsSolid kept.0 kept.1 kept.2 v

  pub mint_meme20-EndsSolid : (holder : String) → EndsSolid (mint_meme20 t holder amt x h false db)
  unfolding mint_meme20
  mint_meme20-EndsSolid holder db' e =
      let kept : (db'.drc20_collect ≡ db.drc20_collect)
          × (db'.drc20_collect_address ≡ db.drc20_collect_address)
          × (db'.swap_liquidity ≡ db.swap_liquidity) =
        ground arith in
      same-IsSolid kept.0 kept.1 kept.2 v

  pub burn_meme20-EndsSolid : (holder : String) → EndsSolid (burn_meme20 t holder amt x h false db)
  unfolding burn_meme20
  burn_meme20-EndsSolid holder db' e =
      let kept : (db'.drc20_collect ≡ db.drc20_collect)
          × (db'.drc20_collect_address ≡ db.drc20_collect_address)
          × (db'.swap_liquidity ≡ db.swap_liquidity) =
        ground arith in
      same-IsSolid kept.0 kept.1 kept.2 v
