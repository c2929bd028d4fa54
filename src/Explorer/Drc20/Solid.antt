-- ===== src/Explorer/Drc20/Solid.antt =====
-- explorer/drc20.go: the DRC-20 messages keep every token's supply the sum of its balances.
use dogeuni_indexer.Prelude.{◌≡◌, refl, sym, false, inl, inr}
use dogeuni_indexer.Prelude.Int.{pos, ◌*ℤ◌, ◌≤ℤ◌, *ℤ_nonneg}
use dogeuni_indexer.Prelude.Result.{Result, ok, err, >>=-eq-ok, ok-eq-ok}
use dogeuni_indexer.Models.{Drc20Info, Db}
use dogeuni_indexer.Drc20.{transfer_drc20, mint_drc20}
use dogeuni_indexer.Pools.Solid.{IsSolid, same-IsSolid}
use dogeuni_indexer.Pools.Tokens.{transfer_drc20-IsSolid, mint_drc20-IsSolid}
use dogeuni_indexer.Swap.Conservation.{new_token-IsSolid}
use dogeuni_indexer.Explorer.Drc20.{
  deployed, drc20_deploy, drc20_mint, drc20_transfer, execute_drc20, scan_drc20, settle,
}
use dogeuni_indexer.Explorer.Drc20.Cap.{execute_cases, verify_mint_positive}

drc20_deploy-IsSolid :
    (m : Drc20Info) (db db' : Db) → IsSolid db → drc20_deploy m db ≡ ok db' → IsSolid db'
unfolding drc20_deploy
drc20_deploy-IsSolid m db db' v e =
    rw (sym (ok-eq-ok e)) (same-IsSolid refl refl refl (new_token-IsSolid (deployed m) db refl v))

drc20_mint-IsSolid :
    (m : Drc20Info) (db db' : Db)
    → IsSolid db
    → pos 0 ≤ℤ m.amt *ℤ m.repeat
    → drc20_mint m db ≡ ok db'
    → IsSolid db'
unfolding drc20_mint
drc20_mint-IsSolid m db db' v p e =
    let amount = m.amt *ℤ m.repeat in
    let (d, f, g) =
      >>=-eq-ok (mint_drc20 m.tick m.holder_address amount m.tx_hash m.block_number false db) _ e in
    rw (sym (ok-eq-ok g)) (
      same-IsSolid refl refl refl (
        mint_drc20-IsSolid m.tick amount m.tx_hash m.block_number false db d v m.holder_address p
          f))

drc20_transfer-IsSolid :
    (m : Drc20Info) (db db' : Db) → IsSolid db → drc20_transfer m db ≡ ok db' → IsSolid db'
unfolding drc20_transfer
drc20_transfer-IsSolid m db db' v e =
    let (d, f, g) =
      >>=-eq-ok
        (transfer_drc20 m.tick m.holder_address m.to_address m.amt m.tx_hash m.block_number false
          db)
        _ e in
    rw (sym (ok-eq-ok g)) (
      same-IsSolid refl refl refl (
        transfer_drc20-IsSolid m.tick m.amt m.tx_hash m.block_number false db d v m.holder_address
          m.to_address f))

settle-IsSolid :
    (m : Drc20Info) (db : Db) (r : Result Db)
    → IsSolid db
    → ((db' : Db) → r ≡ ok db' → IsSolid db')
    → IsSolid (settle m db r)
settle-IsSolid m db (ok db') v h = h db' refl
settle-IsSolid m db (err e) v h = same-IsSolid refl refl refl v

execute_drc20-IsSolid :
    (m : Drc20Info) (db db' : Db)
    → IsSolid db
    → pos 0 ≤ℤ m.repeat
    → execute_drc20 m db ≡ ok db'
    → IsSolid db'
execute_drc20-IsSolid m db db' v p e = elim (execute_cases m db db' e) [
  | inl (_, done) ↦ drc20_deploy-IsSolid m db db' v done
  | inr (inl (checked, done)) ↦
      drc20_mint-IsSolid m db db' v (*ℤ_nonneg m.amt m.repeat (verify_mint_positive m db checked) p)
        done
  | inr (inr (_, done)) ↦ drc20_transfer-IsSolid m db db' v done
]

pub scan_drc20-IsSolid :
    (m : Drc20Info) (db : Db) → IsSolid db → pos 0 ≤ℤ m.repeat → IsSolid (scan_drc20 m db)
unfolding scan_drc20
scan_drc20-IsSolid m db v p =
    settle-IsSolid m db (execute_drc20 m db) v (λ db' e. execute_drc20-IsSolid m db db' v p e)
