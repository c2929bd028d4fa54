-- ===== src/Explorer/Drc20/Cap.antt =====
-- What any sequence of DRC-20 messages leaves: no token is issued above its maximum, and its
-- holders together have what was issued.
use dogeuni_indexer.Prelude.{
  String, false, ◌≡◌, ◌⊎◌, inl, inr, refl, some, List, [], ◌∷◌, ◌++◌, eq_iff, arith, Option-cases,
  ◌∙◌, sym,
}
use dogeuni_indexer.Prelude.Int.{ℤ, pos, ◌+ℤ◌, ◌*ℤ◌, ◌≤ℤ◌, int_laws, *ℤ_nonneg}
use dogeuni_indexer.Prelude.Result.{Result, ok, err, >>=-eq-ok}
use dogeuni_indexer.Models.{Drc20Collect, Drc20Info, Db}
use dogeuni_indexer.Holders.Total.{total}
use dogeuni_indexer.Tokens.{find_token, next_transactions}
use dogeuni_indexer.Tokens.Supply.{
  supply, find_token-set_token, find_token-append, supply-append, supply-eq_of_find,
}
use dogeuni_indexer.Drc20.{transfer_drc20, mint_drc20}
use dogeuni_indexer.Drc20.Effects.{transactions_of, transfer_drc20-eq-ok, mint_drc20-eq-ok}
use dogeuni_indexer.Drc20.Conservation.{IsBacked, transfer_drc20-IsBacked, mint_drc20-IsBacked}
use dogeuni_indexer.Explorer.Drc20.{
  verify_deploy, verify_mint, verify_transfer, verify_drc20, drc20_deploy, drc20_mint,
  drc20_transfer, apply_drc20, execute_drc20, scan_drc20, scan_all, settle, closed, deployed,
}

-- No token has more issued than its maximum.
abbrev IsCapped : Db → Type 0
IsCapped db =
    (t : String) (c : Drc20Collect) → find_token t db.drc20_collect ≡ some c → c.amt_sum ≤ℤ c.max

pub record IsValid (db : Db) : Type 0 where
  pub is_backed : IsBacked db
  pub is_capped : IsCapped db

verify_mint_bounds :
    (m : Drc20Info) (db : Db) (c : Drc20Collect)
    → verify_mint m db ≡ ok tt
    → find_token m.tick db.drc20_collect ≡ some c
    → (pos 1 ≤ℤ m.amt) × (c.amt_sum +ℤ m.amt *ℤ m.repeat ≤ℤ c.max)
unfolding verify_mint
verify_mint_bounds m db c e f = ground arith

verify_deploy_bounds : (m : Drc20Info) (db : Db) → verify_deploy m db ≡ ok tt → pos 1 ≤ℤ m.max
unfolding verify_deploy
verify_deploy_bounds m db e = ground arith

deploy-IsValid :
    (m : Drc20Info) (db db' : Db)
    → IsValid db
    → verify_deploy m db ≡ ok tt
    → drc20_deploy m db ≡ ok db'
    → IsValid db'
unfolding drc20_deploy
deploy-IsValid m db db' v e f =
    let result : db'
        ≡ closed m.tx_hash (record db { drc20_collect = db.drc20_collect ++ deployed m ∷ [] }) =
      cc f in
    let bounds = verify_deploy_bounds m db e in
    rw result (record {
      is_backed = record {
        sound = v.is_backed.sound;
        backed =
            λ t. v.is_backed.backed t ∙ sym (supply-append t (deployed m) db.drc20_collect refl);
      };
      is_capped = λ t c found.
          ground (arith, find_token-append t (deployed m) db.drc20_collect, v.is_capped t c);
    })

closed-IsValid : (tx_hash : String) (db : Db) → IsValid db → IsValid (closed tx_hash db)
closed-IsValid tx_hash db v = record {
  is_backed = record { sound = v.is_backed.sound; backed = v.is_backed.backed };
  is_capped = v.is_capped;
}

mint-IsCapped :
    (t holder : String) (amt : ℤ) (tx_hash : String) (height : ℤ) (db db' : Db) (c : Drc20Collect)
    → IsCapped db
    → find_token t db.drc20_collect ≡ some c
    → c.amt_sum +ℤ amt ≤ℤ c.max
    → mint_drc20 t holder amt tx_hash height false db ≡ ok db'
    → IsCapped db'
mint-IsCapped t holder amt tx_hash height db db' c capped found room e =
    let (there, result) = mint_drc20-eq-ok t holder amt tx_hash height false db db' e in
    rw result (λ t' c' found'. ground (
      arith,
      find_token-set_token t t' (supply t db.drc20_collect +ℤ amt)
          (next_transactions false (transactions_of (find_token t db.drc20_collect)))
          db.drc20_collect,
      capped t' c',
      eq_iff t t',
      supply-eq_of_find t db.drc20_collect found,
    ))

mint-IsValid :
    (m : Drc20Info) (db db' : Db)
    → IsValid db
    → pos 0 ≤ℤ m.repeat
    → verify_mint m db ≡ ok tt
    → drc20_mint m db ≡ ok db'
    → IsValid db'
unfolding drc20_mint
mint-IsValid m db db' v p e f =
    let amount = m.amt *ℤ m.repeat in
    let (db1, minted, g) =
      >>=-eq-ok (mint_drc20 m.tick m.holder_address amount m.tx_hash m.block_number false db)
        (λ x. ok (closed m.tx_hash x)) f in
    let result : db' ≡ closed m.tx_hash db1 = cc g in
    let (there, _) =
      mint_drc20-eq-ok m.tick m.holder_address amount m.tx_hash m.block_number false db db1
        minted in
    elim (Option-cases (find_token m.tick db.drc20_collect)) [
      | inl missing ↦ absurd (there missing)
      | inr (c, found) ↦
          let (positive, room) = verify_mint_bounds m db c e found in
          rw result (
            closed-IsValid m.tx_hash db1 (record {
              is_backed =
                  mint_drc20-IsBacked m.tick amount m.tx_hash m.block_number false db db1
                    m.holder_address v.is_backed (*ℤ_nonneg m.amt m.repeat (omega arith) p) minted;
              is_capped =
                  mint-IsCapped m.tick m.holder_address amount m.tx_hash m.block_number db db1 c
                    v.is_capped found room minted;
            }))
    ]

transfer-IsValid :
    (m : Drc20Info) (db db' : Db) → IsValid db → drc20_transfer m db ≡ ok db' → IsValid db'
unfolding drc20_transfer
transfer-IsValid m db db' v f =
    let (db1, sent, g) =
      >>=-eq-ok
        (transfer_drc20 m.tick m.holder_address m.to_address m.amt m.tx_hash m.block_number false
          db)
        (λ x. ok (closed m.tx_hash x)) f in
    let result : db' ≡ closed m.tx_hash db1 = cc g in
    let (_, same) =
      transfer_drc20-eq-ok m.tick m.holder_address m.to_address m.amt m.tx_hash m.block_number false
        db db1 sent in
    rw result (
      closed-IsValid m.tx_hash db1 (record {
        is_backed =
            transfer_drc20-IsBacked m.tick m.amt m.tx_hash m.block_number false db db1
              m.holder_address m.to_address v.is_backed sent;
        is_capped = rw same v.is_capped;
      }))

-- The checks that an applied message passed, and the handler that applied it.
pub execute_cases :
    (m : Drc20Info) (db db' : Db)
    → execute_drc20 m db ≡ ok db'
    → ((verify_deploy m db ≡ ok tt) × (drc20_deploy m db ≡ ok db'))
      ⊎ ((verify_mint m db ≡ ok tt) × (drc20_mint m db ≡ ok db'))
      ⊎ ((verify_transfer m db ≡ ok tt) × (drc20_transfer m db ≡ ok db'))
unfolding execute_drc20 apply_drc20 verify_drc20
execute_cases m db db' e = ground arith

pub execute-IsValid :
    (m : Drc20Info) (db db' : Db)
    → IsValid db
    → pos 0 ≤ℤ m.repeat
    → execute_drc20 m db ≡ ok db'
    → IsValid db'
execute-IsValid m db db' v p e = elim (execute_cases m db db' e) [
  | inl (checked, done) ↦ deploy-IsValid m db db' v checked done
  | inr (inl (checked, done)) ↦ mint-IsValid m db db' v p checked done
  | inr (inr (checked, done)) ↦ transfer-IsValid m db db' v done
]

settle-IsValid :
    (m : Drc20Info) (db : Db) (r : Result Db)
    → IsValid db
    → ((db' : Db) → r ≡ ok db' → IsValid db')
    → IsValid (settle m db r)
settle-IsValid m db (ok db') v h = h db' refl
settle-IsValid m db (err e) v h = record {
  is_backed = record { sound = v.is_backed.sound; backed = v.is_backed.backed };
  is_capped = v.is_capped;
}

scan-IsValid :
    (m : Drc20Info) (db : Db) → IsValid db → pos 0 ≤ℤ m.repeat → IsValid (scan_drc20 m db)
unfolding scan_drc20
scan-IsValid m db v p =
    settle-IsValid m db (execute_drc20 m db) v (λ db' e. execute-IsValid m db db' v p e)

-- Every message repeats its mint a number of times that is not negative.
abbrev pub AllRepeat : List Drc20Info → Type 0
AllRepeat [] = Unit {0}
AllRepeat (m ∷ ms) = (pos 0 ≤ℤ m.repeat) × AllRepeat ms

scan_all-IsValid :
    (ms : List Drc20Info) (db : Db) → IsValid db → AllRepeat ms → IsValid (scan_all ms db)
unfolding scan_all
scan_all-IsValid [] db v p = v
scan_all-IsValid (m ∷ ms) db v (p, ps) =
    scan_all-IsValid ms (scan_drc20 m db) (scan-IsValid m db v p) ps

-- After any DRC-20 messages, the applied and the refused, the balances of a token that is deployed
-- then add up to at most its maximum, if before them every supply was the sum of its balances and
-- within the maximum, no balance was negative and no key stood twice, and no message repeats its
-- mint a negative number of times.
pub holders-le-max :
    (ms : List Drc20Info) (db : Db) (t : String) (c : Drc20Collect)
    → IsValid db
    → AllRepeat ms
    → find_token t (scan_all ms db).drc20_collect ≡ some c
    → total t (scan_all ms db).drc20_collect_address ≤ℤ c.max
holders-le-max ms db t c v p found =
    let w = scan_all-IsValid ms db v p in
    let issued = w.is_capped t c found in
    let backed = w.is_backed.backed t in
    let same = supply-eq_of_find t (scan_all ms db).drc20_collect found in
    omega (int_laws, issued, backed, same)

-- A mint that passes the checks has an amount that is not negative.
pub verify_mint_positive : (m : Drc20Info) (db : Db) → verify_mint m db ≡ ok tt → pos 0 ≤ℤ m.amt
unfolding verify_mint
verify_mint_positive m db e = ground arith
