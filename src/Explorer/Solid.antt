-- ===== src/Explorer/Solid.antt =====
-- explorer/scanner.go: the messages of the protocols beside the pools keep every token's supply the
-- sum of its balances.
use dogeuni_indexer.Prelude.{
  String, Bool, true, false, ◌≡◌, refl, sym, not, ◌==◌, if◌then◌else◌, arith,
}
use dogeuni_indexer.Prelude.Int.{pos, ◌≤ℤ◌}
use dogeuni_indexer.Prelude.Result.{
  Result, ok, err, or_err, fail_if, no_row, bad_tick, not_holder, unsupported_op, >>=-eq-ok,
  ok-eq-ok_pair,
}
use dogeuni_indexer.Models.{
  Meme20Info, FileInfo, FileExchangeInfo, CrossInfo, InviteInfo, ConsensusInfo, Db,
}
use dogeuni_indexer.Tables.{first_where}
use dogeuni_indexer.Pools.Solid.{IsSolid, same-IsSolid}
use dogeuni_indexer.Pools.Calls.{
  EndsSolid, ok-EndsSolid, err-EndsSolid, then-EndsSolid, after-EndsSolid, if-EndsSolid,
  transfer-EndsSolid, mint-EndsSolid, burn-EndsSolid, transfer_meme20-EndsSolid,
}
use dogeuni_indexer.Swap.Conservation.{new_token-IsSolid}
use dogeuni_indexer.Meme20.{transfer_meme20}
use dogeuni_indexer.Drc20.{transfer_drc20}
use dogeuni_indexer.File.{
  transfer_file, file_deploy, file_transfer, is_file_order, finish_order, file_exchange_create,
  file_exchange_trade, file_exchange_cancel, is_file,
}
use dogeuni_indexer.Cross.{wrapped_token, cross_deploy, cross_mint, cross_burn}
use dogeuni_indexer.Consensus.{consensus_stake, consensus_unstake, is_active}
use dogeuni_indexer.Explorer.Meme20 as M
use dogeuni_indexer.Explorer.File as F
use dogeuni_indexer.Explorer.FileExchange as X
use dogeuni_indexer.Explorer.Cross as C
use dogeuni_indexer.Explorer.Invite as I
use dogeuni_indexer.Explorer.Consensus as K

-- A message that fails leaves its error only.
M_settle :
    (m : Meme20Info) (db : Db) (r : Result Db)
    → IsSolid db
    → EndsSolid r
    → IsSolid (M.settle m db r)
M_settle m db (ok db') v h = h db' refl
M_settle m db (err e) v h = same-IsSolid refl refl refl v

pub scan_meme20-IsSolid : (m : Meme20Info) (db : Db) → IsSolid db → IsSolid (M.scan_meme20 m db)
unfolding M.scan_meme20 M.execute_meme20 M.meme_deploy M.meme20_transfer
scan_meme20-IsSolid m db v = M_settle m db (M.execute_meme20 m db) v (
    after-EndsSolid (M.verify_meme20 m db) _ (λ t e.
      if-EndsSolid (m.op == "deploy") _ _ (λ d. ok-EndsSolid _ (same-IsSolid refl refl refl v))
        (λ n.
          if-EndsSolid (m.op == "transfer") _ _
            (λ d.
              then-EndsSolid
                (transfer_meme20 m.tick_id m.holder_address m.to_address m.amt m.tx_hash
                  m.block_number false db)
                _
                (transfer_meme20-EndsSolid m.tick_id m.amt m.tx_hash m.block_number db v
                  m.holder_address m.to_address)
                (λ d w. ok-EndsSolid _ (same-IsSolid refl refl refl w)))
            (λ n. ok-EndsSolid _ v))))

F_settle :
    (m : FileInfo) (db : Db) (r : Result Db) → IsSolid db → EndsSolid r → IsSolid (F.settle m db r)
F_settle m db (ok db') v h = h db' refl
F_settle m db (err e) v h = same-IsSolid refl refl refl v

pub scan_file-IsSolid : (m : FileInfo) (db : Db) → IsSolid db → IsSolid (F.scan_file m db)
unfolding F.scan_file F.execute_file file_deploy file_transfer transfer_file
scan_file-IsSolid m db v = F_settle m db (F.execute_file m db) v (
    after-EndsSolid (F.verify_file m db) _ (λ t e.
      if-EndsSolid (m.op == "deploy") _ _ (λ d. ok-EndsSolid _ (same-IsSolid refl refl refl v))
        (λ n.
          if-EndsSolid (m.op == "transfer") _ _
            (λ d. ok-EndsSolid _ (same-IsSolid refl refl refl v)) (λ n. ok-EndsSolid _ v))))

I_settle :
    (m : InviteInfo) (db : Db) (r : Result Db)
    → IsSolid db
    → EndsSolid r
    → IsSolid (I.settle m db r)
I_settle m db (ok db') v h = h db' refl
I_settle m db (err e) v h = same-IsSolid refl refl refl v

pub scan_invite-IsSolid : (m : InviteInfo) (db : Db) → IsSolid db → IsSolid (I.scan_invite m db)
unfolding I.scan_invite I.execute_invite I.invite_deploy
scan_invite-IsSolid m db v =
    I_settle m db (I.execute_invite m db) v (
      after-EndsSolid (I.verify_invite m db) _
        (λ t e. ok-EndsSolid _ (deployed (m.op == "deploy"))))
  where
    deployed : (b : Bool) → IsSolid (if b then I.invite_deploy m db else db)
    deployed true = same-IsSolid refl refl refl v
    deployed false = v

X_settle :
    (m : FileExchangeInfo) (db : Db) (r : Result Db)
    → IsSolid db
    → EndsSolid r
    → IsSolid (X.settle m db r)
X_settle m db (ok db') v h = h db' refl
X_settle m db (err e) v h = same-IsSolid refl refl refl v

file_exchange_create-EndsSolid :
    (m : FileExchangeInfo) (r : String) (db : Db)
    → IsSolid db
    → EndsSolid (file_exchange_create m r db)
unfolding file_exchange_create transfer_file
file_exchange_create-EndsSolid m r db v =
    after-EndsSolid (or_err (first_where (is_file m.file_id) db.file_collect_address) no_row) _
      (λ f e. ok-EndsSolid _ (same-IsSolid refl refl refl v))

file_exchange_trade-EndsSolid :
    (m : FileExchangeInfo) (db : Db) → IsSolid db → EndsSolid (file_exchange_trade m db)
unfolding file_exchange_trade transfer_file finish_order
file_exchange_trade-EndsSolid m db v =
    after-EndsSolid (or_err (first_where (is_file_order m.ex_id) db.file_exchange_collect) no_row) _
      (λ c e.
        then-EndsSolid _ _
          (transfer-EndsSolid c.tick c.amt m.tx_hash m.block_number db v m.holder_address
            c.holder_address)
          (λ d w. ok-EndsSolid _ (same-IsSolid refl refl refl w)))

file_exchange_cancel-EndsSolid :
    (m : FileExchangeInfo) (db : Db) → IsSolid db → EndsSolid (file_exchange_cancel m db)
unfolding file_exchange_cancel transfer_file finish_order
file_exchange_cancel-EndsSolid m db v =
    after-EndsSolid (or_err (first_where (is_file_order m.ex_id) db.file_exchange_collect) no_row) _
      (λ c e. ok-EndsSolid _ (same-IsSolid refl refl refl v))

cancelled-EndsSolid :
    (m : FileExchangeInfo) (db : Db) (r : Result Db)
    → IsSolid db
    → EndsSolid r
    → EndsSolid (elim r [ err e ↦ ok db | ok db' ↦ ok (X.closed m.tx_hash db') ])
cancelled-EndsSolid m db (err e) v h = ok-EndsSolid db v
cancelled-EndsSolid m db (ok db') v h = ok-EndsSolid _ (same-IsSolid refl refl refl (h db' refl))

pub scan_order_v2-IsSolid :
    (script_address : String → String) (m : FileExchangeInfo) (db : Db)
    → IsSolid db
    → IsSolid (X.scan_order_v2 script_address m db)
unfolding X.scan_order_v2 X.execute_order_v2 X.handle_file_create X.handle_file_trade
    X.handle_file_cancel
scan_order_v2-IsSolid script_address m db v =
    X_settle m db (X.execute_order_v2 script_address m db) v (
      after-EndsSolid (X.verify_file_exchange m db) _ (λ t e.
        if-EndsSolid (m.op == "create") _ _
          (λ d.
            then-EndsSolid _ _ (file_exchange_create-EndsSolid m (script_address m.ex_id) db v)
              (λ d w. ok-EndsSolid _ (same-IsSolid refl refl refl w)))
          (λ n.
            if-EndsSolid (m.op == "trade") _ _
              (λ d.
                then-EndsSolid _ _ (file_exchange_trade-EndsSolid m db v)
                  (λ d w. ok-EndsSolid _ (same-IsSolid refl refl refl w)))
              (λ n.
                if-EndsSolid (m.op == "cancel") _ _
                  (λ d.
                    cancelled-EndsSolid m db (file_exchange_cancel m db) v
                      (file_exchange_cancel-EndsSolid m db v))
                  (λ n. ok-EndsSolid _ v)))))

C_settle :
    (m : CrossInfo) (db : Db) (r : Result Db) → IsSolid db → EndsSolid r → IsSolid (C.settle m db r)
C_settle m db (ok db') v h = h db' refl
C_settle m db (err e) v h = same-IsSolid refl refl refl v

-- What the checks leave of the amount of an issue.
verify_cross_positive :
    (m : CrossInfo) (db : Db)
    → (m.op == "deploy") ≡ false
    → (m.op == "mint") ≡ true
    → C.verify_cross m db ≡ ok tt
    → pos 0 ≤ℤ m.amt
unfolding C.verify_cross C.verify_cross_mint
verify_cross_positive m db p q e = ground arith

pub scan_cross-IsSolid : (m : CrossInfo) (db : Db) → IsSolid db → IsSolid (C.scan_cross m db)
unfolding C.scan_cross C.execute_cross C.apply_cross cross_deploy cross_mint cross_burn
scan_cross-IsSolid m db v = C_settle m db (C.execute_cross m db) v (
    after-EndsSolid (C.verify_cross m db) _ (λ t e.
      if-EndsSolid (m.op == "deploy") _ _
        (λ d.
          ok-EndsSolid _
            (same-IsSolid refl refl refl (new_token-IsSolid (wrapped_token m) db refl v)))
        (λ p.
          if-EndsSolid (m.op == "mint") _ _
            (λ q.
              then-EndsSolid _ _
                (mint-EndsSolid m.tick m.amt m.tx_hash m.block_number db v m.to_address
                  (verify_cross_positive m db p q e))
                (λ d w. ok-EndsSolid _ (same-IsSolid refl refl refl w)))
            (λ q.
              if-EndsSolid (m.op == "burn") _ _
                (λ d.
                  then-EndsSolid _ _
                    (burn-EndsSolid m.tick m.amt m.tx_hash m.block_number db v m.holder_address)
                    (λ d w. ok-EndsSolid _ (same-IsSolid refl refl refl w)))
                (λ n. ok-EndsSolid _ v)))))

K_settle :
    (m : ConsensusInfo) (db : Db) (r : Result Db)
    → IsSolid db
    → EndsSolid r
    → IsSolid (K.settle m db r)
K_settle m db (ok db') v h = h db' refl
K_settle m db (err e) v h = same-IsSolid refl refl refl v

consensus_stake-EndsSolid :
    (c : ConsensusInfo) (r : String) (db : Db) → IsSolid db → EndsSolid (consensus_stake c r db)
unfolding consensus_stake
consensus_stake-EndsSolid c r db v =
    then-EndsSolid _ _
      (transfer-EndsSolid "CARDI" c.amt c.tx_hash c.block_number _ (same-IsSolid refl refl refl v)
        c.holder_address r)
      (λ d w. ok-EndsSolid _ (same-IsSolid refl refl refl w))

consensus_unstake-IsSolid :
    (c c' : ConsensusInfo) (r : String) (db db' : Db)
    → IsSolid db
    → consensus_unstake c r db ≡ ok (c', db')
    → IsSolid db'
unfolding consensus_unstake
consensus_unstake-IsSolid c c' r db db' v e =
    let (_, _, e1) = >>=-eq-ok (fail_if (c.stake_id == "") bad_tick) _ e in
    let (s, _, e2) =
      >>=-eq-ok (or_err (first_where (is_active c.stake_id) db.consensus_stake_record) no_row) _
        e1 in
    let (_, _, e3) =
      >>=-eq-ok (fail_if (not (s.holder_address == c.holder_address)) not_holder) _ e2 in
    let (d, f, e4) =
      >>=-eq-ok (transfer_drc20 "CARDI" r c.holder_address s.amt c.tx_hash c.block_number false _) _
        e3 in
    let w =
      transfer-EndsSolid "CARDI" s.amt c.tx_hash c.block_number _ (same-IsSolid refl refl refl v) r
        c.holder_address d f in
    rw (sym (ok-eq-ok_pair e4).1) (same-IsSolid refl refl refl w)

handle_unstake-EndsSolid :
    (c : ConsensusInfo) (db : Db) → IsSolid db → EndsSolid (K.handle_unstake c db)
unfolding K.handle_unstake
handle_unstake-EndsSolid c db v = after-EndsSolid (fail_if (c.stake_id == "") bad_tick) _ (λ t e.
    after-EndsSolid (or_err (first_where (is_active c.stake_id) db.consensus_stake_record) no_row) _
      (λ r e. after-EndsSolid (consensus_unstake c r.reserves_address db) _ (λ p e. ok-EndsSolid _ (
        same-IsSolid refl refl refl
          (consensus_unstake-IsSolid c p.0 r.reserves_address db p.1 v e)))))

pub scan_consensus-IsSolid :
    (script_address : String → String) (m : ConsensusInfo) (db : Db)
    → IsSolid db
    → IsSolid (K.scan_consensus script_address m db)
unfolding K.scan_consensus K.execute_consensus K.apply_consensus K.handle_stake
scan_consensus-IsSolid script_address m db v =
    K_settle m db (K.execute_consensus script_address m db) v (
      after-EndsSolid (K.verify_consensus m db) _ (λ c e.
        if-EndsSolid (c.op == "stake") _ _
          (λ d.
            then-EndsSolid _ _ (consensus_stake-EndsSolid c _ db v)
              (λ d w. ok-EndsSolid _ (same-IsSolid refl refl refl w)))
          (λ n.
            if-EndsSolid (c.op == "unstake") _ _ (λ d. handle_unstake-EndsSolid c db v)
              (λ n. err-EndsSolid unsupported_op))))
