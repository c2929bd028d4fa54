-- ===== src/Explorer/Invite.antt =====
-- explorer/invite.go and its checks in explorer/verifys.go, with `executeInvite` and the branch of
-- `scan` that calls it (explorer/scanner.go).
use dogeuni_indexer.Prelude.{
  String, Bool, true, false, ◌&&◌, Option, none, some, List, [], ◌∷◌, ◌++◌, ◌==◌, if◌then◌else◌,
}
use dogeuni_indexer.Prelude.Int.{ℤ, pos, ltb_ℤ}
use dogeuni_indexer.Prelude.Result.{
  Result, ok, err, ◌>>◌, fail_if, already_exists, unsupported_op, same_address,
}
use dogeuni_indexer.Models.{InviteInfo, InviteCollect, InviteRevert, Db}
use dogeuni_indexer.Tables.{first_where, update_where, delete_where}

-- `Where("tx_hash = ?").Update("order_status", 0)`, and the same of `err_info` for a failed message.
abbrev pub closed : String → Db → Db
closed tx_hash db = record db {
  invite_info =
      update_where (λ (i : InviteInfo). i.tx_hash == tx_hash)
        (λ (i : InviteInfo). record i { order_status = pos 0 }) db.invite_info;
}

abbrev pub settle : InviteInfo → Db → Result Db → Db
settle m db (ok db') = db'
settle m db (err e) = record db {
  invite_info =
      update_where (λ (i : InviteInfo). i.tx_hash == m.tx_hash)
        (λ (i : InviteInfo). record i { err_info = some e }) db.invite_info;
}

unfoldable pub is_invited : String → InviteCollect → Bool
is_invited holder c = c.holder_address == holder

abbrev is_some : Option InviteCollect → Bool
is_some none = false
is_some (some c) = true

unfoldable pub verify_invite : InviteInfo → Db → Result (Unit {0})
verify_invite m db =
    if m.op == "deploy"
    then (do
      fail_if (m.invite_address == m.holder_address) same_address
      fail_if (is_some (first_where (is_invited m.holder_address) db.invite_collect))
          already_exists)
    else err unsupported_op

unfoldable pub invite_deploy : InviteInfo → Db → Db
invite_deploy m db = closed m.tx_hash (record db {
  invite_collect =
      db.invite_collect
      ++ record { holder_address = m.holder_address; invite_address = m.invite_address } ∷ [];
  invite_revert =
      record {
        holder_address = m.holder_address;
        invite_address = m.invite_address;
        block_number = m.block_number;
      }
      ∷ db.invite_revert;
})

unfoldable pub execute_invite : InviteInfo → Db → Result Db
execute_invite m db = do
  verify_invite m db
  ok (if m.op == "deploy" then invite_deploy m db else db)

unfoldable pub scan_invite : InviteInfo → Db → Db
scan_invite m db = settle m db (execute_invite m db)

-- The loop of `inviteFork`, over the rows above the height.
unfoldable pub undo_invites : ℤ → List InviteRevert → Db → Db
undo_invites height [] db = db
undo_invites height (r ∷ log) db = undo_invites height log (
    if ltb_ℤ height r.block_number
    then record db {
      invite_collect =
          delete_where
            (λ (c : InviteCollect).
              c.invite_address == r.invite_address && c.holder_address == r.holder_address)
            db.invite_collect;
    }
    else db)

unfoldable pub invite_fork : ℤ → Db → Db
invite_fork height db = undo_invites height db.invite_revert db
