-- ===== src/Explorer/Scan.antt =====
-- explorer/scanner.go: the switch of `scan` on the protocol of a decoded message, for the protocols
-- that are modelled, and the messages of any number of blocks in their order.
use dogeuni_indexer.Prelude.{String, Bool, List, [], ◌∷◌}
use dogeuni_indexer.Prelude.Int.{pos, ◌≤ℤ◌}
use dogeuni_indexer.Models.{
  Drc20Info, WDogeInfo, SwapInfo, StakeInfo, ExchangeInfo, FileExchangeInfo, FileInfo, CrossInfo,
  Meme20Info, ConsensusInfo, InviteInfo, SwapV2Info, Db,
}
use dogeuni_indexer.Pools.Solid.{IsSolid}
use dogeuni_indexer.Explorer.Drc20.{scan_drc20}
use dogeuni_indexer.Explorer.Wdoge.{scan_wdoge}
use dogeuni_indexer.Explorer.Wdoge.Solid.{scan_wdoge-IsSolid}
use dogeuni_indexer.Explorer.Swap.Execute.{scan_pair_v1}
use dogeuni_indexer.Explorer.Swap.Solid.{scan_pair_v1-IsSolid}
use dogeuni_indexer.Explorer.Stake.{scan_stake_v1}
use dogeuni_indexer.Explorer.Stake.Solid.{scan_stake_v1-IsSolid}
use dogeuni_indexer.Explorer.Exchange.{scan_order_v1}
use dogeuni_indexer.Explorer.Exchange.Solid.{scan_order_v1-IsSolid}
use dogeuni_indexer.Explorer.FileExchange.{scan_order_v2}
use dogeuni_indexer.Explorer.File.{scan_file}
use dogeuni_indexer.Explorer.Cross.{scan_cross}
use dogeuni_indexer.Explorer.Meme20.{scan_meme20}
use dogeuni_indexer.Explorer.Consensus.{scan_consensus}
use dogeuni_indexer.Explorer.Invite.{scan_invite}
use dogeuni_indexer.Explorer.Solid.{
  scan_order_v2-IsSolid, scan_file-IsSolid, scan_cross-IsSolid, scan_meme20-IsSolid,
  scan_consensus-IsSolid, scan_invite-IsSolid,
}
use dogeuni_indexer.Explorer.SwapV2.Execute.{scan_pair_v2}
use dogeuni_indexer.Explorer.SwapV2.Solid.{scan_pair_v2-IsSolid}
use dogeuni_indexer.Explorer.Drc20.Solid.{scan_drc20-IsSolid}

-- A decoded message; "pair-v1" carries one order or more, as "pair-v2" does.
pub data Message : Type 0 where
  drc20 : Drc20Info → Message
  pair_v1 : SwapInfo → List SwapInfo → Message
  wdoge : WDogeInfo → Message
  stake_v1 : StakeInfo → Message
  order_v1 : ExchangeInfo → Message
  order_v2 : FileExchangeInfo → Message
  file : FileInfo → Message
  cross : CrossInfo → Message
  meme20 : Meme20Info → Message
  consensus : ConsensusInfo → Message
  invite : InviteInfo → Message
  pair_v2 : SwapV2Info → List SwapV2Info → Message

module _ (script_address : String → String) (written_back : Bool) where
  unfoldable pub scan_message : Message → Db → Db
  scan_message (drc20 m) db = scan_drc20 m db
  scan_message (pair_v1 first rest) db = scan_pair_v1 script_address first rest db
  scan_message (wdoge m) db = scan_wdoge m db
  scan_message (stake_v1 m) db = scan_stake_v1 script_address written_back m db
  scan_message (order_v1 m) db = scan_order_v1 script_address m db
  scan_message (order_v2 m) db = scan_order_v2 script_address m db
  scan_message (file m) db = scan_file m db
  scan_message (cross m) db = scan_cross m db
  scan_message (meme20 m) db = scan_meme20 m db
  scan_message (consensus m) db = scan_consensus script_address m db
  scan_message (invite m) db = scan_invite m db
  scan_message (pair_v2 first rest) db = scan_pair_v2 script_address first rest db

  unfoldable pub scan_messages : List Message → Db → Db
  scan_messages [] db = db
  scan_messages (m ∷ ms) db = scan_messages ms (scan_message m db)

-- No message repeats its mint a negative number of times; only DRC-20 messages have one.
abbrev pub Repeats : Message → Type 0
Repeats (drc20 m) = pos 0 ≤ℤ m.repeat
Repeats (pair_v1 _ _) = Unit {0}
Repeats (wdoge _) = Unit {0}
Repeats (stake_v1 _) = Unit {0}
Repeats (order_v1 _) = Unit {0}
Repeats (order_v2 _) = Unit {0}
Repeats (file _) = Unit {0}
Repeats (cross _) = Unit {0}
Repeats (meme20 _) = Unit {0}
Repeats (consensus _) = Unit {0}
Repeats (invite _) = Unit {0}
Repeats (pair_v2 _ _) = Unit {0}

abbrev pub AllRepeat : List Message → Type 0
AllRepeat [] = Unit {0}
AllRepeat (m ∷ ms) = Repeats m × AllRepeat ms

module _ (script_address : String → String) (written_back : Bool) where
  scan_message-IsSolid :
      (m : Message) (db : Db)
      → IsSolid db
      → Repeats m
      → IsSolid (scan_message script_address written_back m db)
  unfolding scan_message
  scan_message-IsSolid (drc20 m) db v p = scan_drc20-IsSolid m db v p
  scan_message-IsSolid (pair_v1 first rest) db v p =
      scan_pair_v1-IsSolid script_address first rest db v
  scan_message-IsSolid (wdoge m) db v p = scan_wdoge-IsSolid m db v
  scan_message-IsSolid (stake_v1 m) db v p =
      scan_stake_v1-IsSolid script_address written_back m db v
  scan_message-IsSolid (order_v1 m) db v p = scan_order_v1-IsSolid script_address m db v
  scan_message-IsSolid (order_v2 m) db v p = scan_order_v2-IsSolid script_address m db v
  scan_message-IsSolid (file m) db v p = scan_file-IsSolid m db v
  scan_message-IsSolid (cross m) db v p = scan_cross-IsSolid m db v
  scan_message-IsSolid (meme20 m) db v p = scan_meme20-IsSolid m db v
  scan_message-IsSolid (consensus m) db v p = scan_consensus-IsSolid script_address m db v
  scan_message-IsSolid (invite m) db v p = scan_invite-IsSolid m db v
  scan_message-IsSolid (pair_v2 first rest) db v p =
      scan_pair_v2-IsSolid script_address first rest db v

  -- After any messages of the twelve protocols, those refused included, every DRC-20 token's supply is
  -- the sum of its balances, no balance of it is negative, no key stands twice, and no pool of
  -- pair-v1 records a negative amount, if all that holds before and no DRC-20 message repeats its
  -- mint a negative number of times.
  pub scan_messages-IsSolid :
      (ms : List Message) (db : Db)
      → IsSolid db
      → AllRepeat ms
      → IsSolid (scan_messages script_address written_back ms db)
  unfolding scan_messages
  scan_messages-IsSolid [] db v p = v
  scan_messages-IsSolid (m ∷ ms) db v (p, ps) =
      scan_messages-IsSolid ms (scan_message script_address written_back m db)
        (scan_message-IsSolid m db v p) ps
