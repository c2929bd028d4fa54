-- ===== src/Tests/Scan.antt =====
-- Messages of several protocols, one after the other.
use dogeuni_indexer.Prelude.{String, true, none, List, [], ◌∷◌, arith}
use dogeuni_indexer.Prelude.Int.{pos}
use dogeuni_indexer.Models.{WDogeInfo}
use dogeuni_indexer.Pools.Solid.{IsSolid}
use dogeuni_indexer.Explorer.Scan.{
  Message, drc20, pair_v1, wdoge, stake_v1, order_v1, pair_v2, scan_messages, scan_messages-IsSolid,
}
use dogeuni_indexer.Tests.Data.{genesis, genesis-IsBacked}
use dogeuni_indexer.Tests.Cap.{mint_message}
use dogeuni_indexer.Tests.Swap.{order}
use dogeuni_indexer.Tests.Stake.{stake}
use dogeuni_indexer.Tests.Exchange.{offer}
use dogeuni_indexer.Tests.SwapV2 as V

genesis-IsSolid : IsSolid genesis
genesis-IsSolid = record {
  is_backed = genesis-IsBacked;
  pools = ((omega arith, omega arith, omega arith), tt);
}

abbrev deposit : WDogeInfo
deposit = record {
  op = "deposit";
  tick = "WDOGE(WRAPPED-DOGE)";
  amt = pos 100000000;
  holder_address = "alice";
  tx_hash = "tx12";
  block_number = pos 15;
  err_info = none;
  order_status = pos 1;
}

abbrev messages : List Message
messages =
    drc20 mint_message
    ∷ pair_v1 order []
    ∷ stake_v1 stake
    ∷ order_v1 offer
    ∷ wdoge deposit
    ∷ pair_v2 V.order []
    ∷ []

abbrev script_of : String → String
script_of s = s

scan_messages-IsSolid_example : IsSolid (scan_messages script_of true messages genesis)
scan_messages-IsSolid_example =
    scan_messages-IsSolid script_of true messages genesis genesis-IsSolid
      (omega arith, (tt, (tt, (tt, (tt, (tt, tt))))))
