-- ===== src/Tests/Cap.antt =====
-- Messages of the DRC-20 protocol, the last of which is refused for passing the maximum.
use dogeuni_indexer.Prelude.{◌↔◌, ◌≡◌, refl, none, some, List, [], ◌∷◌, arith}
use dogeuni_indexer.Prelude.Int.{pos, ◌+ℤ◌, ◌-ℤ◌, ◌*ℤ◌, ◌≤ℤ◌}
use dogeuni_indexer.Prelude.Result.{ok}
use dogeuni_indexer.Models.{Drc20Collect, Drc20Info, Db}
use dogeuni_indexer.Holders.{same_key, row_is, find_holder, set_amt_sum, create_missing}
use dogeuni_indexer.Holders.Total.{total}
use dogeuni_indexer.Tokens.{find_token, set_token, next_transactions}
use dogeuni_indexer.Drc20.{mint_drc20, transfer_drc20}
use dogeuni_indexer.Explorer.Drc20.{
  verify_mint, verify_transfer, verify_drc20, drc20_mint, drc20_transfer, apply_drc20,
  execute_drc20, close_order, scan_drc20, scan_all, split_count,
}
use dogeuni_indexer.Explorer.Drc20.Cap.{IsValid, holders-le-max}
use dogeuni_indexer.Explorer.Drc20.Accept.{CanMint, CanSend, execute_mint_iff, execute_transfer_iff}
use dogeuni_indexer.Tests.Data.{genesis, funded, genesis-IsBacked}

abbrev pub mint_message : Drc20Info
mint_message = record {
  op = "mint";
  tick = "dogi";
  amt = pos 400000;
  max = pos 0;
  lim = pos 0;
  dec = 8;
  repeat = pos 2;
  holder_address = "alice";
  to_address = "";
  tx_hash = "tx1";
  block_number = pos 11;
  err_info = none;
  order_status = pos 1;
}

abbrev messages : List Drc20Info
messages =
    mint_message
    ∷ record mint_message { op = "transfer"; to_address = "bob"; tx_hash = "tx2" }
    ∷ record mint_message { tx_hash = "tx3" }
    ∷ []

genesis-IsValid : IsValid genesis
unfolding find_token
genesis-IsValid = record { is_backed = genesis-IsBacked; is_capped = λ t c e. ground arith }

abbrev dogi : Drc20Collect
dogi = record {
  tick = "dogi";
  amt_sum = pos 800000;
  max = pos 1000000;
  lim = pos 500000;
  dec = 8;
  holder_address = "deployer";
  tx_hash = "tx0";
  transactions = 1;
}

dogi_found : find_token "dogi" (scan_all messages genesis).drc20_collect ≡ some dogi
unfolding scan_all scan_drc20 execute_drc20 verify_drc20 verify_mint verify_transfer split_count
    apply_drc20 drc20_mint drc20_transfer close_order mint_drc20 transfer_drc20 find_token
    find_holder row_is same_key set_amt_sum create_missing set_token next_transactions ◌+ℤ◌ ◌-ℤ◌
    ◌*ℤ◌
dogi_found = refl

holders-le-max_example :
    total "dogi" (scan_all messages genesis).drc20_collect_address ≤ℤ pos 1000000
holders-le-max_example =
    holders-le-max messages genesis "dogi" dogi genesis-IsValid
      (omega arith, (omega arith, (omega arith, tt))) dogi_found

execute_mint_iff_example :
    ((db' : Db) × (execute_drc20 mint_message genesis ≡ ok db')) ↔ CanMint mint_message genesis
execute_mint_iff_example = execute_mint_iff mint_message genesis refl

abbrev transfer_message : Drc20Info
transfer_message = record mint_message { op = "transfer"; to_address = "bob"; amt = pos 2000 }

execute_transfer_iff_example :
    ((db' : Db) × (execute_drc20 transfer_message funded ≡ ok db'))
    ↔ CanSend transfer_message funded
execute_transfer_iff_example = execute_transfer_iff transfer_message funded refl
