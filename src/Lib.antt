-- ===== src/Lib.antt =====
-- Verification library of the dogeuni indexer, which follows the Dogecoin chain, decodes the
-- inscriptions in its transactions and keeps the tokens, pools, stakes and orders that they describe
-- in a database.
--
-- How the program works: `scan` (explorer/scanner.go) reads each block's transactions, decodes the
-- message of each and calls the execute function of its protocol. That one runs the checks of
-- explorer/verifys.go and then a handler of explorer/*.go, which opens a database transaction and
-- calls the operations of storage/*.go. Every protocol moves tokens through three operations of
-- storage/common.go: TransferDrc20, MintDrc20 and BurnDrc20. Each logs a row, and on a fork of the
-- chain the fork handlers undo the rows of the abandoned blocks, newest first.
--
-- Which module models which part:
--   Prelude: names of the libraries, tests on numbers, big.Int (Prelude.Int, with Div and Sqrt in
--     Prelude.Div) and error results (Prelude.Result).
--   Models: models/*.go, a child for each protocol, and the database `Db` as the lists of its tables'
--     rows. Tables: gorm's First, Updates and Delete on any table.
--   Holders and Tokens: the statements on drc20_collect_address and drc20_collect, with the balance
--     (Holders.Balance), the sum of the balances (Holders.Total) and the supply (Tokens.Supply).
--   Drc20: storage/common.go TransferDrc20 (`transfer_drc20`), MintDrc20 (`mint_drc20`) and BurnDrc20
--     (`burn_drc20`), and drc20Fork of explorer/drc20.go (`drc20_fork`).
--   Ledger: the abstract view of a token, a balance for each address and a supply, and what a transfer,
--     an issue and a burn do to it. Drc20.Refines and Meme20.Refines relate the code to it.
--   Meme20: storage/common.go TransferMeme20, MintMeme20 and BurnMeme20, and meme20Fork of
--     explorer/meme20.go.
--   Pools and Swap: storage/swap.go: UpdateLiquidity (`update_liquidity`), SwapCreate, SwapAdd,
--     SwapRemove, SwapExec (`swap_create` and so on), and SortTokens of utils/util.go.
--   SwapV2: storage/swap_v2.go, of which Explorer.SwapV2 has the checks and handlers, executePairV2 and
--     swapV2Fork.
--   Wdoge, Stake, Exchange: storage/wdoge.go, storage/stake.go with the stakes of storage/common.go, and
--     storage/exchange.go, with the fork handlers of explorer/stake.go and explorer/exchange.go.
--   File: TransferFile of storage/common.go, storage/file.go and file_exchange.go, with the fork handlers
--     of explorer/file.go and explorer/file_exchange.go.
--   Cross and Consensus: storage/cross.go and storage/consensus.go (its score in Consensus.Score), with
--     the fork handlers of explorer/cross.go and explorer/consensus.go.
--   Explorer.Fork: fork, delInfo and delRevert of explorer/fork.go, with swapFork of explorer/swap.go.
--     Explorer.Pump, Explorer.Box and Explorer.StakeV2: pumpFork, boxFork and stakeV2Fork.
--     Explorer.ForkBack: forkBack of explorer/fork.go.
--   Explorer: for each protocol its checks (explorer/verifys.go), its handlers (explorer/drc20.go,
--     wdoge.go, swap.go, stake.go, exchange.go, meme20.go, swap_v2.go, file.go, file_exchange.go, cross.go,
--     invite.go, consensus.go) and its branch of explorer/scanner.go; Explorer.Scan has the switch on the
--     protocol.
--   Tests: runs on small databases, and the theorems applied to them.
--
-- How the code is modelled:
--   A *big.Int is an integer without bound. `transactions` is a uint64 and wraps. Int64 heights and
--   counts are integers, as the code only compares and copies them and takes one from a height.
--   A table is the list of its rows in the order of their creation; a revert log has the newest first,
--   which is the order the fork handlers read it in. First takes the first row that fits, an update
--   with conditions writes every row that fits, an update through a row that was read writes that row,
--   and Create adds a row. Uniqueness is not assumed of the tables: where a theorem needs it, it is part
--   of an invariant.
--   An operation takes the database and returns the new one or an error. Every caller rolls back its
--   transaction on an error, so that a failed call leaves the database before it. The only errors of the
--   database are the missing rows that the code tests for and the missing columns of `Schema`. An error
--   stands for the check that fails, not for its text. A panic (division by zero, a nil amount) ends the call with an error. The lock makes
--   operations atomic, and there is one writer.
--   What the code takes from other packages are parameters, of which nothing is assumed: `node_hash`
--   and `previous_hash`, two answers of the node, `script_address`, the address that btcutil makes of a
--   script, and `written_back`, whether gorm's Update also sets the field of the struct that it is
--   given.
--   `Schema` is a parameter too, as no file of the repository creates those tables: it says whether
--   exchange_collect has the column amt_finish, which fileExchangeFork writes, and whether stake_revert
--   and stake_reward_revert have the column id, which stakeFork orders by. The structs have none of
--   the three. Every other column that a modelled statement names is taken to be there.
--   Loops over lists are recursion on the list. The square root counts down from its argument, which
--   Prelude.Div proves to be enough, and the search of forkBack has a number of turns as its argument,
--   of which Explorer.ForkBack.Ends proves how many are enough.
--
-- Not modelled: decoding (JSON, scripts, floats, calls of the node), the random order ids, dates and
-- columns that no modelled statement reads, the summaries of prices, the messages of pump and box-v1
-- and their operations, those of stake-v2 and nft, for which the scanner has no branch, the decay of a
-- consensus score, which is computed in floats, and the HTTP routers with their queries.
pub mod Prelude
pub mod Models
pub mod Tables
pub mod Holders
pub mod Tokens
pub mod Ledger
pub mod Drc20
pub mod Meme20
pub mod Pools
pub mod Wdoge
pub mod Swap
pub mod SwapV2
pub mod Exchange
pub mod Stake
pub mod File
pub mod Cross
pub mod Consensus
pub mod Explorer
pub mod Tests
