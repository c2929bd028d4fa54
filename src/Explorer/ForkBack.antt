-- ===== src/Explorer/ForkBack.antt =====
-- explorer/fork.go `forkBack`: the search for the last block that the node and the database agree
-- on, and the fork to it.
use dogeuni_indexer.Prelude.{
  String, Bool, true, false, ◌≡◌, Option, none, some, List, [], ◌∷◌, ◌++◌, ◌==◌, if◌then◌else◌, ℕ,
  zero, suc, arith,
}
use dogeuni_indexer.Prelude.Int.{ℤ, pos, ◌-ℤ◌, eqb_ℤ}
use dogeuni_indexer.Prelude.Result.{Result, ok, err, ◌>>=◌, or_err, no_hash, out_of_fuel}
use dogeuni_indexer.Models.{Schema, Block, Db}
use dogeuni_indexer.Tables.{first_where}
use dogeuni_indexer.Explorer.Fork.{fork}
pub mod Search
pub mod Ends

unfoldable pub find_block : ℤ → List Block → Option Block
find_block height = first_where (λ (b : Block). eqb_ℤ b.block_number height)

-- `First(&localHash)`, whose error the loop drops: a missing row leaves the variable as it was.
unfoldable pub read_hash : Option Block → String → String
read_hash none local_hash = local_hash
read_hash (some b) local_hash = b.block_hash

-- What `forkBack` reads and writes: the block table, the others, and `e.currentHeight`.
pub record State : Type 0 where
  pub blocks : List Block
  pub db : Db
  pub current_height : ℤ

-- GetBlockHash of the node, which other code runs.
module _ (node_hash : ℤ → Option String) where
  -- The loop `for blockHash.String() != localHash`, at most as many times as the first argument says.
  unfoldable pub search : ℕ → List Block → ℤ → String → String → Result ℤ
  search zero blocks height block_hash local_hash =
      if block_hash == local_hash then ok height else err out_of_fuel
  search (suc n) blocks height block_hash local_hash =
      let rest = (λ (h : String).
        let l = read_hash (find_block (height -ℤ pos 1) blocks) local_hash in
        if l == "" then err no_hash else search n blocks (height -ℤ pos 1) h l) in
      if block_hash == local_hash
      then ok height
      else (or_err (node_hash (height -ℤ pos 1)) no_hash >>= rest)

  -- The body of `if localHash != block.PreviousHash`.
  unfoldable pub fork_to : Schema → State → Result ℤ → Result State
  fork_to schema st (err e) = err e
  fork_to schema st (ok height) =
      fork schema height st.db >>= λ db'. ok (record st { db = db'; current_height = height })

  -- The rest of `forkBack`, on the row of the block before. A missing row is created, and the call
  -- ends with an error all the same.
  unfoldable pub compare :
      Schema → ℕ → State → String → String → Option Block → State × Result State
  compare schema fuel st block_hash previous none = (
    record st {
      blocks =
          st.blocks
          ++ record { block_number = st.current_height -ℤ pos 1; block_hash = previous } ∷ [];
    },
    err no_hash,
  )
  compare schema fuel st block_hash previous (some b) = (
    st,
    if b.block_hash == previous
        then ok st
        else fork_to schema st (search fuel st.blocks st.current_height block_hash b.block_hash),
  )

  unfoldable pub read_block : Schema → ℕ → State → String → Option String → State × Result State
  read_block schema fuel st block_hash none = (st, err no_hash)
  read_block schema fuel st block_hash (some previous) =
      compare schema fuel st block_hash previous (find_block (st.current_height -ℤ pos 1) st.blocks)

  unfoldable pub read_node :
      Schema → (String → Option String) → ℕ → State → Option String → State × Result State
  read_node schema previous_hash fuel st none = (st, err no_hash)
  read_node schema previous_hash fuel st (some block_hash) =
      read_block schema fuel st block_hash (previous_hash block_hash)

  -- `previous_hash`: the field PreviousHash of what GetBlockVerboseBool returns.
  unfoldable pub fork_back : Schema → (String → Option String) → ℕ → State → State × Result State
  fork_back schema previous_hash fuel st =
      read_node schema previous_hash fuel st (node_hash st.current_height)
