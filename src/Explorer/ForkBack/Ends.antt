-- ===== src/Explorer/ForkBack/Ends.antt =====
-- explorer/fork.go `forkBack`: the search ends when there is a common block, and where the scanner
-- goes on.
use dogeuni_indexer.Prelude.{
  String, ◌≡◌, ◌≢◌, inl, inr, false, refl, sym, Option, some, List, ◌==◌, eq_iff, ℕ, zero, suc,
  arith, Bool-cases, ap, ◌∙◌,
}
use dogeuni_indexer.Prelude.Int.{ℤ, pos, ◌-ℤ◌, ◌+ℤ◌, ◌≤ℤ◌, int_laws}
use dogeuni_indexer.Prelude.Result.{Result, ok, err, >>=-eq-ok, ok-eq-ok}
use dogeuni_indexer.Models.{Schema, Block}
use dogeuni_indexer.Explorer.Fork.{fork}
use dogeuni_indexer.Explorer.ForkBack.{
  find_block, read_hash, search, State, fork_to, compare, read_block, read_node, fork_back,
}
use dogeuni_indexer.Explorer.ForkBack.Search.{Agree, Row, IsLast, search_stops}

module _ (node_hash : ℤ → Option String) where
  -- The node answers at a height and the table has a row with a hash there.
  abbrev pub Known : List Block → ℤ → Type 0
  Known blocks k =
      (h : String) × (node_hash k ≡ some h)
      × ((b : Block) × (find_block k blocks ≡ some b) × (b.block_hash ≢ ""))

  search_step :
      (n : ℕ) (blocks : List Block) (height : ℤ) (block_hash local_hash h : String) (b : Block)
      → (block_hash == local_hash) ≡ false
      → node_hash (height -ℤ pos 1) ≡ some h
      → find_block (height -ℤ pos 1) blocks ≡ some b
      → b.block_hash ≢ ""
      → search node_hash (suc n) blocks height block_hash local_hash
        ≡ search node_hash n blocks (height -ℤ pos 1) h b.block_hash
  unfolding search read_hash
  search_step n blocks height block_hash local_hash h b miss got found full =
      let named : (b.block_hash == "") ≡ false = ground (arith, eq_iff b.block_hash "") in
      rw (miss, got, found, named) refl

  agreed_hash :
      (blocks : List Block) (m k : ℤ) (h : String) (b : Block)
      → m ≡ k
      → Agree node_hash blocks m
      → node_hash k ≡ some h
      → find_block k blocks ≡ some b
      → h ≡ b.block_hash
  agreed_hash blocks m k h b e (c, found', hash) got found =
      let there : find_block k blocks ≡ some c = rw (sym e) found' in
      let heard : node_hash k ≡ some c.block_hash = rw (sym e) hash in
      let one : b ≡ c = cc (found, there) in cc (heard, got, one)

  -- When the node and the table agree on a height, both know every height from there up to below the
  -- one the search starts from, none of those rows has an empty hash, and, should the search start
  -- at that height, its two hashes are equal: as many turns as there are heights between are enough
  -- for the search to succeed.
  pub search_finds :
      (d : ℕ) (blocks : List Block) (height m : ℤ) (block_hash local_hash : String)
      → m +ℤ pos d ≡ height
      → (d ≡ 0 → block_hash ≡ local_hash)
      → Agree node_hash blocks m
      → ((k : ℤ) → m ≤ℤ k → k +ℤ pos 1 ≤ℤ height → Known blocks k)
      → (r : ℤ) × (search node_hash d blocks height block_hash local_hash ≡ ok r)
  unfolding search
  search_finds zero blocks height m block_hash local_hash far same agree known =
      let hit = same refl in (height, ground (arith, eq_iff block_hash local_hash))
  search_finds (suc d) blocks height m block_hash local_hash far same agree known =
      elim (Bool-cases (block_hash == local_hash)) [
        | inl hit ↦ (height, ground arith)
        | inr miss ↦
            let k = height -ℤ pos 1 in
            let near : m +ℤ pos d ≡ k = omega (int_laws, far) in
            let (h, got, (b, found, full)) = known k (omega (int_laws, far)) (omega int_laws) in
            let (r, e) =
              search_finds d blocks k m h b.block_hash near
                (λ z. agreed_hash blocks m k h b (omega (int_laws, far, z)) agree got found) agree
                (λ j lo hi. known j lo (omega int_laws)) in
            (r, search_step d blocks height block_hash local_hash h b miss got found full ∙ e)
      ]

  -- A search whose height is forked to.
  fork_to_steps :
      (schema : Schema) (st st' : State) (found : Result ℤ)
      → fork_to node_hash schema st found ≡ ok st'
      → (found ≡ ok st'.current_height)
        × (fork schema st'.current_height st.db ≡ ok st'.db)
        × (st'.blocks ≡ st.blocks)
  unfolding fork_to
  fork_to_steps schema st st' (err fault) e = absurd (ground arith)
  fork_to_steps schema st st' (ok height) e =
      let (db', went, made) = >>=-eq-ok (fork schema height st.db) _ e in
      let same = ok-eq-ok made in
      (
        ap (λ (s : State). ok s.current_height) same,
        rw (sym same) went,
        ap (λ (s : State). s.blocks) (sym same),
      )

  -- A call of `forkBack` that succeeds, at a height whose block before has another hash in the table
  -- than the node says, where the node's hash at the height is not the table's hash below, and with
  -- rows at all heights from where it ends to below the start: it ends at the highest height below
  -- the start where the node and the table have the same hash, the database is that of a fork to
  -- there, and the table of blocks is as before.
  pub fork_back_lands :
      (schema : Schema) (previous_hash : String → Option String) (fuel : ℕ) (st st0 st' : State)
      (h p : String) (b : Block)
      → node_hash st.current_height ≡ some h
      → previous_hash h ≡ some p
      → find_block (st.current_height -ℤ pos 1) st.blocks ≡ some b
      → b.block_hash ≢ p
      → h ≢ b.block_hash
      → ((k : ℤ) → st'.current_height ≤ℤ k → k +ℤ pos 1 ≤ℤ st.current_height → Row st.blocks k)
      → fork_back node_hash schema previous_hash fuel st ≡ (st0, ok st')
      → IsLast node_hash st.blocks st.current_height st'.current_height
        × (fork schema st'.current_height st.db ≡ ok st'.db)
        × (st'.blocks ≡ st.blocks)
  unfolding fork_back read_node read_block compare fork_to
  fork_back_lands schema previous_hash fuel st st0 st' h p b got before found differs apart rows e =
      let seen : (b.block_hash == p) ≡ false = ground (arith, eq_iff b.block_hash p) in
      let run = rw (got, before, found, seen) at e in
      let searched =
        fork_to_steps schema st st'
          (search node_hash fuel st.blocks st.current_height h b.block_hash) (λ i. (run i).1) in
      elim (search_stops node_hash fuel st.blocks st.current_height h b.block_hash
        st'.current_height rows searched.0) [
          | inl hit ↦ absurd (apart hit.0)
          | inr passed ↦ (passed.1, searched.1, searched.2)
        ]
