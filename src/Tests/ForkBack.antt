-- ===== src/Tests/ForkBack.antt =====
-- A node whose blocks differ from the table's from height 12 on.
use dogeuni_indexer.Prelude.{
  String, ◌≡◌, ◌⊎◌, inl, inr, refl, Option, none, some, [], ◌∷◌, arith, Bool-cases, if◌then◌else◌,
}
use dogeuni_indexer.Prelude.Int.{ℤ, pos, ◌+ℤ◌, ◌-ℤ◌, ◌≤ℤ◌, eqb_ℤ, leb_ℤ, int_laws}
use dogeuni_indexer.Prelude.Result.{ok}
use dogeuni_indexer.Models.{Block}
use dogeuni_indexer.Tables.{first_where}
use dogeuni_indexer.Explorer.Fork.{fork}
use dogeuni_indexer.Explorer.ForkBack.{
  State, find_block, read_hash, search, fork_to, compare, read_block, read_node, fork_back,
}
use dogeuni_indexer.Explorer.ForkBack.Search.{Row, Agree, IsLast}
use dogeuni_indexer.Explorer.ForkBack.Ends.{Known, search_finds, fork_back_lands}
use dogeuni_indexer.Tests.Data.{funded, columns}
use dogeuni_indexer.Tests.Drc20.{differ}
use dogeuni_indexer.Tests.Fork.{forked, forked_ok}

abbrev node : ℤ → Option String
node k =
    if eqb_ℤ k (pos 11)
    then some "a11"
    else if eqb_ℤ k (pos 12)
    then some "b12"
    else if eqb_ℤ k (pos 13)
    then some "b13"
    else none

abbrev previous : String → Option String
previous h = some "b12"

abbrev block : ℤ → String → Block
block k h = record { block_number = k; block_hash = h }

abbrev before : State
before = record {
  blocks = block (pos 11) "a11" ∷ block (pos 12) "a12" ∷ [];
  db = funded;
  current_height = pos 13;
}

abbrev landed : State
landed = record before { db = forked; current_height = pos 11 }

two_heights : (k : ℤ) → pos 11 ≤ℤ k → k +ℤ pos 1 ≤ℤ pos 13 → (k ≡ pos 11) ⊎ (k ≡ pos 12)
two_heights k low high = elim (Bool-cases (leb_ℤ k (pos 11))) [
  | inl least ↦ inl (let d : k ≤ℤ pos 11 = ground arith in omega int_laws)
  | inr more ↦ inr (let d : pos 12 ≤ℤ k = ground arith in omega int_laws)
]

known : (k : ℤ) → pos 11 ≤ℤ k → k +ℤ pos 1 ≤ℤ pos 13 → Known node before.blocks k
unfolding find_block first_where
known k low high = elim (two_heights k low high) [
  | inl e ↦ rw e ("a11", refl, (block (pos 11) "a11", refl, differ "a11" "" refl))
  | inr e ↦ rw e ("b12", refl, (block (pos 12) "a12", refl, differ "a12" "" refl))
]

went_back : fork_back node columns previous 2 before ≡ (before, ok landed)
unfolding fork_back read_node read_block compare fork_to search find_block read_hash first_where
    ◌-ℤ◌
went_back = rw forked_ok refl

found_row : find_block (pos 13 -ℤ pos 1) before.blocks ≡ some (block (pos 12) "a12")
unfolding find_block first_where ◌-ℤ◌
found_row = refl

agreed : Agree node before.blocks (pos 11)
unfolding find_block first_where
agreed = (block (pos 11) "a11", refl, refl)

sum : pos 11 +ℤ pos 2 ≡ pos 13
unfolding ◌+ℤ◌
sum = refl

search_finds_example : (r : ℤ) × (search node 2 before.blocks (pos 13) "b13" "a12" ≡ ok r)
search_finds_example =
    search_finds node 2 before.blocks (pos 13) (pos 11) "b13" "a12" sum (λ z. absurd (omega arith))
      agreed known

rows : (k : ℤ) → pos 11 ≤ℤ k → k +ℤ pos 1 ≤ℤ pos 13 → Row before.blocks k
rows k low high = let (h, got, (b, found, full)) = known k low high in (b, found)

fork_back_lands_example :
    IsLast node before.blocks (pos 13) (pos 11)
    × (fork columns (pos 11) funded ≡ ok forked)
    × (before.blocks ≡ before.blocks)
fork_back_lands_example =
    fork_back_lands node columns previous 2 before before landed "b13" "b12" (block (pos 12) "a12")
      refl refl found_row (differ "a12" "b12" refl) (differ "b13" "a12" refl) rows went_back
