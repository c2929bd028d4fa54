-- ===== src/Explorer/ForkBack/Search.antt =====
-- explorer/fork.go `forkBack`: where the search ends, and that it does.
use dogeuni_indexer.Prelude.{
  ◌+◌, ◌<◌, String, ◌≡◌, ◌≢◌, ◌⊎◌, inl, inr, false, refl, ◌∙◌, ap, Option, some, List, ◌==◌, eq_iff,
  ℕ, zero, suc, arith, Bool-cases, Option-cases,
}
use dogeuni_indexer.Prelude.Int.{ℤ, pos, ◌-ℤ◌, ◌+ℤ◌, ◌≤ℤ◌, leb_ℤ, pos_part, neg_part, int_laws}
use dogeuni_indexer.Prelude.Result.{ok}
use dogeuni_indexer.Models.{Block}
use dogeuni_indexer.Explorer.ForkBack.{find_block, read_hash, search}

abbrev pub Row : List Block → ℤ → Type 0
Row blocks k = (b : Block) × (find_block k blocks ≡ some b)

module _ (node_hash : ℤ → Option String) where
  -- The node and the database have the same block at a height.
  abbrev pub Agree : List Block → ℤ → Type 0
  Agree blocks k = (b : Block) × (find_block k blocks ≡ some b) × (node_hash k ≡ some b.block_hash)

  -- The highest height below `height` where they agree.
  abbrev pub IsLast : List Block → ℤ → ℤ → Type 0
  IsLast blocks height m =
      (m +ℤ pos 1 ≤ℤ height)
      × Agree blocks m
      × ((k : ℤ) → m +ℤ pos 1 ≤ℤ k → k +ℤ pos 1 ≤ℤ height → Agree blocks k → ⊥)

  -- One turn of the loop.
  search_turn :
      (n : ℕ) (blocks : List Block) (height : ℤ) (block_hash local_hash : String) (m : ℤ)
      → search node_hash (suc n) blocks height block_hash local_hash ≡ ok m
      → ((block_hash ≡ local_hash) × (m ≡ height))
        ⊎ ((block_hash ≢ local_hash)
            × ((h : String) × (node_hash (height -ℤ pos 1) ≡ some h)
                × (search node_hash n blocks
                      (height -ℤ pos 1)
                      h
                      (read_hash (find_block (height -ℤ pos 1) blocks) local_hash)
                    ≡ ok m)))
  unfolding search
  search_turn n blocks height block_hash local_hash m e =
      elim (Bool-cases (block_hash == local_hash)) [
        | inl hit ↦ inl (ground (arith, eq_iff block_hash local_hash), ground arith)
        | inr miss ↦ inr (
          λ p. ground (arith, eq_iff block_hash local_hash),
          elim (Option-cases (node_hash (height -ℤ pos 1))) [
            | inl gone ↦ absurd (ground arith)
            | inr got ↦ (got.0, got.1, ground arith)
          ],
        )
      ]

  pub search_below :
      (fuel : ℕ) (blocks : List Block) (height : ℤ) (block_hash local_hash : String) (m : ℤ)
      → search node_hash fuel blocks height block_hash local_hash ≡ ok m
      → m ≤ℤ height
  unfolding search
  search_below zero blocks height block_hash local_hash m e = ground (arith)
  search_below (suc n) blocks height block_hash local_hash m e =
      elim (search_turn n blocks height block_hash local_hash m e) [
        | inl done ↦ omega (int_laws, done.1)
        | inr more ↦
            let (apart, (h, got, went)) = more in
            let low =
              search_below n blocks (height -ℤ pos 1) h
                (read_hash (find_block (height -ℤ pos 1) blocks) local_hash) m went in
            omega (int_laws, low)
      ]

  -- What a turn reads at the height below, when the table has a row there.
  read_row :
      (blocks : List Block) (k : ℤ) (local_hash : String) (b : Block)
      → find_block k blocks ≡ some b
      → read_hash (find_block k blocks) local_hash ≡ b.block_hash
  unfolding read_hash
  read_row blocks k local_hash b found = rw found refl

  not_below : (a b : ℤ) → leb_ℤ a b ≡ false → b +ℤ pos 1 ≤ℤ a
  not_below a b e =
      let apart : pos_part b + neg_part a < pos_part a + neg_part b = ground arith in omega int_laws

  below_cases :
      (k height : ℤ)
      → k +ℤ pos 1 ≤ℤ height
      → (k ≡ height -ℤ pos 1) ⊎ (k +ℤ pos 1 ≤ℤ height -ℤ pos 1)
  below_cases k height low = elim (Bool-cases (leb_ℤ (k +ℤ pos 1) (height -ℤ pos 1))) [
    | inl lower ↦ inr (ground arith)
    | inr last ↦
        let above = not_below (k +ℤ pos 1) (height -ℤ pos 1) last in inl (omega (int_laws, above))
  ]

  -- A turn whose search ends one below has found the highest agreement there.
  found_here :
      (blocks : List Block) (height m : ℤ)
      → m ≡ height -ℤ pos 1
      → Agree blocks m
      → IsLast blocks height m
  found_here blocks height m here agree = (omega int_laws, agree, λ k lo hi a. omega int_laws)

  -- One that ends lower has passed a height where they do not agree.
  found_lower :
      (blocks : List Block) (height m : ℤ)
      → IsLast blocks (height -ℤ pos 1) m
      → (Agree blocks (height -ℤ pos 1) → ⊥)
      → IsLast blocks height m
  found_lower blocks height m (low, agree, highest) differs = (
    omega int_laws,
    agree,
    λ k lo hi a. elim (below_cases k height hi) [
      | inl at_top ↦ differs (rw at_top at a)
      | inr lower ↦ highest k lo lower a
    ],
  )

  pub search_stops :
      (fuel : ℕ) (blocks : List Block) (height : ℤ) (block_hash local_hash : String) (m : ℤ)
      → ((k : ℤ) → m ≤ℤ k → k +ℤ pos 1 ≤ℤ height → Row blocks k)
      → search node_hash fuel blocks height block_hash local_hash ≡ ok m
      → ((block_hash ≡ local_hash) × (m ≡ height))
        ⊎ ((block_hash ≢ local_hash) × IsLast blocks height m)
  unfolding search
  search_stops zero blocks height block_hash local_hash m rows e =
      inl (ground (arith, eq_iff block_hash local_hash), ground arith)
  search_stops (suc n) blocks height block_hash local_hash m rows e =
      elim (search_turn n blocks height block_hash local_hash m e) [
        | inl done ↦ inl done
        | inr more ↦
            let (apart, (h, got, went)) = more in
            let k = height -ℤ pos 1 in
            let l = read_hash (find_block k blocks) local_hash in
            let low = search_below n blocks k h l m went in
            let (b, found) = rows k low (omega int_laws) in
            let same = read_row blocks k local_hash b found in
            inr (
              apart,
              elim (search_stops n blocks k h l m (λ j lo hi. rows j lo (omega (int_laws, hi)))
                  went) [
                    | inl hit ↦
                        found_here blocks height m hit.1
                          (rw hit.1 (b, found, got ∙ ap some (hit.0 ∙ same)))
                    | inr passed ↦ found_lower blocks height m passed.1 (λ a.
                        let (b', found', hash) = a in
                        let one : b ≡ b' = cc (found, found') in
                        passed.0 (cc (got, hash, one, same)))
                  ],
            )
      ]
