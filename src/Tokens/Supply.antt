-- ===== src/Tokens/Supply.antt =====
-- The recorded supply of a token, and how the writes change it.
use dogeuni_indexer.Prelude.{
  ℕ, String, ◌≡◌, ◌≢◌, ◌↔◌, Option, none, some, List, [], ◌∷◌, ◌++◌, arith, ◌==◌, eq_iff,
  if◌then◌else◌,
}
use dogeuni_indexer.Prelude.Int.{ℤ, pos}
use dogeuni_indexer.Models.{Drc20Collect}
use dogeuni_indexer.Tokens.{find_token, set_token}

-- `amt_sum` of the token's row, and 0 where it has none.
abbrev supply_of : Option Drc20Collect → ℤ
supply_of none = pos 0
supply_of (some c) = c.amt_sum

unfoldable pub supply : String → List Drc20Collect → ℤ
supply tick cs = supply_of (find_token tick cs)

abbrev pub IsDeployed : String → List Drc20Collect → Type 0
IsDeployed tick cs = find_token tick cs ≢ none

pub find_token-set_token :
    (t t' : String) (v : ℤ) (n : ℕ) (cs : List Drc20Collect)
    → find_token t' (set_token t v n cs) ≡ (
        if t == t'
        then elim (find_token t' cs) [
          | none ↦ none
          | some c ↦ some (record c { amt_sum = v; transactions = n })
        ]
        else find_token t' cs)
unfolding find_token set_token
find_token-set_token t t' v n [] = ground arith
find_token-set_token t t' v n (c ∷ cs) =
    ground (arith, find_token-set_token t t' v n cs, eq_iff c.tick t, eq_iff c.tick t', eq_iff t t')

-- The supply after a write to a row that is there.
pub supply-set_token :
    (t t' : String) (v : ℤ) (n : ℕ) (cs : List Drc20Collect)
    → IsDeployed t cs
    → supply t' (set_token t v n cs) ≡ (if t == t' then v else supply t' cs)
unfolding supply
supply-set_token t t' v n cs there = ground (arith, find_token-set_token t t' v n cs, eq_iff t t')

pub IsDeployed-set_token :
    (t t' : String) (v : ℤ) (n : ℕ) (cs : List Drc20Collect)
    → IsDeployed t' cs
    → IsDeployed t' (set_token t v n cs)
IsDeployed-set_token t t' v n cs there = ground (arith, find_token-set_token t t' v n cs)

pub supply-eq_of_find :
    (t : String) (cs : List Drc20Collect) {c : Drc20Collect}
    → find_token t cs ≡ some c
    → supply t cs ≡ c.amt_sum
unfolding supply
supply-eq_of_find t cs e = rw (e, supply)

pub set_token-absent :
    (t t' : String) (v : ℤ) (n : ℕ) (cs : List Drc20Collect)
    → (find_token t' (set_token t v n cs) ≡ none) ↔ (find_token t' cs ≡ none)
set_token-absent t t' v n cs = (
  λ e. ground (arith, find_token-set_token t t' v n cs),
  λ e. ground (arith, find_token-set_token t t' v n cs),
)

pub supply-set_self :
    (t : String) (v : ℤ) (n : ℕ) (cs : List Drc20Collect)
    → IsDeployed t cs
    → supply t (set_token t v n cs) ≡ v
supply-set_self t v n cs there = ground (arith, supply-set_token t t v n cs there, eq_iff t t)

-- A row that is added behind the others is found where none was.
pub find_token-append :
    (t : String) (c : Drc20Collect) (cs : List Drc20Collect)
    → find_token t (cs ++ c ∷ [])
      ≡ elim (find_token t cs) [ none ↦ if c.tick == t then some c else none | some d ↦ some d ]
unfolding find_token
find_token-append t c [] = ground arith
find_token-append t c (d ∷ cs) = ground (arith, find_token-append t c cs)

pub supply-append :
    (t : String) (c : Drc20Collect) (cs : List Drc20Collect)
    → c.amt_sum ≡ pos 0
    → supply t (cs ++ c ∷ []) ≡ supply t cs
unfolding supply
supply-append t c cs e = ground (arith, find_token-append t c cs)
