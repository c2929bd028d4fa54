-- ===== src/Holders/Total.antt =====
-- The sum of the balances of a token, and the invariant under which a write moves it by exactly
-- what it moves the balance: no key twice, and no negative balance.
use dogeuni_indexer.Prelude.{
  String, ◌≡◌, refl, ◌≢◌, true, false, none, List, [], ◌∷◌, ◌++◌, arith, ◌==◌, eq_iff,
  if◌then◌else◌, Bool-cases, inl, inr, ◌∙◌,
}
use dogeuni_indexer.Prelude.Int.{ℤ, pos, ◌+ℤ◌, ◌≤ℤ◌, int_laws, +ℤ_parts, eq_of_parts}
use dogeuni_indexer.Models.{Drc20CollectAddress}
use dogeuni_indexer.Holders.{row_is, find_holder, set_amt_sum, empty_holder, create_missing}
use dogeuni_indexer.Holders.Balance.{
  balance, IsHeld, same_key_refl, same_key_eq, find_holder-set_amt_sum, find_holder-append,
  put_amt_sum, IsHeld-create_missing, balance-create_missing,
}

-- No balance is negative, and no key stands in two rows.
abbrev pub IsSound : List Drc20CollectAddress → Type 0
IsSound [] = Unit {0}
IsSound (r ∷ rs) =
    (pos 0 ≤ℤ r.amt_sum) × (find_holder r.tick r.holder_address rs ≡ none) × IsSound rs

abbrev share : String → Drc20CollectAddress → ℤ
share tick r = if r.tick == tick then r.amt_sum else pos 0

-- The sum of the balances of a token.
unfoldable pub total : String → List Drc20CollectAddress → ℤ
total tick [] = pos 0
total tick (r ∷ rs) = share tick r +ℤ total tick rs

row_is_self : (r : Drc20CollectAddress) → row_is r.tick r.holder_address r ≡ true
unfolding row_is
row_is_self r = same_key_refl r.tick r.holder_address

row_is_keys :
    (t h : String) (r : Drc20CollectAddress)
    → row_is t h r ≡ true
    → (r.tick ≡ t) × (r.holder_address ≡ h)
unfolding row_is
row_is_keys t h r e = same_key_eq r.tick r.holder_address t h e

pub set_amt_sum-none :
    (t h : String) (v : ℤ) (rs : List Drc20CollectAddress)
    → find_holder t h rs ≡ none
    → set_amt_sum t h v rs ≡ rs
unfolding set_amt_sum find_holder
set_amt_sum-none t h v [] e = refl
set_amt_sum-none t h v (r ∷ rs) e = ground (arith, set_amt_sum-none t h v rs)

pub set_amt_sum-IsSound :
    (t h : String) (v : ℤ) (rs : List Drc20CollectAddress)
    → pos 0 ≤ℤ v
    → IsSound rs
    → IsSound (set_amt_sum t h v rs)
unfolding set_amt_sum
set_amt_sum-IsSound t h v [] p s = tt
set_amt_sum-IsSound t h v (r ∷ rs) p s = ground (
  arith,
  set_amt_sum-IsSound t h v rs p s.2,
  find_holder-set_amt_sum t h r.tick r.holder_address v rs,
)

append-IsSound :
    (t h : String) (rs : List Drc20CollectAddress)
    → find_holder t h rs ≡ none
    → IsSound rs
    → IsSound (rs ++ empty_holder t h ∷ [])
unfolding find_holder
append-IsSound t h [] e s = ground arith
append-IsSound t h (r ∷ rs) e s = ground (
  arith,
  append-IsSound t h rs,
  find_holder-append t h r.tick r.holder_address rs s.1,
  same_key_eq t h r.tick r.holder_address,
  row_is_self r,
)

pub create_missing-IsSound :
    (t h : String) (rs : List Drc20CollectAddress) → IsSound rs → IsSound (create_missing t h rs)
unfolding create_missing
create_missing-IsSound t h rs s = ground (arith, append-IsSound t h rs)

pub balance_nonneg :
    (t h : String) (rs : List Drc20CollectAddress) → IsSound rs → pos 0 ≤ℤ balance t h rs
unfolding balance find_holder
balance_nonneg t h [] s = ground arith
balance_nonneg t h (r ∷ rs) s = ground (arith, balance_nonneg t h rs s.2)

total-append :
    (t h t' : String) (rs : List Drc20CollectAddress)
    → total t' (rs ++ empty_holder t h ∷ []) ≡ total t' rs
unfolding total
total-append t h t' [] =
    ground (arith, +ℤ_parts (pos 0) (pos 0), eq_of_parts (pos 0 +ℤ pos 0) (pos 0))
total-append t h t' (r ∷ rs) = rw (total-append t h t' rs)

-- Creating an empty row moves no total.
pub total-create_missing :
    (t h t' : String) (rs : List Drc20CollectAddress)
    → total t' (create_missing t h rs) ≡ total t' rs
unfolding create_missing
total-create_missing t h t' rs = ground (arith, total-append t h t' rs)

share_self : (t h : String) (r : Drc20CollectAddress) → row_is t h r ≡ true → share t r ≡ r.amt_sum
share_self t h r e = ground (arith, row_is_keys t h r e, eq_iff r.tick t)

share_other :
    (t h t' : String) (r : Drc20CollectAddress) → t ≢ t' → row_is t h r ≡ true → share t' r ≡ pos 0
share_other t h t' r ne e = ground (arith, row_is_keys t h r e, eq_iff r.tick t')

module _ (t h : String) (v : ℤ) (r : Drc20CollectAddress) (rs : List Drc20CollectAddress) where
  total_cons : total t (r ∷ rs) ≡ share t r +ℤ total t rs
  unfolding total
  total_cons = refl

  set_amt_sum_hit :
      row_is t h r ≡ true
      → find_holder t h rs ≡ none
      → set_amt_sum t h v (r ∷ rs) ≡ record r { amt_sum = v } ∷ rs
  unfolding set_amt_sum
  set_amt_sum_hit e absent = rw (e, set_amt_sum-none t h v rs absent)

  set_amt_sum_miss : row_is t h r ≡ false → set_amt_sum t h v (r ∷ rs) ≡ r ∷ set_amt_sum t h v rs
  unfolding set_amt_sum
  set_amt_sum_miss e = rw e

  balance_hit : row_is t h r ≡ true → balance t h (r ∷ rs) ≡ r.amt_sum
  unfolding balance find_holder
  balance_hit e = ground arith

  balance_miss : row_is t h r ≡ false → balance t h (r ∷ rs) ≡ balance t h rs
  unfolding balance find_holder
  balance_miss e = ground arith

  IsHeld-miss : row_is t h r ≡ false → IsHeld t h (r ∷ rs) → IsHeld t h rs
  unfolding find_holder
  IsHeld-miss e held = ground arith

  share_written : row_is t h r ≡ true → share t (record r { amt_sum = v }) ≡ v
  unfolding row_is
  share_written e = share_self t h (record r { amt_sum = v }) e

-- A write moves the total of its token by what it moves the balance.
pub total-set_amt_sum :
    (t h : String) (v : ℤ) (rs : List Drc20CollectAddress)
    → IsSound rs
    → IsHeld t h rs
    → total t (set_amt_sum t h v rs) +ℤ balance t h rs ≡ total t rs +ℤ v
total-set_amt_sum t h v [] s held = absurd (held (unfold find_holder in refl))
total-set_amt_sum t h v (r ∷ rs) s held = elim (Bool-cases (row_is t h r)) [
  | inl e ↦
      let (p, q) = row_is_keys t h r e in
      let absent : find_holder t h rs ≡ none = rw (p, q) at s.1 in
      rw (set_amt_sum_hit t h v r rs e absent, balance_hit t h v r rs e)
        (rw (total_cons t h v (record r { amt_sum = v }) rs, share_written t h v r rs e)
          (rw (total_cons t h v r rs, share_self t h r e) (omega int_laws)))
  | inr e ↦
      rw (set_amt_sum_miss t h v r rs e, balance_miss t h v r rs e)
        (rw (total_cons t h v r (set_amt_sum t h v rs)) (
          rw (total_cons t h v r rs)
            (omega (int_laws, total-set_amt_sum t h v rs s.2 (IsHeld-miss t h v r rs e held)))))
]

-- The totals of the other tokens stay.
pub total-set_amt_sum_ne :
    (t h t' : String) (v : ℤ) (rs : List Drc20CollectAddress)
    → t ≢ t'
    → total t' (set_amt_sum t h v rs) ≡ total t' rs
unfolding total set_amt_sum row_is
total-set_amt_sum_ne t h t' v [] ne = refl
total-set_amt_sum_ne t h t' v (r ∷ rs) ne = elim (Bool-cases (row_is t h r)) [
  | inl e ↦
      rw (e, total-set_amt_sum_ne t h t' v rs ne, share_other t h t' r ne e)
        (rw (share_other t h t' (record r { amt_sum = v }) ne e))
  | inr e ↦ rw (e, total-set_amt_sum_ne t h t' v rs ne)
]

-- Putting an amount where the row may have to be created first.
module _ (t h : String) (v : ℤ) (rs : List Drc20CollectAddress) where
  pub total-put_amt_sum :
      IsSound rs → total t (put_amt_sum t h v rs) +ℤ balance t h rs ≡ total t rs +ℤ v
  total-put_amt_sum s =
      let moved =
        total-set_amt_sum t h v (create_missing t h rs) (create_missing-IsSound t h rs s)
          (IsHeld-create_missing t h rs) in
      rw (balance-create_missing, total-create_missing) at moved

  pub total-put_amt_sum_ne : (t' : String) → t ≢ t' → total t' (put_amt_sum t h v rs) ≡ total t' rs
  total-put_amt_sum_ne t' ne =
      total-set_amt_sum_ne t h t' v (create_missing t h rs) ne ∙ total-create_missing t h t' rs

  pub put_amt_sum-IsSound : pos 0 ≤ℤ v → IsSound rs → IsSound (put_amt_sum t h v rs)
  put_amt_sum-IsSound p s =
      set_amt_sum-IsSound t h v (create_missing t h rs) p (create_missing-IsSound t h rs s)

pub total_nonneg : (t : String) (rs : List Drc20CollectAddress) → IsSound rs → pos 0 ≤ℤ total t rs
unfolding total
total_nonneg t [] s = omega arith
total_nonneg t (r ∷ rs) s =
    let rest = total_nonneg t rs s.2 in
    let own : pos 0 ≤ℤ share t r = ground (arith, s.0) in omega (int_laws, rest, own)
