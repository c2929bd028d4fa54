-- ===== src/Holders/Balance.antt =====
-- What an address holds of a token, and how each write of the table changes it.
use dogeuni_indexer.Prelude.{
  String, ◌≡◌, ◌↔◌, refl, true, false, none, some, List, [], ◌∷◌, ◌++◌, arith, eq_iff,
  if◌then◌else◌, Option-cases, inl, inr, ◌≢◌,
}
use dogeuni_indexer.Prelude.Int.{ℤ, pos, ◌≤ℤ◌}
use dogeuni_indexer.Models.{Drc20CollectAddress}
use dogeuni_indexer.Holders.{
  same_key, row_is, find_holder, set_amt_sum, empty_holder, or_empty, create_missing,
}

-- The balance: that of the row that `First` finds, and 0 where there is none.
unfoldable pub balance : String → String → List Drc20CollectAddress → ℤ
balance tick holder rs = (or_empty tick holder (find_holder tick holder rs)).amt_sum

abbrev pub IsHeld : String → String → List Drc20CollectAddress → Type 0
IsHeld tick holder rs = find_holder tick holder rs ≢ none

pub same_key_refl : (t h : String) → same_key t h t h ≡ true
unfolding same_key
same_key_refl t h = ground (arith, eq_iff t t, eq_iff h h)

pub same_key_eq : (t h t' h' : String) → same_key t h t' h' ≡ true → (t ≡ t') × (h ≡ h')
unfolding same_key
same_key_eq t h t' h' e = ground (arith, eq_iff t t', eq_iff h h')

pub same_key-false : (t h t' h' : String) → h ≢ h' → same_key t h t' h' ≡ false
unfolding same_key
same_key-false t h t' h' ne = ground (arith, eq_iff t t', eq_iff h h')

pub row_is_same :
    (t h t' h' : String) (r : Drc20CollectAddress)
    → row_is t h r ≡ true
    → row_is t' h' r ≡ same_key t h t' h'
unfolding row_is same_key
row_is_same t h t' h' r e = ground (
  arith,
  eq_iff r.tick t,
  eq_iff r.holder_address h,
  eq_iff r.tick t',
  eq_iff r.holder_address h',
  eq_iff t t',
  eq_iff h h',
)

pub row_is_congr :
    (t h t' h' : String) (r : Drc20CollectAddress)
    → same_key t h t' h' ≡ true
    → row_is t' h' r ≡ row_is t h r
row_is_congr t h t' h' r e = let (p, q) = same_key_eq t h t' h' e in rw (p, q)

row_is-set :
    (t h : String) (v : ℤ) (r : Drc20CollectAddress)
    → row_is t h (record r { amt_sum = v }) ≡ row_is t h r
unfolding row_is
row_is-set t h v r = refl

-- Writing one key's rows changes what is found there, and nothing elsewhere.
pub find_holder-set_amt_sum :
    (t h t' h' : String) (v : ℤ) (rs : List Drc20CollectAddress)
    → find_holder t' h' (set_amt_sum t h v rs) ≡ (
        if same_key t h t' h'
        then elim (find_holder t' h' rs) [ none ↦ none | some r ↦ some (record r { amt_sum = v }) ]
        else find_holder t' h' rs)
unfolding find_holder set_amt_sum
find_holder-set_amt_sum t h t' h' v [] = ground arith
find_holder-set_amt_sum t h t' h' v (r ∷ rs) = ground (
  arith,
  find_holder-set_amt_sum t h t' h' v rs,
  row_is_same t h t' h' r,
  row_is_congr t h t' h' r,
  row_is-set t' h' v r,
)

row_is_empty : (t h t' h' : String) → row_is t' h' (empty_holder t h) ≡ same_key t h t' h'
unfolding row_is same_key
row_is_empty t h t' h' = refl

pub find_holder-append :
    (t h t' h' : String) (rs : List Drc20CollectAddress)
    → find_holder t' h' rs ≡ none
    → find_holder t' h' (rs ++ empty_holder t h ∷ [])
      ≡ (if same_key t h t' h' then some (empty_holder t h) else none)
unfolding find_holder
find_holder-append t h t' h' [] e = ground (arith, row_is_empty t h t' h')
find_holder-append t h t' h' (r ∷ rs) e = ground (arith, find_holder-append t h t' h' rs)

find_holder-append_some :
    (t h t' h' : String) (rs : List Drc20CollectAddress) {r : Drc20CollectAddress}
    → find_holder t' h' rs ≡ some r
    → find_holder t' h' (rs ++ empty_holder t h ∷ []) ≡ some r
unfolding find_holder
find_holder-append_some t h t' h' [] e = cc
find_holder-append_some t h t' h' (r ∷ rs) {r = found} e =
    ground (arith, find_holder-append_some t h t' h' rs {r = found})

same_find :
    (t h t' h' : String) (rs : List Drc20CollectAddress)
    → same_key t h t' h' ≡ true
    → find_holder t' h' rs ≡ find_holder t h rs
same_find t h t' h' rs e = let (p, q) = same_key_eq t h t' h' e in rw (p, q)

-- After `create_missing` the key's row is there, and no other row has changed.
pub find_holder-create_missing :
    (t h t' h' : String) (rs : List Drc20CollectAddress)
    → find_holder t' h' (create_missing t h rs) ≡ (
        if same_key t h t' h'
        then some (or_empty t h (find_holder t h rs))
        else find_holder t' h' rs)
unfolding create_missing
find_holder-create_missing t h t' h' rs = elim (Option-cases (find_holder t' h' rs)) [
  | inl e ↦ ground (arith, find_holder-append t h t' h' rs e, same_find t h t' h' rs)
  | inr (r, e) ↦ ground (arith, find_holder-append_some t h t' h' rs e, same_find t h t' h' rs)
]

-- A balance after a write to a row that is there.
pub balance-set_amt_sum :
    (t h t' h' : String) (v : ℤ) (rs : List Drc20CollectAddress)
    → IsHeld t h rs
    → balance t' h' (set_amt_sum t h v rs) ≡ (if same_key t h t' h' then v else balance t' h' rs)
unfolding balance
balance-set_amt_sum t h t' h' v rs held =
    ground (arith, find_holder-set_amt_sum t h t' h' v rs, same_find t h t' h' rs)

-- Creating an empty row changes no balance.
pub balance-create_missing :
    (t h t' h' : String) (rs : List Drc20CollectAddress)
    → balance t' h' (create_missing t h rs) ≡ balance t' h' rs
unfolding balance
balance-create_missing t h t' h' rs =
    ground (
      arith,
      find_holder-create_missing t h t' h' rs,
      same_find t h t' h' rs,
      same_key_eq t h t' h',
    )

pub IsHeld-create_missing :
    (t h : String) (rs : List Drc20CollectAddress) → IsHeld t h (create_missing t h rs)
IsHeld-create_missing t h rs =
    ground (arith, find_holder-create_missing t h t h rs, same_key_refl t h)

-- No write takes a row away.
pub IsHeld-set_amt_sum :
    (t h t' h' : String) (v : ℤ) (rs : List Drc20CollectAddress)
    → IsHeld t' h' rs
    → IsHeld t' h' (set_amt_sum t h v rs)
IsHeld-set_amt_sum t h t' h' v rs held = ground (arith, find_holder-set_amt_sum t h t' h' v rs)

pub IsHeld-create_missing_other :
    (t h t' h' : String) (rs : List Drc20CollectAddress)
    → IsHeld t' h' rs
    → IsHeld t' h' (create_missing t h rs)
IsHeld-create_missing_other t h t' h' rs held =
    ground (arith, find_holder-create_missing t h t' h' rs)

pub balance-eq_of_find :
    (t h : String) (rs : List Drc20CollectAddress) {r : Drc20CollectAddress}
    → find_holder t h rs ≡ some r
    → balance t h rs ≡ r.amt_sum
unfolding balance
balance-eq_of_find t h rs e = rw (e, balance)

-- The rows after an amount is put where the row may have to be created first.
module _ (t h : String) (v : ℤ) (rs : List Drc20CollectAddress) where
  abbrev pub put_amt_sum : List Drc20CollectAddress
  put_amt_sum = set_amt_sum t h v (create_missing t h rs)

  pub balance-put_amt_sum :
      (t' h' : String)
      → balance t' h' put_amt_sum ≡ (if same_key t h t' h' then v else balance t' h' rs)
  balance-put_amt_sum t' h' = ground (
    arith,
    balance-set_amt_sum t h t' h' v (create_missing t h rs) (IsHeld-create_missing t h rs),
    balance-create_missing t h t' h' rs,
  )

-- Which rows are missing after each write.
pub set_amt_sum-absent :
    (t h t' h' : String) (v : ℤ) (rs : List Drc20CollectAddress)
    → (find_holder t' h' (set_amt_sum t h v rs) ≡ none) ↔ (find_holder t' h' rs ≡ none)
set_amt_sum-absent t h t' h' v rs = (
  λ e. ground (arith, find_holder-set_amt_sum t h t' h' v rs),
  λ e. ground (arith, find_holder-set_amt_sum t h t' h' v rs),
)

pub create_missing-absent :
    (t h t' h' : String) (rs : List Drc20CollectAddress)
    → (find_holder t' h' (create_missing t h rs) ≡ none)
      ↔ ((same_key t h t' h' ≡ false) × (find_holder t' h' rs ≡ none))
create_missing-absent t h t' h' rs = (
  λ e. ground (arith, find_holder-create_missing t h t' h' rs),
  λ e. ground (arith, find_holder-create_missing t h t' h' rs),
)

-- A balance other than 0 stands in a row.
pub IsHeld-of_balance :
    (t h : String) (rs : List Drc20CollectAddress) → pos 1 ≤ℤ balance t h rs → IsHeld t h rs
unfolding balance
IsHeld-of_balance t h rs p = ground arith

pub put_amt_sum-absent :
    (t h t' h' : String) (v : ℤ) (rs : List Drc20CollectAddress)
    → (find_holder t' h' (put_amt_sum t h v rs) ≡ none)
      ↔ ((same_key t h t' h' ≡ false) × (find_holder t' h' rs ≡ none))
put_amt_sum-absent t h t' h' v rs =
    let first = set_amt_sum-absent t h t' h' v (create_missing t h rs) in
    let second = create_missing-absent t h t' h' rs in
    (λ e. second.0 (first.0 e), λ e. first.1 (second.1 e))

pub IsHeld-put_amt_sum :
    (t h : String) (v : ℤ) (rs : List Drc20CollectAddress) → IsHeld t h (put_amt_sum t h v rs)
IsHeld-put_amt_sum t h v rs =
    IsHeld-set_amt_sum t h t h v (create_missing t h rs) (IsHeld-create_missing t h rs)

-- What the two writes leave at the key itself.
pub balance-put_self :
    (t h : String) (v : ℤ) (rs : List Drc20CollectAddress) → balance t h (put_amt_sum t h v rs) ≡ v
balance-put_self t h v rs = rw (balance-put_amt_sum t h v rs t h, same_key_refl t h)

pub balance-set_self :
    (t h : String) (v : ℤ) (rs : List Drc20CollectAddress)
    → IsHeld t h rs
    → balance t h (set_amt_sum t h v rs) ≡ v
balance-set_self t h v rs held = rw (balance-set_amt_sum t h t h v rs held, same_key_refl t h)
