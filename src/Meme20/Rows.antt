-- ===== src/Meme20/Rows.antt =====
-- The tables meme20_collect_address and meme20_collect: what is found there after each write.
use dogeuni_indexer.Prelude.{
  ℕ, String, true, false, ◌≡◌, refl, Option, none, some, List, ◌==◌, eq_iff, if◌then◌else◌, arith,
  Bool-cases, inl, inr, ◌∙◌, ap,
}
use dogeuni_indexer.Prelude.Int.{ℤ}
use dogeuni_indexer.Models.{Meme20Collect, Meme20CollectAddress}
use dogeuni_indexer.Tables.{first_where, update_first}
use dogeuni_indexer.Tables.Rows.{
  first_where-update_first, first_where-update_first_other, first_where-append, first_where-fits,
}
use dogeuni_indexer.Holders.{same_key}
use dogeuni_indexer.Holders.Balance.{same_key_eq, same_key_refl}
use dogeuni_indexer.Ledger.{put_supply}
use dogeuni_indexer.Meme20.{is_holder, is_meme, or_new, with_row, set_meme, empty_meme_holder}

abbrev pub find_row : String → String → List Meme20CollectAddress → Option Meme20CollectAddress
find_row t h rs = first_where (is_holder t h) rs

unfoldable pub meme_balance : String → String → List Meme20CollectAddress → ℤ
meme_balance t h rs = (or_new t h (find_row t h rs)).amt

abbrev pub max_of : Option Meme20Collect → Option ℤ
max_of none = none
max_of (some c) = some c.max

unfoldable pub meme_supply : String → List Meme20Collect → Option ℤ
meme_supply t cs = max_of (first_where (is_meme t) cs)

is_holder_other :
    (t h t' h' : String) (r : Meme20CollectAddress)
    → same_key t h t' h' ≡ false
    → is_holder t h r ≡ true
    → is_holder t' h' r ≡ false
unfolding is_holder same_key
is_holder_other t h t' h' r apart e = ground (
  arith,
  eq_iff r.tick_id t,
  eq_iff r.holder_address h,
  eq_iff r.tick_id t',
  eq_iff r.holder_address h',
  eq_iff t t',
  eq_iff h h',
)

-- Writing the amount and the counter of the row of one key: what is found under any key.
module _ (t h : String) (f : Meme20CollectAddress → Meme20CollectAddress)
    (keeps : (r : Meme20CollectAddress) (t' h' : String)
      → is_holder t' h' (f r) ≡ is_holder t' h' r) where
  pub find_row-update_first :
      (rs : List Meme20CollectAddress) (r : Meme20CollectAddress)
      → find_row t h rs ≡ some r
      → (t' h' : String)
      → find_row t' h' (update_first (is_holder t h) f rs)
        ≡ (if same_key t h t' h' then some (f r) else find_row t' h' rs)
  find_row-update_first rs r e t' h' = elim (Bool-cases (same_key t h t' h')) [
    | inl same ↦
        let (p, q) = same_key_eq t h t' h' same in
        rw same (
          rw (← p, ← q)
            (first_where-update_first (is_holder t h) f rs e
              (keeps r t h ∙ first_where-fits (is_holder t h) rs e)))
    | inr apart ↦ rw apart (
        first_where-update_first_other (is_holder t h) (is_holder t' h') f rs (λ q fits. (
          is_holder_other t h t' h' q apart fits,
          keeps q t' h' ∙ is_holder_other t h t' h' q apart fits,
        )))
  ]

  pub meme_balance-update_first :
      (rs : List Meme20CollectAddress) (r : Meme20CollectAddress)
      → find_row t h rs ≡ some r
      → (t' h' : String)
      → meme_balance t' h' (update_first (is_holder t h) f rs)
        ≡ (if same_key t h t' h' then (f r).amt else meme_balance t' h' rs)
  unfolding meme_balance
  meme_balance-update_first rs r e t' h' = ground (arith, find_row-update_first rs r e t' h')

pub set_amt_keeps :
    (v : ℤ) (r : Meme20CollectAddress) (t h : String)
    → is_holder t h (record r { amt = v }) ≡ is_holder t h r
unfolding is_holder
set_amt_keeps v r t h = refl

pub set_count_keeps :
    (v : ℤ) (n : ℕ) (r : Meme20CollectAddress) (t h : String)
    → is_holder t h (record r { amt = v; transactions = n }) ≡ is_holder t h r
unfolding is_holder
set_count_keeps v n r t h = refl

is_holder_empty :
    (t h t' h' : String) → is_holder t' h' (empty_meme_holder t h) ≡ same_key t h t' h'
unfolding is_holder
is_holder_empty t h t' h' = refl

-- Creating the missing row: it is found, and no balance moves.
pub find_row-with_row :
    (t h : String) (rs : List Meme20CollectAddress)
    → find_row t h (with_row t h (find_row t h rs) rs) ≡ some (or_new t h (find_row t h rs))
unfolding with_row
find_row-with_row t h rs = ground (
  arith,
  first_where-append (is_holder t h) (empty_meme_holder t h) rs,
  is_holder_empty t h t h,
  same_key_refl t h,
)

pub find_row-with_row_other :
    (t h t' h' : String) (rs : List Meme20CollectAddress) (r : Meme20CollectAddress)
    → find_row t' h' rs ≡ some r
    → find_row t' h' (with_row t h (find_row t h rs) rs) ≡ some r
unfolding with_row
find_row-with_row_other t h t' h' rs r e =
    ground (arith, first_where-append (is_holder t' h') (empty_meme_holder t h) rs)

pub meme_balance-with_row :
    (t h t' h' : String) (rs : List Meme20CollectAddress)
    → meme_balance t' h' (with_row t h (find_row t h rs) rs) ≡ meme_balance t' h' rs
unfolding with_row meme_balance
meme_balance-with_row t h t' h' rs =
    ground (arith, first_where-append (is_holder t' h') (empty_meme_holder t h) rs)

is_meme_other :
    (t t' : String) (c : Meme20Collect)
    → (t == t') ≡ false
    → is_meme t c ≡ true
    → is_meme t' c ≡ false
unfolding is_meme
is_meme_other t t' c apart e = ground (arith, eq_iff c.tick_id t, eq_iff c.tick_id t', eq_iff t t')

is_meme_set :
    (v : ℤ) (n : ℕ) (c : Meme20Collect) (t : String)
    → is_meme t (record c { max = v; transactions = n }) ≡ is_meme t c
unfolding is_meme
is_meme_set v n c t = refl

pub meme_supply-set_meme :
    (t : String) (v : ℤ) (n : ℕ) (cs : List Meme20Collect) (c : Meme20Collect)
    → first_where (is_meme t) cs ≡ some c
    → (t' : String)
    → meme_supply t' (set_meme t v n cs) ≡ put_supply t v (λ t''. meme_supply t'' cs) t'
unfolding meme_supply set_meme put_supply
meme_supply-set_meme t v n cs c e t' = elim (Bool-cases (t == t')) [
  | inl same ↦ rw same (
      rw (← (eq_iff t t').0 same) (
        ap max_of (
          first_where-update_first (is_meme t)
            (λ (d : Meme20Collect). record d { max = v; transactions = n }) cs e
            (is_meme_set v n c t ∙ first_where-fits (is_meme t) cs e))))
  | inr apart ↦ rw apart (
      ap max_of (
        first_where-update_first_other (is_meme t) (is_meme t')
          (λ (d : Meme20Collect). record d { max = v; transactions = n }) cs
          (λ q fits. (
            is_meme_other t t' q apart fits,
            is_meme_set v n q t' ∙ is_meme_other t t' q apart fits,
          ))))
]
