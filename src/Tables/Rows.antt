-- ===== src/Tables/Rows.antt =====
-- Statements on a table: what is found, and what a column adds up to, after a write through a row
-- that was read, after `Create` and after `Delete`.
use dogeuni_indexer.Prelude.{
  Bool, true, false, ◌≡◌, refl, none, some, List, [], ◌∷◌, ◌++◌, if◌then◌else◌, arith,
}
use dogeuni_indexer.Tables.{first_where, find_where, update_first, delete_where}

module _ {ℓ} {A : Type ℓ} where
  pub first_where-update_first :
      (fits : A → Bool) (f : A → A) (rs : List A) {r : A}
      → first_where fits rs ≡ some r
      → fits (f r) ≡ true
      → first_where fits (update_first fits f rs) ≡ some (f r)
  unfolding first_where update_first
  first_where-update_first fits f [] e kept = cc
  first_where-update_first fits f (q ∷ rs) {r} e kept =
      ground (arith, first_where-update_first fits f rs {r = r})

  -- A write that is not among the rows that another condition fits.
  pub first_where-update_first_other :
      (fits other : A → Bool) (f : A → A) (rs : List A)
      → ((r : A) → fits r ≡ true → (other r ≡ false) × (other (f r) ≡ false))
      → first_where other (update_first fits f rs) ≡ first_where other rs
  unfolding first_where update_first
  first_where-update_first_other fits other f [] apart = refl
  first_where-update_first_other fits other f (q ∷ rs) apart =
      ground (arith, first_where-update_first_other fits other f rs apart, apart q)

  pub first_where-append :
      (fits : A → Bool) (r : A) (rs : List A)
      → first_where fits (rs ++ r ∷ [])
        ≡ elim (first_where fits rs) [ none ↦ if fits r then some r else none | some q ↦ some q ]
  unfolding first_where
  first_where-append fits r [] = ground arith
  first_where-append fits r (q ∷ rs) = ground (arith, first_where-append fits r rs)

  -- Nothing that fits is found once what fits was deleted.
  pub find_where-delete_where :
      (fits : A → Bool) (rs : List A) → find_where fits (delete_where fits rs) ≡ []
  unfolding find_where delete_where
  find_where-delete_where fits [] = refl
  find_where-delete_where fits (q ∷ rs) = ground (arith, find_where-delete_where fits rs)

  -- A row is deleted that was added where none fitted.
  pub delete_where-append :
      (fits : A → Bool) (r : A) (rs : List A)
      → first_where fits rs ≡ none
      → fits r ≡ true
      → delete_where fits (rs ++ r ∷ []) ≡ rs
  unfolding first_where delete_where
  delete_where-append fits r [] new e = ground arith
  delete_where-append fits r (q ∷ rs) new e = ground (arith, delete_where-append fits r rs)

  -- A row that is found fits.
  pub first_where-fits :
      (fits : A → Bool) (rs : List A) {r : A} → first_where fits rs ≡ some r → fits r ≡ true
  unfolding first_where
  first_where-fits fits [] e = cc
  first_where-fits fits (q ∷ rs) {r} e = ground (arith, first_where-fits fits rs {r = r})
