-- ===== src/Tables.antt =====
-- Statements on any table: `Where(...).First`, `Where(...).Find`, `Where(...).Updates(...)` and `Where(...).Delete`.
pub mod Rows
use dogeuni_indexer.Prelude.{Bool, ◌≡◌, Option, none, some, List, [], ◌∷◌, if◌then◌else◌, arith}

unfoldable pub first_where {ℓ} : {A : Type ℓ} → (A → Bool) → List A → Option A
first_where fits [] = none
first_where fits (r ∷ rs) = if fits r then some r else first_where fits rs

unfoldable pub find_where {ℓ} : {A : Type ℓ} → (A → Bool) → List A → List A
find_where fits [] = []
find_where fits (r ∷ rs) = if fits r then r ∷ find_where fits rs else find_where fits rs

unfoldable pub update_where {ℓ} : {A : Type ℓ} → (A → Bool) → (A → A) → List A → List A
update_where fits f [] = []
update_where fits f (r ∷ rs) = (if fits r then f r else r) ∷ update_where fits f rs

-- An update through a row that was read, which goes by the row's id: that of the first that fits.
unfoldable pub update_first {ℓ} : {A : Type ℓ} → (A → Bool) → (A → A) → List A → List A
update_first fits f [] = []
update_first fits f (r ∷ rs) =
    let rest = update_first fits f rs in if fits r then f r ∷ rs else r ∷ rest

unfoldable pub delete_where {ℓ} : {A : Type ℓ} → (A → Bool) → List A → List A
delete_where fits [] = []
delete_where fits (r ∷ rs) = if fits r then delete_where fits rs else r ∷ delete_where fits rs

-- An update that keeps the rows fitting changes the row that is found, and no other.
pub first_where-update_where {ℓ} :
    {A : Type ℓ} (fits : A → Bool) (f : A → A) (rs : List A) {r : A}
    → ((r : A) → fits (f r) ≡ fits r)
    → first_where fits rs ≡ some r
    → first_where fits (update_where fits f rs) ≡ some (f r)
unfolding first_where update_where
first_where-update_where fits f [] keeps e = cc
first_where-update_where fits f (q ∷ rs) {r} keeps e =
    ground (arith, first_where-update_where fits f rs {r = r} keeps, keeps q)
