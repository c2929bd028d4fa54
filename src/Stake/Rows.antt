-- ===== src/Stake/Rows.antt =====
-- What is staked, in a pool and by a holder, and how the writes of the tables change it.
use dogeuni_indexer.Prelude.{
  String, true, ◌≡◌, ◌≢◌, Option, none, some, List, [], ◌∷◌, ◌++◌, ◌==◌, eq_iff, if◌then◌else◌,
  arith, Option-cases, inl, inr, refl,
}
use dogeuni_indexer.Prelude.Int.{ℤ, pos, ◌+ℤ◌, zero_add}
use dogeuni_indexer.Models.{StakeCollect, StakeCollectAddress}
use dogeuni_indexer.Holders.{same_key}
use dogeuni_indexer.Holders.Balance.{same_key_refl}
use dogeuni_indexer.Stake.{find_pool, set_pool, is_staker, find_staker, set_staker, add_staker}

abbrev amt_of_pool : Option StakeCollect → ℤ
amt_of_pool none = pos 0
amt_of_pool (some p) = p.amt

abbrev amt_of_staker : Option StakeCollectAddress → ℤ
amt_of_staker none = pos 0
amt_of_staker (some s) = s.amt

-- The amount of a pool's row, and of a holder's, and 0 where there is none.
unfoldable pub pooled : String → List StakeCollect → ℤ
pooled tick ps = amt_of_pool (find_pool tick ps)

unfoldable pub staked : String → String → List StakeCollectAddress → ℤ
staked tick holder ss = amt_of_staker (find_staker tick holder ss)

find_pool-set_pool :
    (t t' : String) (v : ℤ) (ps : List StakeCollect)
    → find_pool t' (set_pool t v ps) ≡ (
        if t == t'
        then elim (find_pool t' ps) [ none ↦ none | some p ↦ some (record p { amt = v }) ]
        else find_pool t' ps)
unfolding find_pool set_pool
find_pool-set_pool t t' v [] = ground arith
find_pool-set_pool t t' v (p ∷ ps) =
    ground (arith, find_pool-set_pool t t' v ps, eq_iff p.tick t, eq_iff p.tick t', eq_iff t t')

pub pooled-set_pool :
    (t t' : String) (v : ℤ) (ps : List StakeCollect)
    → find_pool t ps ≢ none
    → pooled t' (set_pool t v ps) ≡ (if t == t' then v else pooled t' ps)
unfolding pooled
pooled-set_pool t t' v ps there = ground (arith, find_pool-set_pool t t' v ps, eq_iff t t')

pub set_pool-there :
    (t t' : String) (v : ℤ) (ps : List StakeCollect)
    → find_pool t' ps ≢ none
    → find_pool t' (set_pool t v ps) ≢ none
set_pool-there t t' v ps there = ground (arith, find_pool-set_pool t t' v ps)

is_staker_same :
    (t h t' h' : String) (s : StakeCollectAddress)
    → is_staker t h s ≡ true
    → is_staker t' h' s ≡ same_key t h t' h'
unfolding is_staker same_key
is_staker_same t h t' h' s e = ground (
  arith,
  eq_iff s.tick t,
  eq_iff s.holder_address h,
  eq_iff s.tick t',
  eq_iff s.holder_address h',
  eq_iff t t',
  eq_iff h h',
)

same_staker :
    (t h t' h' : String) (s : StakeCollectAddress)
    → same_key t h t' h' ≡ true
    → is_staker t' h' s ≡ is_staker t h s
unfolding is_staker same_key
same_staker t h t' h' s e = ground (
  arith,
  eq_iff s.tick t,
  eq_iff s.holder_address h,
  eq_iff s.tick t',
  eq_iff s.holder_address h',
  eq_iff t t',
  eq_iff h h',
)

is_staker-set :
    (t h : String) (v : ℤ) (s : StakeCollectAddress)
    → is_staker t h (record s { amt = v }) ≡ is_staker t h s
unfolding is_staker
is_staker-set t h v s = refl

find_staker-set_staker :
    (t h t' h' : String) (v : ℤ) (ss : List StakeCollectAddress)
    → find_staker t' h' (set_staker t h v ss) ≡ (
        if same_key t h t' h'
        then elim (find_staker t' h' ss) [ none ↦ none | some s ↦ some (record s { amt = v }) ]
        else find_staker t' h' ss)
unfolding find_staker set_staker
find_staker-set_staker t h t' h' v [] = ground arith
find_staker-set_staker t h t' h' v (s ∷ ss) = ground (
  arith,
  find_staker-set_staker t h t' h' v ss,
  is_staker_same t h t' h' s,
  same_staker t h t' h' s,
  is_staker-set t' h' v s,
)

abbrev new_staker : String → String → ℤ → StakeCollectAddress
new_staker t h v = record {
  tick = t;
  holder_address = h;
  amt = v;
  reward = pos 0;
  received_reward = pos 0;
}

find_staker-append :
    (t h t' h' : String) (v : ℤ) (ss : List StakeCollectAddress)
    → find_staker t' h' (ss ++ new_staker t h v ∷ []) ≡ elim (find_staker t' h' ss) [
      | none ↦ if same_key t h t' h' then some (new_staker t h v) else none
      | some s ↦ some s
    ]
unfolding find_staker is_staker same_key
find_staker-append t h t' h' v [] = ground arith
find_staker-append t h t' h' v (s ∷ ss) = ground (arith, find_staker-append t h t' h' v ss)

same_find :
    (t h t' h' : String) (ss : List StakeCollectAddress)
    → same_key t h t' h' ≡ true
    → find_staker t' h' ss ≡ find_staker t h ss
unfolding find_staker
same_find t h t' h' [] e = refl
same_find t h t' h' (s ∷ ss) e = ground (arith, same_find t h t' h' ss e, same_staker t h t' h' s e)

pub staked-set_staker :
    (t h t' h' : String) (v : ℤ) (ss : List StakeCollectAddress)
    → find_staker t h ss ≢ none
    → staked t' h' (set_staker t h v ss) ≡ (if same_key t h t' h' then v else staked t' h' ss)
unfolding staked
staked-set_staker t h t' h' v ss there =
    ground (arith, find_staker-set_staker t h t' h' v ss, same_find t h t' h' ss)

-- Adding to a holder's stake, created or not.
pub staked-add_staker :
    (t h t' h' : String) (v : ℤ) (ss : List StakeCollectAddress)
    → staked t' h' (add_staker t h v ss) ≡ (
        if same_key t h t' h'
        then elim (find_staker t h ss) [ none ↦ v | some s ↦ s.amt +ℤ v ]
        else staked t' h' ss)
unfolding staked add_staker
staked-add_staker t h t' h' v ss = elim (Option-cases (find_staker t h ss)) [
  | inl e ↦ ground (arith, find_staker-append t h t' h' v ss, same_find t h t' h' ss)
  | inr (s, e) ↦
      ground (arith, find_staker-set_staker t h t' h' (s.amt +ℤ v) ss, same_find t h t' h' ss)
]

-- The stake of a holder after an addition, whether the row was there or not.
pub staked-add_self :
    (t h : String) (v : ℤ) (ss : List StakeCollectAddress)
    → staked t h (add_staker t h v ss) ≡ staked t h ss +ℤ v
staked-add_self t h v ss = elim (Option-cases (find_staker t h ss)) [
  | inl e ↦
      rw (staked-add_staker t h t h v ss, same_key_refl t h)
        (unfold staked in ground (arith, zero_add v))
  | inr (s, e) ↦
      rw (staked-add_staker t h t h v ss, same_key_refl t h) (unfold staked in ground arith)
]

pub staked-set_self :
    (t h : String) (v : ℤ) (ss : List StakeCollectAddress)
    → find_staker t h ss ≢ none
    → staked t h (set_staker t h v ss) ≡ v
staked-set_self t h v ss there = rw (staked-set_staker t h t h v ss there, same_key_refl t h)

pub pooled-set_self :
    (t : String) (v : ℤ) (ps : List StakeCollect)
    → find_pool t ps ≢ none
    → pooled t (set_pool t v ps) ≡ v
pooled-set_self t v ps there = rw (pooled-set_pool t t v ps there, (eq_iff t t).1 refl)

pub add_staker-there :
    (t h : String) (v : ℤ) (ss : List StakeCollectAddress)
    → find_staker t h (add_staker t h v ss) ≢ none
unfolding add_staker
add_staker-there t h v ss = elim (Option-cases (find_staker t h ss)) [
  | inl e ↦ ground (arith, find_staker-append t h t h v ss, same_key_refl t h)
  | inr (s, e) ↦ ground (arith, find_staker-set_staker t h t h (s.amt +ℤ v) ss)
]

pub set_staker-there :
    (t h : String) (v : ℤ) (ss : List StakeCollectAddress)
    → find_staker t h ss ≢ none
    → find_staker t h (set_staker t h v ss) ≢ none
set_staker-there t h v ss there = ground (arith, find_staker-set_staker t h t h v ss)
