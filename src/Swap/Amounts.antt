-- ===== src/Swap/Amounts.antt =====
-- The formulas of storage/swap.go: what each operation takes and pays against the reserves.
use dogeuni_indexer.Prelude.{ℕ, ◌+◌, ◌-◌, ◌*◌, ◌/◌, ◌≤◌, ◌<◌, ◌≡◌, arith, sym, ◌∙◌, if◌then◌else◌}
use dogeuni_indexer.Prelude.Int.{
  ℤ, pos, negsuc, ◌+ℤ◌, ◌-ℤ◌, ◌*ℤ◌, ◌≤ℤ◌, int_laws, pos_mul, pos_add, pos_sub, *ℤ_mono, ltb_ℤ,
}
use dogeuni_indexer.Prelude.Div.{div_ℤ, sqrt, sqrt_ℤ, sqrt_bounds, div_ℤ_pos, div_ℤ_pos-ok}
use dogeuni_indexer.Prelude.Result.{ok, >>=-eq-ok}
use dogeuni_indexer.Swap.{first_liquidity, exec_out, remove_share, add_liquidity}
use dogeuni_indexer.Models.{SwapLiquidity}

div-mul-le : (n d : ℕ) → 0 < d → n / d * d ≤ n
div-mul-le n d h = grind arith

-- The input less its fee.
abbrev net_input : ℕ → ℕ
net_input n = n - n / 1000 * 3

exec_out_pos :
    (n rin rout : ℕ)
    → exec_out (pos n) (pos rin) (pos rout)
      ≡ div_ℤ (pos (net_input n * rout)) (pos (rin + net_input n))
unfolding exec_out
exec_out_pos n rin rout = rw (
  div_ℤ_pos n 1000 (omega arith),
  pos_mul (n / 1000) 3,
  pos_sub n (n / 1000 * 3) (omega arith),
  pos_mul (net_input n) rout,
  pos_add rin (net_input n),
)

mul_mono_left : (a b c : ℕ) → a ≤ b → a * c ≤ b * c
mul_mono_left a b c h = grind arith

mul_cancel_le : (a b d : ℕ) → 0 < d → a * d ≤ b * d → a ≤ b
mul_cancel_le a b d p h = grind arith

product_kept :
    (i n rin e k : ℕ) → i ≤ n → k * (rin + i) ≤ i * (e + k) → rin * (e + k) ≤ (rin + n) * e
product_kept i n rin e k le paid = omega (arith, mul_mono_left i n e le)

paid_in_reach : (i rin rout k : ℕ) → 0 < rin + i → k * (rin + i) ≤ i * rout → k ≤ rout
paid_in_reach i rin rout k p paid =
    mul_cancel_le k rout (rin + i) p (omega (arith, mul_mono_left i (rin + i) rout (omega arith)))

exec_out_nat :
    (n rin rout : ℕ) (out : ℤ)
    → exec_out (pos n) (pos rin) (pos rout) ≡ ok out
    → (k : ℕ) × (out ≡ pos k) × (k ≤ rout) × (rin * rout ≤ (rin + n) * (rout - k))
exec_out_nat n rin rout out e =
    let i = net_input n in
    let (p, same) = div_ℤ_pos-ok (i * rout) (rin + i) (sym (exec_out_pos n rin rout) ∙ e) in
    let k = i * rout / (rin + i) in
    let paid : k * (rin + i) ≤ i * rout = div-mul-le (i * rout) (rin + i) p in
    let reach = paid_in_reach i rin rout k p paid in
    let split : rout ≡ rout - k + k = omega arith in
    let paid' : k * (rin + i) ≤ i * (rout - k + k) = rw (← split) paid in
    let kept = product_kept i n rin (rout - k) k (omega arith) paid' in
    (k, same, reach, rw (← split) at kept)

-- For an input and reserves that are not negative, an exchange pays out nothing negative and at
-- most the reserve, and the product of the reserves after it is at least the one before.
pub exec_out_product :
    (amt0 reserve_in reserve_out out : ℤ)
    → pos 0 ≤ℤ amt0
    → pos 0 ≤ℤ reserve_in
    → pos 0 ≤ℤ reserve_out
    → exec_out amt0 reserve_in reserve_out ≡ ok out
    → (pos 0 ≤ℤ out)
      × (out ≤ℤ reserve_out)
      × (reserve_in *ℤ reserve_out ≤ℤ (reserve_in +ℤ amt0) *ℤ (reserve_out -ℤ out))
exec_out_product (pos n) (pos rin) (pos rout) out p q r e =
    let (k, same, reach, kept) = exec_out_nat n rin rout out e in
    rw same (
      omega arith,
      omega arith,
      rw (pos_mul rin rout, pos_add rin n, pos_sub rout k reach, pos_mul (rin + n) (rout - k))
          (omega (arith, kept)),
    )
exec_out_product (negsuc n) _ _ out p q r e = absurd (omega arith)
exec_out_product (pos n) (negsuc rin) _ out p q r e = absurd (omega arith)
exec_out_product (pos n) (pos rin) (negsuc rout) out p q r e = absurd (omega arith)

pub div_nat :
    (n l d : ℕ) {q : ℤ}
    → div_ℤ (pos n *ℤ pos l) (pos d) ≡ ok q
    → (0 < d) × (q ≡ pos (n * l / d)) × (n * l / d * d ≤ n * l)
div_nat n l d e =
    let (p, same) = div_ℤ_pos-ok (n * l) d (rw pos_mul at e) in (p, same, div-mul-le (n * l) d p)

-- For liquidity and a reserve that are not negative, and no more liquidity than was issued, a
-- removal pays out nothing negative, at most the reserve, and at most the part of it that the
-- liquidity is of what was issued.
pub remove_share_bounds :
    (liquidity reserve total out : ℤ)
    → pos 0 ≤ℤ liquidity
    → pos 0 ≤ℤ reserve
    → liquidity ≤ℤ total
    → remove_share liquidity reserve total ≡ ok out
    → (pos 0 ≤ℤ out) × (out *ℤ total ≤ℤ liquidity *ℤ reserve) × (out ≤ℤ reserve)
unfolding remove_share
remove_share_bounds (pos l) (pos r) (pos t) out p q le e =
    let (d, same, paid) = div_nat l r t e in
    let k = l * r / t in
    let reach : k ≤ r =
      mul_cancel_le k r t d (omega (arith, paid, mul_mono_left l t r (omega arith))) in
    rw (same, pos_mul k t, pos_mul l r) (omega arith, omega (arith, paid), omega (arith, reach))
remove_share_bounds (negsuc l) _ _ out p q le e = absurd (omega arith)
remove_share_bounds (pos l) (negsuc r) _ out p q le e = absurd (omega arith)
remove_share_bounds (pos l) (pos r) (negsuc t) out p q le e = absurd (omega arith)

pub share_bounds :
    (a t r q : ℤ)
    → pos 0 ≤ℤ a
    → pos 0 ≤ℤ t
    → pos 0 ≤ℤ r
    → div_ℤ (a *ℤ t) r ≡ ok q
    → (pos 0 ≤ℤ q) × (q *ℤ r ≤ℤ a *ℤ t)
share_bounds (pos a) (pos t) (pos r) q h0 h1 h2 e =
    let (d, same, paid) = div_nat a t r e in
    rw (same, pos_mul (a * t / r) r, pos_mul a t) (omega arith, omega (arith, paid))
share_bounds (negsuc a) _ _ q h0 h1 h2 e = absurd (omega arith)
share_bounds (pos a) (negsuc t) _ q h0 h1 h2 e = absurd (omega arith)
share_bounds (pos a) (pos t) (negsuc r) q h0 h1 h2 e = absurd (omega arith)

smaller :
    (l0 l1 l : ℤ)
    → pos 0 ≤ℤ l0
    → pos 0 ≤ℤ l1
    → ok (if ltb_ℤ l1 l0 then l1 else l0) ≡ ok l
    → (pos 0 ≤ℤ l) × (l ≤ℤ l0) × (l ≤ℤ l1)
smaller l0 l1 l p q e = ground arith

-- For amounts, reserves and liquidity that are not negative, an addition issues nothing negative,
-- and at most the part of the liquidity that each amount is of its reserve.
pub add_liquidity_bounds :
    (amt0_out amt1_out liquidity : ℤ) (p : SwapLiquidity)
    → pos 0 ≤ℤ amt0_out
    → pos 0 ≤ℤ amt1_out
    → pos 0 ≤ℤ p.liquidity_total
    → pos 0 ≤ℤ p.amt0
    → pos 0 ≤ℤ p.amt1
    → add_liquidity amt0_out amt1_out p ≡ ok liquidity
    → (pos 0 ≤ℤ liquidity)
      × (liquidity *ℤ p.amt0 ≤ℤ amt0_out *ℤ p.liquidity_total)
      × (liquidity *ℤ p.amt1 ≤ℤ amt1_out *ℤ p.liquidity_total)
unfolding add_liquidity
add_liquidity_bounds a b l p h0 h1 ht g0 g1 e =
    let (l0, e0, e') = >>=-eq-ok (div_ℤ (a *ℤ p.liquidity_total) p.amt0) _ e in
    let (l1, e1, e'') = >>=-eq-ok (div_ℤ (b *ℤ p.liquidity_total) p.amt1) _ e' in
    let (n0, s0) = share_bounds a p.liquidity_total p.amt0 l0 h0 ht g0 e0 in
    let (n1, s1) = share_bounds b p.liquidity_total p.amt1 l1 h1 ht g1 e1 in
    let (n, m0, m1) = smaller l0 l1 l n0 n1 e'' in
    let k0 = *ℤ_mono l l0 p.amt0 p.amt0 n g0 m0 (omega arith) in
    let k1 = *ℤ_mono l l1 p.amt1 p.amt1 n g1 m1 (omega arith) in
    (n, omega (arith, k0, s0), omega (arith, k1, s1))

first_liquidity_nat :
    (a b : ℕ) (l : ℤ)
    → first_liquidity (pos a) (pos b) ≡ ok l
    → (1000 < sqrt (a * b)) × (l ≡ pos (sqrt (a * b)) -ℤ pos 1000)
unfolding first_liquidity sqrt_ℤ
first_liquidity_nat a b l e = ground (arith, pos_mul a b)

-- For two amounts that are not negative, a new pool issues to its creator a positive number, which
-- with the minimum of 1000 is the root of their product, rounded down.
pub first_liquidity_root :
    (amt0 amt1 liquidity : ℤ)
    → pos 0 ≤ℤ amt0
    → pos 0 ≤ℤ amt1
    → first_liquidity amt0 amt1 ≡ ok liquidity
    → (pos 1 ≤ℤ liquidity)
      × ((liquidity +ℤ pos 1000) *ℤ (liquidity +ℤ pos 1000) ≤ℤ amt0 *ℤ amt1)
      × (amt0 *ℤ amt1 +ℤ pos 1 ≤ℤ (liquidity +ℤ pos 1001) *ℤ (liquidity +ℤ pos 1001))
first_liquidity_root (pos a) (pos b) l p q e =
    let s = sqrt (a * b) in
    let (lo, hi) = sqrt_bounds (a * b) in
    let (big, same) = first_liquidity_nat a b l e in
    let rest : l +ℤ pos 1000 ≡ pos s = rw same (omega (int_laws, big)) in
    let rest' : l +ℤ pos 1001 ≡ pos (s + 1) = rw same (omega (int_laws, big)) in
    rw (rest, rest', pos_mul s s, pos_mul a b, pos_add (a * b) 1, pos_mul (s + 1) (s + 1))
      (rw same (omega int_laws), omega (arith, lo), omega (arith, hi))
first_liquidity_root (negsuc a) _ l p q e = absurd (omega arith)
first_liquidity_root (pos a) (negsuc b) l p q e = absurd (omega arith)
