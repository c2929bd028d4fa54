-- ===== src/Ledger/Undo.antt =====
-- On the ledger, the opposite of a call that was applied is not refused and leads back.
use dogeuni_indexer.Prelude.{
  String, false, ◌≡◌, ◌≢◌, Option, none, some, eq_iff, arith, fun_ext, refl, ◌∙◌,
}
use dogeuni_indexer.Prelude.Int.{ℤ, pos, ◌+ℤ◌, ◌-ℤ◌, ◌≤ℤ◌, int_laws, +ℤ_cancel, -ℤ_cancel}
use dogeuni_indexer.Holders.Balance.{same_key_eq, same_key_refl, same_key-false}
use dogeuni_indexer.Ledger.{
  Ledger, Ledger-ext, Call, transfer, mint, burn, put, put_supply, or_zero, is_none, refused,
  applied, refused_strictly,
}

unfoldable pub opposite : Call → Call
opposite (transfer t src dst amt) = transfer t dst src amt
opposite (mint t holder amt) = burn t holder amt
opposite (burn t holder amt) = mint t holder amt

-- The amount of an issue or a burn is positive; a transfer of another is refused.
abbrev pub IsPositive : Call → Type 0
IsPositive (transfer t src dst amt) = Unit {0}
IsPositive (mint t holder amt) = pos 1 ≤ℤ amt
IsPositive (burn t holder amt) = pos 1 ≤ℤ amt

pub record IsNonNegative (l : Ledger) : Type 0 where
  pub balances : (t h : String) → pos 0 ≤ℤ l.balance t h
  pub supplies : (t : String) → pos 0 ≤ℤ or_zero (l.supply t)

pub put_self : (t h : String) (v : ℤ) (b : String → String → ℤ) → put t h v b t h ≡ v
unfolding put
put_self t h v b = rw (same_key_refl t h) refl

pub put_other :
    (t h h' : String) (v : ℤ) (b : String → String → ℤ) → h ≢ h' → put t h v b t h' ≡ b t h'
unfolding put
put_other t h h' v b ne = rw (same_key-false t h t h' ne) refl

-- Putting back what was there.
put_back :
    (t h : String) (v : ℤ) (b : String → String → ℤ) (t' h' : String)
    → put t h (b t h) (put t h v b) t' h' ≡ b t' h'
unfolding put
put_back t h v b t' h' = ground (arith, same_key_eq t h t' h')

put_supply_back :
    (t : String) (u v : ℤ) (s : String → Option ℤ) (t' : String)
    → s t ≡ some u
    → put_supply t u (put_supply t v s) t' ≡ s t'
unfolding put_supply
put_supply_back t u v s t' e = ground (arith, eq_iff t t')

put-nonneg :
    (t h : String) (v : ℤ) (b : String → String → ℤ) (t' h' : String)
    → pos 0 ≤ℤ v
    → pos 0 ≤ℤ b t' h'
    → pos 0 ≤ℤ put t h v b t' h'
unfolding put
put-nonneg t h v b t' h' p q = ground arith

put_supply-nonneg :
    (t : String) (v : ℤ) (s : String → Option ℤ) (t' : String)
    → pos 0 ≤ℤ v
    → pos 0 ≤ℤ or_zero (s t')
    → pos 0 ≤ℤ or_zero (put_supply t v s t')
unfolding put_supply
put_supply-nonneg t v s t' p q = ground arith

put_supply_self : (t : String) (v : ℤ) (s : String → Option ℤ) → put_supply t v s t ≡ some v
unfolding put_supply
put_supply_self t v s = ground (arith, eq_iff t t)

some_of_there : (o : Option ℤ) → is_none o ≡ false → o ≡ some (or_zero o)
some_of_there none e = cc
some_of_there (some v) e = refl

module _ (l : Ledger) where
  module _ (t src dst : String) (amt : ℤ) where
    abbrev IsAccepted : Type 0
    IsAccepted =
        (pos 1 ≤ℤ amt) × (src ≢ dst) × (amt ≤ℤ l.balance t src) × (is_none (l.supply t) ≡ false)

    accepted-transfer : refused_strictly (transfer t src dst amt) l ≡ false → IsAccepted
    unfolding refused_strictly refused
    accepted-transfer good =
        (ground arith, λ p. ground (arith, eq_iff src dst), ground arith, ground arith)

    transfer-IsNonNegative :
        IsNonNegative l → IsAccepted → IsNonNegative (applied (transfer t src dst amt) l)
    unfolding applied
    transfer-IsNonNegative inv (positive, ne, covered, there) = record {
      balances = λ t' h'. put-nonneg t src _ _ t' h' (omega int_laws) (
          put-nonneg t dst _ _ t' h' (let low = inv.balances t dst in omega (int_laws, positive))
            (inv.balances t' h'));
      supplies = inv.supplies;
    }

    -- What the two addresses have after the transfer.
    abbrev moved : String → String → ℤ
    moved = put t src (l.balance t src -ℤ amt) (put t dst (l.balance t dst +ℤ amt) l.balance)

    moved_src : moved t src ≡ l.balance t src -ℤ amt
    moved_src = put_self t src _ _

    moved_dst : src ≢ dst → moved t dst ≡ l.balance t dst +ℤ amt
    moved_dst ne = put_other t src dst _ _ ne ∙ put_self t dst _ _

    transfer-accepts_back :
        IsNonNegative l
        → IsAccepted
        → refused_strictly (transfer t dst src amt) (applied (transfer t src dst amt) l) ≡ false
    unfolding applied refused_strictly refused
    transfer-accepts_back inv (positive, ne, covered, there) =
        let low = inv.balances t dst in
        let enough : amt ≤ℤ moved t dst = rw (moved_dst ne) (omega int_laws) in
        ground (arith, eq_iff dst src, enough)

    transfer-back :
        IsAccepted → applied (transfer t dst src amt) (applied (transfer t src dst amt) l) ≡ l
    unfolding applied
    transfer-back (positive, ne, covered, there) =
        Ledger-ext _ _
          (fun_ext λ t'. fun_ext λ h'.
            rw
              (
                moved_src,
                moved_dst ne,
                +ℤ_cancel (l.balance t dst) amt,
                -ℤ_cancel (l.balance t src) amt,
              )
              (restored t' h'))
          refl
      where
        restored :
            (t' h' : String)
            → put t dst (l.balance t dst) (put t src (l.balance t src) moved) t' h'
              ≡ l.balance t' h'
        restored t' h' =
            unfold put in ground (arith, same_key_eq t src t' h', same_key_eq t dst t' h')

  module _ (t holder : String) (amt : ℤ) where
    mint-undone :
        IsNonNegative l
        → pos 1 ≤ℤ amt
        → refused_strictly (mint t holder amt) l ≡ false
        → IsNonNegative (applied (mint t holder amt) l)
          × (refused_strictly (burn t holder amt) (applied (mint t holder amt) l) ≡ false)
          × (applied (burn t holder amt) (applied (mint t holder amt) l) ≡ l)
    unfolding applied
    mint-undone inv positive good =
        let there : is_none (l.supply t) ≡ false =
          unfold refused_strictly refused in ground arith in
        let low = inv.balances t holder in
        let low_supply = inv.supplies t in
        let v = l.balance t holder +ℤ amt in
        let w = or_zero (l.supply t) +ℤ amt in
        let now = put_self t holder v l.balance in
        let now_supply = put_supply_self t w l.supply in
        (
          record {
            balances = λ t' h'. put-nonneg t holder v _ t' h' (omega int_laws) (inv.balances t' h');
            supplies = λ t'. put_supply-nonneg t w _ t' (omega int_laws) (inv.supplies t');
          },
          unfold refused_strictly refused in
              rw (now, now_supply)
                (let a : amt ≤ℤ v = omega int_laws in
                  let b : amt ≤ℤ w = omega int_laws in ground (arith, a, b)),
          Ledger-ext _ _
              (fun_ext λ t'. fun_ext λ h'.
                rw (now, +ℤ_cancel (l.balance t holder) amt) (put_back t holder v l.balance t' h'))
              (fun_ext λ t'.
                rw (now_supply, +ℤ_cancel (or_zero (l.supply t)) amt)
                  (put_supply_back t _ w l.supply t' (some_of_there (l.supply t) there))),
        )

    burn-undone :
        IsNonNegative l
        → pos 1 ≤ℤ amt
        → refused_strictly (burn t holder amt) l ≡ false
        → IsNonNegative (applied (burn t holder amt) l)
          × (refused_strictly (mint t holder amt) (applied (burn t holder amt) l) ≡ false)
          × (applied (mint t holder amt) (applied (burn t holder amt) l) ≡ l)
    unfolding applied
    burn-undone inv positive good =
        let there : is_none (l.supply t) ≡ false =
          unfold refused_strictly refused in ground arith in
        let covered : amt ≤ℤ l.balance t holder = unfold refused_strictly refused in ground arith in
        let issued : amt ≤ℤ or_zero (l.supply t) =
          unfold refused_strictly refused in ground arith in
        let v = l.balance t holder -ℤ amt in
        let w = or_zero (l.supply t) -ℤ amt in
        let now = put_self t holder v l.balance in
        let now_supply = put_supply_self t w l.supply in
        (
          record {
            balances = λ t' h'. put-nonneg t holder v _ t' h' (omega int_laws) (inv.balances t' h');
            supplies = λ t'. put_supply-nonneg t w _ t' (omega int_laws) (inv.supplies t');
          },
          unfold refused_strictly refused in rw now_supply (ground arith),
          Ledger-ext _ _
              (fun_ext λ t'. fun_ext λ h'.
                rw (now, -ℤ_cancel (l.balance t holder) amt) (put_back t holder v l.balance t' h'))
              (fun_ext λ t'.
                rw (now_supply, -ℤ_cancel (or_zero (l.supply t)) amt)
                  (put_supply_back t _ w l.supply t' (some_of_there (l.supply t) there))),
        )

-- A call that is applied keeps every amount from being negative, its opposite is not refused then,
-- and leads back to the ledger before.
pub opposite_undoes :
    (call : Call) (l : Ledger)
    → IsNonNegative l
    → IsPositive call
    → refused_strictly call l ≡ false
    → IsNonNegative (applied call l)
      × (refused_strictly (opposite call) (applied call l) ≡ false)
      × (applied (opposite call) (applied call l) ≡ l)
unfolding opposite
opposite_undoes (transfer t src dst amt) l inv is good =
    let f = accepted-transfer l t src dst amt good in
    (
      transfer-IsNonNegative l t src dst amt inv f,
      transfer-accepts_back l t src dst amt inv f,
      transfer-back l t src dst amt f,
    )
opposite_undoes (mint t holder amt) l inv is good = mint-undone l t holder amt inv is good
opposite_undoes (burn t holder amt) l inv is good = burn-undone l t holder amt inv is good
