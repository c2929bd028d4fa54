-- ===== src/Holders/Move.antt =====
-- The writes of TransferDrc20 to the table: the receiver's row is created if it is missing, then
-- the sender's amount goes down and the receiver's up.
use dogeuni_indexer.Prelude.{
  String, false, ◌≡◌, ◌≢◌, ◌↔◌, none, List, ◌==◌, eq_iff, if◌then◌else◌, arith, ◌∙◌, Bool-cases,
  inl, inr,
}
use dogeuni_indexer.Prelude.Int.{ℤ, pos, ◌+ℤ◌, ◌-ℤ◌, ◌≤ℤ◌, int_laws}
use dogeuni_indexer.Models.{Drc20CollectAddress}
use dogeuni_indexer.Holders.{set_amt_sum, create_missing, same_key, find_holder}
use dogeuni_indexer.Holders.Balance.{
  balance, IsHeld, balance-set_amt_sum, balance-create_missing, IsHeld-create_missing,
  IsHeld-create_missing_other, IsHeld-set_amt_sum, same_key-false, same_key_eq, set_amt_sum-absent,
  create_missing-absent,
}
use dogeuni_indexer.Holders.Total.{
  IsSound, total, balance_nonneg, set_amt_sum-IsSound, create_missing-IsSound, total-set_amt_sum,
  total-set_amt_sum_ne, total-create_missing,
}

module _ (t src dst : String) (amt : ℤ) (rs : List Drc20CollectAddress) where
  abbrev pub paid : List Drc20CollectAddress
  paid = set_amt_sum t src (balance t src rs -ℤ amt) (create_missing t dst rs)

  abbrev pub moved : List Drc20CollectAddress
  moved = set_amt_sum t dst (balance t dst rs +ℤ amt) paid

  pub IsHeld-moved : (t' h' : String) → IsHeld t' h' rs → IsHeld t' h' moved
  IsHeld-moved t' h' held = IsHeld-set_amt_sum t dst t' h' (balance t dst rs +ℤ amt) paid (
      IsHeld-set_amt_sum t src t' h' (balance t src rs -ℤ amt) (create_missing t dst rs)
        (IsHeld-create_missing_other t dst t' h' rs held))

  -- The rows that are missing after the transfer.
  pub moved-absent :
      (t' h' : String)
      → (find_holder t' h' moved ≡ none)
        ↔ ((same_key t dst t' h' ≡ false) × (find_holder t' h' rs ≡ none))
  moved-absent t' h' =
      let first = set_amt_sum-absent t dst t' h' (balance t dst rs +ℤ amt) paid in
      let second =
        set_amt_sum-absent t src t' h' (balance t src rs -ℤ amt) (create_missing t dst rs) in
      let third = create_missing-absent t dst t' h' rs in
      (λ e. third.0 (second.0 (first.0 e)), λ e. first.1 (second.1 (third.1 e)))

  IsHeld-paid : IsHeld t dst paid
  IsHeld-paid =
      IsHeld-set_amt_sum t src t dst (balance t src rs -ℤ amt) (create_missing t dst rs)
        (IsHeld-create_missing t dst rs)

  pub IsHeld-moved_dst : IsHeld t dst moved
  IsHeld-moved_dst = IsHeld-set_amt_sum t dst t dst (balance t dst rs +ℤ amt) paid IsHeld-paid

  module _ (held : IsHeld t src rs) where
    balance-paid :
        (t' h' : String)
        → balance t' h' paid
          ≡ (if same_key t src t' h' then balance t src rs -ℤ amt else balance t' h' rs)
    balance-paid t' h' = rw (
      balance-set_amt_sum t src t' h' (balance t src rs -ℤ amt) (create_missing t dst rs)
          (IsHeld-create_missing_other t dst t src rs held),
      balance-create_missing t dst t' h' rs,
    )

    -- Every balance after the transfer.
    pub balance-moved :
        (t' h' : String)
        → src ≢ dst
        → balance t' h' moved ≡ (
            if same_key t src t' h'
            then balance t src rs -ℤ amt
            else if same_key t dst t' h'
            then balance t dst rs +ℤ amt
            else balance t' h' rs)
    balance-moved t' h' ne = ground (
      arith,
      balance-set_amt_sum t dst t' h' (balance t dst rs +ℤ amt) paid IsHeld-paid,
      balance-paid t' h',
      same_key_eq t src t' h',
      same_key_eq t dst t' h',
    )

    paid-IsSound : amt ≤ℤ balance t src rs → IsSound rs → IsSound paid
    paid-IsSound covered s =
        set_amt_sum-IsSound t src (balance t src rs -ℤ amt) (create_missing t dst rs)
          (omega int_laws) (create_missing-IsSound t dst rs s)

    pub moved-IsSound : pos 0 ≤ℤ amt → amt ≤ℤ balance t src rs → IsSound rs → IsSound moved
    moved-IsSound p covered s =
        let received = balance_nonneg t dst rs s in
        set_amt_sum-IsSound t dst (balance t dst rs +ℤ amt) paid (omega int_laws)
          (paid-IsSound covered s)

    module _ (ne : src ≢ dst) (covered : amt ≤ℤ balance t src rs) (s : IsSound rs) where
      total-paid : total t paid +ℤ amt ≡ total t rs
      total-paid =
          let created = create_missing t dst rs in
          let writes =
            total-set_amt_sum t src (balance t src rs -ℤ amt) created
              (create_missing-IsSound t dst rs s)
              (IsHeld-create_missing_other t dst t src rs held) in
          let writes' = rw (balance-create_missing, total-create_missing) at writes in
          omega (int_laws, writes')

      total-moved_self : total t moved ≡ total t rs
      total-moved_self =
          let writes =
            total-set_amt_sum t dst (balance t dst rs +ℤ amt) paid (paid-IsSound covered s)
              IsHeld-paid in
          let kept : balance t dst paid ≡ balance t dst rs =
            rw (balance-paid t dst, same_key-false t src t dst ne) in
          let writes' = rw kept at writes in
          let before = total-paid in omega (int_laws, writes', before)

      -- A transfer moves no total.
      pub total-moved : (t' : String) → total t' moved ≡ total t' rs
      total-moved t' = elim (Bool-cases (t == t')) [
        | inl e ↦ rw (← (eq_iff t t').0 e) total-moved_self
        | inr e ↦
            let other : t ≢ t' = λ p. cc ((eq_iff t t').1 p) in
            total-set_amt_sum_ne t dst t' (balance t dst rs +ℤ amt) paid other
            ∙ total-set_amt_sum_ne t src t' (balance t src rs -ℤ amt) (create_missing t dst rs)
                other
            ∙ total-create_missing t dst t' rs
      ]
