-- ===== src/SwapV2/Pay.antt =====
-- storage/swap_v2.go: a payment of a token of either kind, on the balances of both.
use dogeuni_indexer.Prelude.{
  String, true, false, ◌≡◌, ◌≢◌, ◌≢◌, refl, ap, ◌∙◌, Bool-cases, inl, inr, eq_iff, if◌then◌else◌,
  arith,
}
use dogeuni_indexer.Prelude.Int.{ℤ, pos, ◌+ℤ◌, ◌-ℤ◌, ◌≤ℤ◌}
use dogeuni_indexer.Prelude.Result.{ok}
use dogeuni_indexer.Models.{SwapV2Info, Db}
use dogeuni_indexer.Holders.Balance.{same_key_eq, same_key_refl, same_key-false}
use dogeuni_indexer.Drc20.{transfer_drc20}
use dogeuni_indexer.Drc20.Balances.{
  held_by, held_by-transfer_drc20, transfer_src, transfer_dst, transfer_other_tick,
}
use dogeuni_indexer.Drc20.Effects.{transfer_drc20-eq-ok}
use dogeuni_indexer.Ledger.{Ledger, transfer, put, refused, applied, refused_strictly}
use dogeuni_indexer.Meme20.{transfer_meme20}
use dogeuni_indexer.Meme20.Rows.{meme_balance, meme_supply}
use dogeuni_indexer.Meme20.View.{view_meme, run_meme}
use dogeuni_indexer.Meme20.Refines.{run_meme-applied}
use dogeuni_indexer.SwapV2.{is_drc20, pay_v2}

-- What an address has of a token, of the kind that its id says.
unfoldable pub funds : String → String → Db → ℤ
funds tick_id holder db =
    if is_drc20 tick_id
    then held_by tick_id holder db
    else meme_balance tick_id holder db.meme20_collect_address

-- A transfer of a meme20 token that succeeds.
transfer_meme20_moves :
    (t src dst : String) (amt : ℤ) (x : String) (h : ℤ) (db db' : Db)
    → transfer_meme20 t src dst amt x h false db ≡ ok db'
    → (pos 1 ≤ℤ amt)
      × (src ≢ dst)
      × ((t' h' : String)
          → meme_balance t' h' db'.meme20_collect_address
            ≡ put t src
                (meme_balance t src db.meme20_collect_address -ℤ amt)
                (put t dst
                  (meme_balance t dst db.meme20_collect_address +ℤ amt)
                  (λ a b. meme_balance a b db.meme20_collect_address))
                t'
                h')
      × ((t' : String) → meme_supply t' db'.meme20_collect ≡ meme_supply t' db.meme20_collect)
unfolding run_meme refused_strictly refused applied view_meme
transfer_meme20_moves t src dst amt x h db db' e =
    let (good, same) = run_meme-applied (transfer t src dst amt) x h false db db' tt e in
    (
      ground arith,
      λ p. ground (arith, eq_iff src dst),
      λ t' h'. ap (λ (l : Ledger). l.balance t' h') same,
      λ t'. ap (λ (l : Ledger). l.supply t') same,
    )

transfer_meme20_keeps :
    (t src dst : String) (amt : ℤ) (x : String) (h : ℤ) (db db' : Db)
    → transfer_meme20 t src dst amt x h false db ≡ ok db'
    → (db'.drc20_collect_address ≡ db.drc20_collect_address)
      × (db'.swap_v2_liquidity ≡ db.swap_v2_liquidity)
unfolding transfer_meme20
transfer_meme20_keeps t src dst amt x h db db' e = ground arith

transfer_drc20_keeps :
    (t src dst : String) (amt : ℤ) (x : String) (h : ℤ) (db db' : Db)
    → transfer_drc20 t src dst amt x h false db ≡ ok db'
    → (db'.meme20_collect_address ≡ db.meme20_collect_address)
      × (db'.meme20_collect ≡ db.meme20_collect)
      × (db'.swap_v2_liquidity ≡ db.swap_v2_liquidity)
transfer_drc20_keeps t src dst amt x h db db' e =
    let (_, made) = transfer_drc20-eq-ok t src dst amt x h false db db' e in
    (
      ap (λ (d : Db). d.meme20_collect_address) made,
      ap (λ (d : Db). d.meme20_collect) made,
      ap (λ (d : Db). d.swap_v2_liquidity) made,
    )

-- What a payment that succeeds does.
pub record Paid (t src dst : String) (amt : ℤ) (db db' : Db) : Type 0 where
  pub positive : pos 1 ≤ℤ amt
  pub apart : src ≢ dst
  pub payer : funds t src db' ≡ funds t src db -ℤ amt
  pub payee : funds t dst db' ≡ funds t dst db +ℤ amt
  pub others : (t' h' : String) → t ≢ t' → funds t' h' db' ≡ funds t' h' db
  pub other_memes :
      (t' h' : String)
      → t ≢ t'
      → meme_balance t' h' db'.meme20_collect_address ≡ meme_balance t' h' db.meme20_collect_address
  pub supplies :
      (t' : String) → meme_supply t' db'.meme20_collect ≡ meme_supply t' db.meme20_collect
  pub pools : db'.swap_v2_liquidity ≡ db.swap_v2_liquidity

put_parts :
    (t src dst : String) (a b : ℤ) (f : String → String → ℤ)
    → src ≢ dst
    → (put t src a (put t dst b f) t src ≡ a)
      × (put t src a (put t dst b f) t dst ≡ b)
      × ((t' h' : String) → t ≢ t' → put t src a (put t dst b f) t' h' ≡ f t' h')
unfolding put
put_parts t src dst a b f ne = (
  rw (same_key_refl t src) refl,
  rw (same_key-false t src t dst ne, same_key_refl t dst) refl,
  λ t' h' apart. ground (arith, same_key_eq t src t' h', same_key_eq t dst t' h'),
)

module _ (t src dst : String) (amt : ℤ) (x : String) (h : ℤ) (db db' : Db) where
  paid_drc20 :
      is_drc20 t ≡ true
      → transfer_drc20 t src dst amt x h false db ≡ ok db'
      → Paid t src dst amt db db'
  unfolding funds put
  paid_drc20 kind e =
      let (positive, ne, _, all) = held_by-transfer_drc20 t amt x h false db db' src dst e in
      let (memes, tokens, pools) = transfer_drc20_keeps t src dst amt x h db db' e in
      record {
        positive = positive;
        apart = ne;
        payer = rw kind (transfer_src t amt x h false db db' src dst e);
        payee = rw kind (transfer_dst t amt x h false db db' src dst e);
        others = λ t' h' apart.
            rw (transfer_other_tick t amt x h false db db' src dst e t' h' apart, memes) refl;
        other_memes = λ t' h' apart. rw memes refl;
        supplies = λ t'. rw tokens refl;
        pools = pools;
      }

  paid_meme20 :
      is_drc20 t ≡ false
      → transfer_meme20 t src dst amt x h false db ≡ ok db'
      → Paid t src dst amt db db'
  unfolding funds
  paid_meme20 kind e =
      let (positive, ne, all, supplies) = transfer_meme20_moves t src dst amt x h db db' e in
      let (tokens, pools) = transfer_meme20_keeps t src dst amt x h db db' e in
      let (at_src, at_dst, elsewhere) = put_parts t src dst _ _ _ ne in
      record {
        positive = positive;
        apart = ne;
        payer = rw kind (all t src ∙ at_src);
        payee = rw kind (all t dst ∙ at_dst);
        others = λ t' h' apart. rw (all t' h' ∙ elsewhere t' h' apart) (rw tokens refl);
        other_memes = λ t' h' apart. all t' h' ∙ elsewhere t' h' apart;
        supplies = supplies;
        pools = pools;
      }

pub pay_v2-Paid :
    (s : SwapV2Info) (t src dst : String) (amt : ℤ) (db db' : Db)
    → pay_v2 s t src dst amt db ≡ ok db'
    → Paid t src dst amt db db'
unfolding pay_v2
pay_v2-Paid s t src dst amt db db' e = elim (Bool-cases (is_drc20 t)) [
  | inl short ↦ paid_drc20 t src dst amt s.tx_hash s.block_number db db' short (rw short at e)
  | inr long ↦ paid_meme20 t src dst amt s.tx_hash s.block_number db db' long (rw long at e)
]
