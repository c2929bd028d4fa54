-- ===== src/Ledger.antt =====
-- What the token operations of storage/common.go promise, with no rows, no counters and no log: a
-- balance for each token and address, and a supply for each token that is deployed.
pub mod Undo
use dogeuni_indexer.Prelude.{
  String, Bool, true, false, ◌||◌, ◌≡◌, Option, none, some, List, [], ◌∷◌, ◌==◌, if◌then◌else◌,
}
use dogeuni_indexer.Prelude.Int.{ℤ, pos, ◌+ℤ◌, ◌-ℤ◌, leb_ℤ, ltb_ℤ}
use dogeuni_indexer.Holders.{same_key}

pub record Ledger : Type 0 where
  pub balance : String → String → ℤ
  pub supply : String → Option ℤ

-- A call of one of the three operations.
pub data Call : Type 0 where
  transfer : String → String → String → ℤ → Call
  mint : String → String → ℤ → Call
  burn : String → String → ℤ → Call

pub Ledger-ext : (l m : Ledger) → l.balance ≡ m.balance → l.supply ≡ m.supply → l ≡ m
Ledger-ext l m p q = λ i. record { balance = p i; supply = q i }

-- A balance, changed at one key; a supply, changed at one token.
unfoldable pub put : String → String → ℤ → (String → String → ℤ) → String → String → ℤ
put tick holder v b t h = if same_key tick holder t h then v else b t h

unfoldable pub put_supply : String → ℤ → (String → Option ℤ) → String → Option ℤ
put_supply tick v s t = if tick == t then some v else s t

abbrev pub or_zero : Option ℤ → ℤ
or_zero none = pos 0
or_zero (some v) = v

abbrev pub is_none : Option ℤ → Bool
is_none none = true
is_none (some v) = false

-- What each call is refused for.
unfoldable pub refused : Call → Ledger → Bool
refused (transfer tick src dst amt) l =
    leb_ℤ amt (pos 0) || src == dst || ltb_ℤ (l.balance tick src) amt
refused (mint tick holder amt) l = is_none (l.supply tick)
refused (burn tick holder amt) l =
    is_none (l.supply tick)
    || ltb_ℤ (or_zero (l.supply tick)) amt
    || ltb_ℤ (l.balance tick holder) amt

unfoldable pub applied : Call → Ledger → Ledger
applied (transfer tick src dst amt) l = record l {
  balance =
      put tick src (l.balance tick src -ℤ amt) (put tick dst (l.balance tick dst +ℤ amt) l.balance);
}
applied (mint tick holder amt) l = record {
  balance = put tick holder (l.balance tick holder +ℤ amt) l.balance;
  supply = put_supply tick (or_zero (l.supply tick) +ℤ amt) l.supply;
}
applied (burn tick holder amt) l = record {
  balance = put tick holder (l.balance tick holder -ℤ amt) l.balance;
  supply = put_supply tick (or_zero (l.supply tick) -ℤ amt) l.supply;
}

unfoldable pub spec : Call → Ledger → Option Ledger
spec call l = if refused call l then none else some (applied call l)

-- A refused call changes nothing, as its transaction is rolled back.
unfoldable pub spec_all : List Call → Ledger → Ledger
spec_all [] l = l
spec_all (call ∷ calls) l = spec_all calls (if refused call l then l else applied call l)

-- The same for tokens whose every call wants the token deployed.
abbrev pub tick_of : Call → String
tick_of (transfer tick src dst amt) = tick
tick_of (mint tick holder amt) = tick
tick_of (burn tick holder amt) = tick

unfoldable pub refused_strictly : Call → Ledger → Bool
refused_strictly call l = is_none (l.supply (tick_of call)) || refused call l

unfoldable pub spec_strictly : Call → Ledger → Option Ledger
spec_strictly call l = if refused_strictly call l then none else some (applied call l)
