-- ===== src/Strategies/Maker/Pending.antt =====
-- src/psrc/adapters/reference.py: pending orders by their names, before and after one is replaced.
use strategy_adapter.Prelude.{
  ◌≡◌, refl, ap, String, string_eq, Bool, true, false, ◌||◌, List, [], ◌∷◌, ◌++◌, map, any, find?,
  contains, All, some, ◌==◌, if◌then◌else◌, Bool-cases, inl, inr, arith,
}
use strategy_adapter.Domain.Account.{PendingType}
use strategy_adapter.Decimal.{Decimal, of_nat}
use strategy_adapter.Domain.Actions.{ReplaceOrder, Side}
use strategy_adapter.Adapters.Reference.Settlement.{PendingOrder}
use strategy_adapter.Adapters.Reference.Run.{open_order}
use strategy_adapter.Adapters.Reference.Commands.{Book, has_id, updated_order}

-- Every pending order of this name is as `P` says.
abbrev pub Named : String → (PendingOrder → Type 0) → List PendingOrder → Type 0
Named id P orders = All (λ o. has_id id o ≡ true → P o) orders

-- a limit order on this side, for one unit of this instrument
pub record IsQuoteOf (instrument_id : String) (side : Side) (o : PendingOrder) : Type 0 where
  pub limit : o.order_type ≡ PendingType.limit
  pub same_side : o.side ≡ some side
  pub one : o.quantity ≡ some (of_nat 1)
  pub instrument : o.instrument_id ≡ instrument_id

-- at this price
abbrev pub IsQuoteAt : String → Side → Decimal → PendingOrder → Type 0
IsQuoteAt instrument_id side price o = IsQuoteOf instrument_id side o × (o.limit_price ≡ some price)

pub true_not_false : {c : Bool} → c ≡ true → c ≡ false → ⊥
true_not_false h g = cc

neither : (a b : Bool) → (a || b) ≡ false → (a ≡ false) × (b ≡ false)
neither a b h = ground arith

eq_sym : (s t : String) → (s == t) ≡ (t == s)
eq_sym s t = ground (arith, string_eq.beq_iff s t, string_eq.beq_iff t s)

pub live_iff_pending :
    (id : String) (orders : List PendingOrder)
    → contains (map (λ o. o.client_order_id) (map open_order orders)) id ≡ any (has_id id) orders
live_iff_pending id [] = refl
live_iff_pending id (o ∷ orders) =
    rw (eq_sym id o.client_order_id) (ap (λ c. has_id id o || c) (live_iff_pending id orders))

pub any-append :
    (id : String) (orders more : List PendingOrder)
    → any (has_id id) (orders ++ more) ≡ (any (has_id id) orders || any (has_id id) more)
any-append id [] more = refl
any-append id (o ∷ orders) more = ground (arith, any-append id orders more)

pub find?-any :
    (id : String) (P : PendingOrder → Type 0) (orders : List PendingOrder)
    → any (has_id id) orders ≡ true
    → Named id P orders
    → (o : PendingOrder) × (find? (has_id id) orders ≡ some o) × (o.client_order_id ≡ id) × P o
find?-any id P [] h named = cc
find?-any id P (o ∷ orders) h named = elim (Bool-cases (has_id id o)) [
  | inl here ↦ rw here (o, refl, (string_eq.beq_iff o.client_order_id id).0 here, named.0 here)
  | inr other ↦ rw other (find?-any id P orders (rw other at h) named.1)
]

-- of a name that no order has, all is true
pub none-Named :
    (id : String) (P : PendingOrder → Type 0) (orders : List PendingOrder)
    → any (has_id id) orders ≡ false
    → Named id P orders
none-Named id P [] h = tt
none-Named id P (o ∷ orders) h =
    let (other, rest) = neither (has_id id o) (any (has_id id) orders) h in
    (λ here. absurd (true_not_false here other), none-Named id P orders rest)

pub or_false : (c : Bool) → (c || false) ≡ c
or_false true = refl
or_false false = refl

-- What a quote does to the book: its order is pending, all orders of its name are what `Q` says,
-- and the orders of other names are as they were.
pub record IsQuoted (id : String) (Q : PendingOrder → Type 0) (b c : Book) : Type 1 where
  pub present : any (has_id id) c.pending ≡ true
  pub quoted : Named id Q c.pending
  pub others :
      (j : String) → (id == j) ≡ false → any (has_id j) c.pending ≡ any (has_id j) b.pending
  pub kept :
      (j : String) (P : PendingOrder → Type 0)
      → (id == j) ≡ false
      → Named j P b.pending
      → Named j P c.pending

-- the orders after a replacement
abbrev pub replaced : ReplaceOrder → PendingOrder → List PendingOrder → List PendingOrder
replaced action matched orders =
    map (λ o. if has_id action.client_order_id o then updated_order action matched else o) orders

module _ (action : ReplaceOrder) (matched : PendingOrder)
    (same : matched.client_order_id ≡ action.client_order_id) where
  pub any-replaced :
      (j : String) (orders : List PendingOrder)
      → any (has_id j) (replaced action matched orders) ≡ any (has_id j) orders
  any-replaced j [] = refl
  any-replaced j (o ∷ orders) = elim (Bool-cases (has_id action.client_order_id o)) [
    | inl named ↦
        rw (named, same, (string_eq.beq_iff o.client_order_id action.client_order_id).0 named)
          (ap (λ c. (action.client_order_id == j) || c) (any-replaced j orders))
    | inr other ↦ rw other (ap (λ c. has_id j o || c) (any-replaced j orders))
  ]

  -- The orders of the replaced name all are the updated order.
  pub Named-replaced :
      (P : PendingOrder → Type 0) (orders : List PendingOrder)
      → P (updated_order action matched)
      → Named action.client_order_id P (replaced action matched orders)
  Named-replaced P [] h = tt
  Named-replaced P (o ∷ orders) h = elim (Bool-cases (has_id action.client_order_id o)) [
    | inl here ↦ rw here (λ named. h, Named-replaced P orders h)
    | inr other ↦ rw other (λ named. absurd (true_not_false named other), Named-replaced P orders h)
  ]

  -- Those of another name are as they were.
  pub Named-kept :
      (j : String) (P : PendingOrder → Type 0) (orders : List PendingOrder)
      → (action.client_order_id == j) ≡ false
      → Named j P orders
      → Named j P (replaced action matched orders)
  Named-kept j P [] apart h = tt
  Named-kept j P (o ∷ orders) apart h = elim (Bool-cases (has_id action.client_order_id o)) [
    | inl here ↦
        rw here (
          λ named. absurd (true_not_false (rw same at named) apart),
          Named-kept j P orders apart h.1,
        )
    | inr other ↦ rw other (h.0, Named-kept j P orders apart h.1)
  ]
