-- ===== src/Strategies/Feeding.antt =====
-- A strategy (src/psrc/runtime/strategy.py) that is given a history of events, one after the other.
use strategy_adapter.Prelude.{
  suc, ◌≡◌, refl, sym, ap, ◌∙◌, List, [], ◌∷◌, ◌++◌, map, length, ok, ◌>>=◌,
}
use strategy_adapter.Decimal.{Decimal}
use strategy_adapter.Contract.Errors.{Call}
use strategy_adapter.Domain.Market.{MarketEvent, MarketPayload, bar, BarPayload}
use strategy_adapter.Domain.Account.{AccountSnapshot}
use strategy_adapter.Domain.Actions.{Action}
use strategy_adapter.Runtime.Strategy.{RuntimeStrategy}

-- the events, each with the account that goes with it
abbrev pub History : Type 0
History = List (MarketEvent × AccountSnapshot)

-- The strategy's answers to a history, and its memory after it.
unfoldable pub feed :
    (s : RuntimeStrategy) → History → s.Memory → Call (List (List Action) × s.Memory)
feed s [] m = ok ([], m)
feed s ((event, account) ∷ history) m = s.on_event event account m >>= λ answer.
    feed s history answer.1 >>= λ rest. ok (answer.0 ∷ rest.0, rest.1)

-- the bars of a history
abbrev pub bar_of : MarketPayload → List BarPayload
bar_of (bar p) = p ∷ []
bar_of _ = []

abbrev pub bars_of : History → List BarPayload
bars_of [] = []
bars_of ((event, account) ∷ history) = bar_of event.payload ++ bars_of history

abbrev pub closes_of : History → List Decimal
closes_of history = map (λ p. p.close) (bars_of history)

pub append_assoc {ℓ} : {A : Type ℓ} (xs ys zs : List A) → (xs ++ ys) ++ zs ≡ xs ++ (ys ++ zs)
append_assoc [] ys zs = refl
append_assoc (x ∷ xs) ys zs = ap (λ ws. x ∷ ws) (append_assoc xs ys zs)

pub map-append {ℓ κ} :
    {A : Type ℓ} {B : Type κ} (f : A → B) (xs ys : List A) → map f (xs ++ ys) ≡ map f xs ++ map f ys
map-append f [] ys = refl
map-append f (x ∷ xs) ys = ap (λ ws. f x ∷ ws) (map-append f xs ys)

-- What is appended for an event and then for the later ones, at once.
pub map-bars :
    (f : BarPayload → Decimal) (before : List Decimal) (now later : List BarPayload)
    → (before ++ map f now) ++ map f later ≡ before ++ map f (now ++ later)
map-bars f before now later =
    append_assoc before (map f now) (map f later)
    ∙ ap (λ ws. before ++ ws) (sym (map-append f now later))

pub length-map {ℓ κ} :
    {A : Type ℓ} {B : Type κ} (f : A → B) (xs : List A) → length (map f xs) ≡ length xs
length-map f [] = refl
length-map f (x ∷ xs) = ap suc (length-map f xs)
