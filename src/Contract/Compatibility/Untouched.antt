-- ===== src/Contract/Compatibility/Untouched.antt =====
-- src/psrc/contract/compatibility.py: what a plan without resampling leaves of the events.
use strategy_adapter.Prelude.{
  ◌≡◌, refl, ap, ◌∙◌, sym, String, false, Option, none, some, List, [], ◌∷◌, map, ok, >>=-eq-ok,
  ok-injective, Bool-cases, Option-cases, inl, inr, ◌==◌, option_eq, string_eq, All,
}
use strategy_adapter.Prelude.Dict.{Dict, lookup}
use strategy_adapter.Contract.Models.{
  CompatibilityRecord, CompatibilityResult, compatibility_result_eq, ExecutionPlan,
}
use strategy_adapter.Domain.Market.{MarketEvent}
use strategy_adapter.Contract.Compatibility

-- an event without its instrument and its source
abbrev pub anonymous : MarketEvent → MarketEvent
anonymous e = record e { instrument_id = ""; source = "" }

-- The record does not ask for resampling.
abbrev pub IsNoResampling : CompatibilityRecord → Type 0
IsNoResampling r = ((r.transformation_id == some "bar.resample.v1") ≡ false)

map_symbol-anonymous :
    (mapping : Dict String) (events : List MarketEvent)
    → map anonymous (map (Compatibility.map_symbol mapping) events) ≡ map anonymous events
unfolding Compatibility.map_symbol
map_symbol-anonymous mapping [] = refl
map_symbol-anonymous mapping (e ∷ events) = elim (Option-cases (lookup e.instrument_id mapping)) [
  | inl absent ↦
      rw (absent, Compatibility.map_symbol)
        (ap (λ es. anonymous e ∷ es) (map_symbol-anonymous mapping events))
  | inr (target, found) ↦
      rw (found, Compatibility.map_symbol)
        (ap (λ es. anonymous e ∷ es) (map_symbol-anonymous mapping events))
]

map_or_fail-anonymous :
    (mapping : Option (Dict String)) (events : List MarketEvent) {out : List MarketEvent}
    → Compatibility.map_or_fail mapping events ≡ ok out
    → map anonymous out ≡ map anonymous events
unfolding Compatibility.map_or_fail
map_or_fail-anonymous none events h = cc
map_or_fail-anonymous (some mapping) events h =
    ap (map anonymous) (sym (ok-injective h)) ∙ map_symbol-anonymous mapping events

apply_record-anonymous :
    (r : CompatibilityRecord) (events : List MarketEvent) {out : List MarketEvent}
    → IsNoResampling r
    → Compatibility.apply_record r events ≡ ok out
    → map anonymous out ≡ map anonymous events
unfolding Compatibility.apply_record
apply_record-anonymous r events n h = elim (Bool-cases (r.result == CompatibilityResult.exact)) [
  | inl t ↦ ap (map anonymous) (sym (ok-injective (rw (t, Compatibility.apply_record) at h)))
  | inr f ↦ elim (Bool-cases (r.transformation_id == some "symbol.map.v1")) [
    | inl s ↦
        map_or_fail-anonymous (Compatibility.mapping_of (lookup "mapping" r.parameters)) events
          (rw (f, s, Compatibility.apply_record) at h)
    | inr g ↦ let x = rw (f, g, n, Compatibility.apply_record) at h in cc
  ]
]

apply_records-anonymous :
    (rs : List CompatibilityRecord) (events : List MarketEvent) {out : List MarketEvent}
    → All IsNoResampling rs
    → Compatibility.apply_records rs events ≡ ok out
    → map anonymous out ≡ map anonymous events
unfolding Compatibility.apply_records
apply_records-anonymous [] events n h = ap (map anonymous) (sym (ok-injective h))
apply_records-anonymous (r ∷ rs) events n h =
    let (transformed, first, rest) = >>=-eq-ok (Compatibility.apply_record r events) _ h in
    apply_records-anonymous rs transformed n.1 rest ∙ apply_record-anonymous r events n.0 first

-- A plan none of whose records asks for resampling keeps the events, their number and order, and
-- changes nothing of an event but its instrument and its source.
pub only_names_change :
    (plan : ExecutionPlan) (events out : List MarketEvent)
    → All IsNoResampling plan.compatibility
    → Compatibility.apply_compatibility_plan events plan ≡ ok out
    → map anonymous out ≡ map anonymous events
unfolding Compatibility.apply_compatibility_plan
only_names_change plan events out n h = apply_records-anonymous plan.compatibility events n h
