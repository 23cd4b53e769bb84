-- ===== src/Adapters/Reference/Events.antt =====
-- src/psrc/adapters/reference.py: `_validate_events`.
use strategy_adapter.Prelude.{
  ℕ, Bool, true, false, not, ◌&&◌, ◌||◌, some, List, [], ◌∷◌, map, Eq, nat_eq, nat_beq, ◌==◌,
  distinct, ltb, ok, raised, if◌then◌else◌, ◌≡◌, ◌↔◌, arith,
}
use strategy_adapter.Contract.Errors.{ErrorCode, ErrorStage, Raised, Call, violation}
use strategy_adapter.Contract.Models.{ExecutionPlan, StrategyManifest}
use strategy_adapter.Domain.Market.{MarketEvent}

-- `(available_time, sequence)`
pub record Key : Type 0 where
  pub time : ℕ
  pub sequence : ℕ

abbrev pub key_of : MarketEvent → Key
key_of e = record { time = e.available_time; sequence = e.sequence }

-- the order of tuples
abbrev pub key_ltb : Key → Key → Bool
key_ltb a b = ltb a.time b.time || (nat_beq a.time b.time && ltb a.sequence b.sequence)

abbrev pub key_beq : Key → Key → Bool
key_beq a b = nat_beq a.time b.time && nat_beq a.sequence b.sequence

pub key_beq_iff : (a b : Key) → (key_beq a b ≡ true) ↔ (a ≡ b)
key_beq_iff a b = (λ h. ground arith, λ h. ground arith)

instance abbrev pub key_eq : Eq Key
key_eq = record { beq = key_beq; beq_iff = key_beq_iff }

-- `sorted(keys)`, a stable sort
unfoldable pub insert_key : Key → List Key → List Key
insert_key k [] = k ∷ []
insert_key k (j ∷ js) = let rest = insert_key k js in if key_ltb j k then j ∷ rest else k ∷ j ∷ js

unfoldable pub sort_keys : List Key → List Key
sort_keys [] = []
sort_keys (k ∷ ks) = insert_key k (sort_keys ks)

unfoldable pub keys_beq : List Key → List Key → Bool
keys_beq [] [] = true
keys_beq (a ∷ ks) (b ∷ js) = a == b && keys_beq ks js
keys_beq _ _ = false

abbrev events_error : ExecutionPlan → StrategyManifest → ErrorStage → ErrorCode → Raised
events_error plan manifest stage code = violation (record {
  run_id = plan.run_id;
  stage = stage;
  code = code;
  strategy_id = some manifest.strategy_id;
  engine_id = some plan.engine_id;
})

unfoldable pub validate_events :
    ExecutionPlan → StrategyManifest → List MarketEvent → Call (Unit {0})
validate_events plan manifest [] =
    raised (events_error plan manifest ErrorStage.backtest ErrorCode.backtest_failed)
validate_events plan manifest (event ∷ events) =
    let keys = map key_of (event ∷ events) in
    if not (keys_beq keys (sort_keys keys)) || not (distinct keys)
    then raised (events_error plan manifest ErrorStage.validation ErrorCode.data_ordering_invalid)
    else ok tt
