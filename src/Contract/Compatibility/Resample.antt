-- ===== src/Contract/Compatibility/Resample.antt =====
-- src/psrc/contract/compatibility.py: `resample_bars`. Bars are grouped by instrument and by the
-- interval that they close in; each group becomes one bar at the end of its interval.
use Prim.Native.String.{◌++◌}
use strategy_adapter.Prelude.{
  ℕ, zero, suc, ◌+◌, ◌*◌, ◌/◌, String, Bool, not, ◌&&◌, ◌||◌, Option, none, some, List, [], ◌∷◌,
  map, ltb, leb, nat_beq, ok, raised, ◌>>=◌, string_eq, ◌==◌, text_leb, show, if◌then◌else◌,
}
use mathlib.Core.List.{◌++◌ as append}
use strategy_adapter.Prelude.Int.{ℤ, pos, negsuc, negate, pos_part, neg_part, ltb_ℤ}
use strategy_adapter.Decimal.{max_of, min_of, sum}
use strategy_adapter.Contract.Errors.{Call, python, value_error, arithmetic_error}
use strategy_adapter.Contract.Compiler.{duration_seconds}
use strategy_adapter.Domain.Market.{
  Timestamp, BarPayload, MarketPayload, MarketEvent, bar, validate_event,
}

-- `_seconds`; an unsupported interval raises
unfoldable pub seconds : String → Call ℤ
seconds interval = elim (duration_seconds (some interval)) [
  | none ↦ raised (python value_error)
  | some z ↦ ok z
]

abbrev opposite : ℤ → ℤ
opposite (pos n) = negate n
opposite (negsuc n) = pos (suc n)

floor_div_ℕ : ℤ → ℕ → ℤ
floor_div_ℕ (pos n) k = pos (n / k)
floor_div_ℕ (negsuc n) k = negsuc (n / k)

-- `a // b`, rounded down; by zero it raises
unfoldable pub floor_div : ℤ → ℤ → Call ℤ
unfolding floor_div_ℕ
floor_div a (pos zero) = raised (python arithmetic_error)
floor_div a (pos (suc k)) = ok (floor_div_ℕ a (suc k))
floor_div a (negsuc k) = ok (floor_div_ℕ (opposite a) (suc k))

-- one second before a time, in whole seconds
abbrev previous_second : Timestamp → ℤ
previous_second t = elim (t / 1000000) [ zero ↦ negsuc 0 | suc n ↦ pos n ]

pub record GroupKey : Type 0 where
  pub instrument_id : String
  pub bucket : ℤ

abbrev key_beq : GroupKey → GroupKey → Bool
key_beq a b =
    a.instrument_id == b.instrument_id
    && nat_beq (pos_part a.bucket) (pos_part b.bucket)
    && nat_beq (neg_part a.bucket) (neg_part b.bucket)

abbrev key_leb : GroupKey → GroupKey → Bool
key_leb a b =
    if a.instrument_id == b.instrument_id
    then not (ltb_ℤ b.bucket a.bucket)
    else text_leb a.instrument_id b.instrument_id

-- A bar with the event that carries it. A group is not empty: its first bar, then the others.
pub record BarEvent : Type 0 where
  pub event : MarketEvent
  pub payload : BarPayload

pub record Group : Type 0 where
  pub key : GroupKey
  pub first : BarEvent
  pub others : List BarEvent

-- `groups[key].append(event)`
unfoldable pub add_to_group : GroupKey → BarEvent → List Group → List Group
add_to_group key e [] = record { key = key; first = e; others = [] } ∷ []
add_to_group key e (g ∷ gs) =
    if key_beq g.key key
    then record g { others = append g.others (e ∷ []) } ∷ gs
    else g ∷ add_to_group key e gs

-- the event as a bar, or none
abbrev as_bar : MarketEvent → Option BarEvent
as_bar e = bar_of e.payload
  where
    bar_of : MarketPayload → Option BarEvent
    bar_of (bar p) = some (record { event = e; payload = p })
    bar_of _ = none

add_event : ℤ → Option BarEvent → List Group → Call (List Group)
add_event interval none groups = raised (python value_error)
add_event interval (some e) groups = do
  bucket ← floor_div (previous_second e.event.event_time) interval
  ok (add_to_group (record { instrument_id = e.event.instrument_id; bucket = bucket }) e groups)

unfoldable pub group_events : ℤ → List MarketEvent → List Group → Call (List Group)
unfolding add_event
group_events interval [] groups = ok groups
group_events interval (e ∷ events) groups =
    add_event interval (as_bar e) groups >>= λ gs. group_events interval events gs

-- `sorted(groups.items())`: the keys differ
unfoldable pub insert_group : Group → List Group → List Group
insert_group g [] = g ∷ []
insert_group g (h ∷ hs) =
    let rest = insert_group g hs in if key_leb g.key h.key then g ∷ h ∷ hs else h ∷ rest

unfoldable pub sort_groups : List Group → List Group
sort_groups [] = []
sort_groups (g ∷ gs) = insert_group g (sort_groups gs)

-- `(available_time, sequence)` of the first is not later
abbrev not_after : MarketEvent → MarketEvent → Bool
not_after a b =
    ltb a.available_time b.available_time
    || (nat_beq a.available_time b.available_time && leb a.sequence b.sequence)

-- The sort of the events of a group, which keeps it from being empty.
unfoldable pub insert_bar : BarEvent → BarEvent → List BarEvent → BarEvent × List BarEvent
insert_bar e f [] = if not_after e.event f.event then (e, f ∷ []) else (f, e ∷ [])
insert_bar e f (g ∷ gs) =
    let (h, hs) = insert_bar e g gs in
    if not_after e.event f.event then (e, f ∷ g ∷ gs) else (f, h ∷ hs)

unfoldable pub sort_bars : BarEvent → List BarEvent → BarEvent × List BarEvent
sort_bars e [] = (e, [])
sort_bars e (f ∷ fs) = let (g, gs) = sort_bars f fs in insert_bar e g gs

unfoldable pub last_bar : BarEvent → List BarEvent → BarEvent
last_bar e [] = e
last_bar e (f ∷ fs) = last_bar f fs

-- `max(...)`, `min(...)` over the bars
unfoldable pub fold_bars : {A : Type 0} → (A → A → A) → (BarEvent → A) → A → List BarEvent → A
fold_bars pick get acc [] = acc
fold_bars pick get acc (e ∷ es) = fold_bars pick get (pick acc (get e)) es

abbrev later : Timestamp → Timestamp → Timestamp
later a b = if ltb a b then b else a

abbrev show_ℤ : ℤ → String
show_ℤ (pos n) = show n
show_ℤ (negsuc n) = "-" ++ show (suc n)

-- the end of an interval, `fromtimestamp((bucket + 1) * interval_seconds)`, not before the epoch
abbrev pub bucket_end : ℤ → ℤ → Timestamp
bucket_end (pos n) interval = (suc n * pos_part interval) * 1000000
bucket_end (negsuc n) interval = (n * neg_part interval) * 1000000

-- the bar of a group
unfoldable pub merge_group : ℤ → ℕ → Group → MarketEvent
merge_group interval sequence g =
    let (first, others) = sort_bars g.first g.others in
    record {
      event_id = "resampled:" ++ (g.key.instrument_id ++ (":" ++ show_ℤ g.key.bucket));
      instrument_id = g.key.instrument_id;
      event_time = bucket_end g.key.bucket interval;
      available_time =
          fold_bars later (λ e. e.event.available_time) first.event.available_time others;
      receive_time = fold_bars later (λ e. e.event.receive_time) first.event.receive_time others;
      sequence = sequence;
      source = "compat.bar-resample.v1:" ++ first.event.source;
      payload = bar (record {
        open_price = first.payload.open_price;
        high = fold_bars max_of (λ e. e.payload.high) first.payload.high others;
        low = fold_bars min_of (λ e. e.payload.low) first.payload.low others;
        close = (last_bar first others).payload.close;
        volume = sum (map (λ (e : BarEvent). e.payload.volume) (first ∷ others));
      });
    }

-- each merged bar is a new `MarketEvent`, whose validators may raise
unfoldable pub merge_groups : ℤ → ℕ → List Group → Call (List MarketEvent)
merge_groups interval sequence [] = ok []
merge_groups interval sequence (g ∷ gs) =
    let merged = merge_group interval sequence g in
    if not (validate_event merged)
    then raised (python value_error)
    else do rest ← merge_groups interval (sequence + 1) gs; ok (merged ∷ rest)

-- the last sort, by `(available_time, sequence)`
unfoldable pub insert_event : MarketEvent → List MarketEvent → List MarketEvent
insert_event e [] = e ∷ []
insert_event e (f ∷ fs) =
    let rest = insert_event e fs in if not_after e f then e ∷ f ∷ fs else f ∷ rest

unfoldable pub sort_events : List MarketEvent → List MarketEvent
sort_events [] = []
sort_events (e ∷ es) = insert_event e (sort_events es)

-- `resample_bars`
unfoldable pub resample_bars : List MarketEvent → String → Call (List MarketEvent)
resample_bars events target_interval = do
  interval ← seconds target_interval
  groups ← group_events interval events []
  merged ← merge_groups interval 0 (sort_groups groups)
  ok (sort_events merged)
