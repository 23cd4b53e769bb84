-- ===== src/Adapters/Reference/Steps.antt =====
-- What a call of the engine that returned has done: inversions of the steps of the loops.
use strategy_adapter.Prelude.{
  ℕ, String, ◌≡◌, ◌⊎◌, inl, inr, refl, ◌∙◌, sym, ap, List, [], ◌∷◌, ◌++◌, ok, >>=-eq-ok,
  ok-injective, Bool-cases, ◌==◌, string_eq,
}
use text.Mathlib.TextEquality.{eq_iff}
use strategy_adapter.Prelude.Dict.{insert}
use strategy_adapter.Contract.Models.{ExecutionPlan, SandboxMode}
use strategy_adapter.Domain.Market.{MarketEvent}
use strategy_adapter.Domain.Actions.{Action}
use strategy_adapter.Domain.Account.{AccountSnapshot}
use strategy_adapter.Runtime.Strategy.{RuntimeStrategy}
use strategy_adapter.Runtime.Report.{RunReport}
use strategy_adapter.Adapters.Reference.Prices.{mark_price}
use strategy_adapter.Adapters.Reference.Events.{validate_events}
use strategy_adapter.Adapters.Reference.Settlement.{
  ReferenceEngine, PendingOrder, Settlement, settle_resolved, settle_order, settle_pending,
  resolve_fill, Resolution, waiting,
}
use strategy_adapter.Adapters.Reference.Commands.{Book, handle_actions}
use strategy_adapter.Adapters.Reference.Run.{
  RunState, initial_state, take_snapshot, settle_event, decision, process_event, process_events,
  last_item, make_report, Clock, run, universe_of,
}

-- `r` is what `resolve_fill` says of an order of the event's instrument; any other waits.
abbrev pub IsResolution : PendingOrder → MarketEvent → Settlement → Resolution → Type 0
IsResolution o event s r =
    ((o.instrument_id ≡ event.instrument_id) × (resolve_fill o event s.accounts.quantities ≡ ok r))
    ⊎ (r ≡ waiting)

pub settle_order-eq-ok :
    (engine : ReferenceEngine) (event : MarketEvent) (o : PendingOrder) (s t : Settlement)
    → settle_order engine event o s ≡ ok t
    → (r : Resolution) × IsResolution o event s r × (settle_resolved engine event o r s ≡ ok t)
unfolding settle_order
settle_order-eq-ok engine event o s t e =
    elim (Bool-cases (o.instrument_id == event.instrument_id)) [
      | inl same ↦
          let (r, resolved, rest) =
            >>=-eq-ok (resolve_fill o event s.accounts.quantities)
              (λ r. settle_resolved engine event o r s) (rw same at e) in
          (r, inl ((eq_iff _ _).0 same, resolved), rest)
      | inr other ↦ (waiting, inr refl, unfold settle_resolved in rw other at e)
    ]

-- the first settlement of an event
abbrev pub before : RunState → Settlement
before s = record {
  accounts = s.accounts;
  remaining = [];
  fills = s.fills;
  order_events = s.book.order_events;
}

-- the state after the settlement of an event
abbrev pub after : MarketEvent → RunState → Settlement → AccountSnapshot → RunState
after event s t snapshot = record s {
  accounts = t.accounts;
  marks = insert event.instrument_id (mark_price event.payload) s.marks;
  book = record s.book { pending = t.remaining; order_events = t.order_events };
  fills = t.fills;
  snapshots = s.snapshots ++ snapshot ∷ [];
}

pub settle_event-eq-ok :
    (engine : ReferenceEngine) (event : MarketEvent) (s : RunState) {r : RunState × AccountSnapshot}
    → settle_event engine event s ≡ ok r
    → (t : Settlement) × (settle_pending engine event s.book.pending (before s) ≡ ok t)
      × (take_snapshot event.available_time t.accounts
            (insert event.instrument_id (mark_price event.payload) s.marks)
            t.remaining
          ≡ ok r.1)
      × (r.0 ≡ after event s t r.1)
unfolding settle_event
settle_event-eq-ok engine event s {r} e =
    let (t, settled, rest) =
      >>=-eq-ok (settle_pending engine event s.book.pending (before s)) _ e in
    let (snapshot, taken, last) =
      >>=-eq-ok
        (take_snapshot event.available_time t.accounts
          (insert event.instrument_id (mark_price event.payload) s.marks) t.remaining)
        _ rest in
    let same = ok-injective last in
    (
      t,
      settled,
      taken ∙ ap (λ (x : RunState × AccountSnapshot). ok x.1) same,
      sym (ap (λ (x : RunState × AccountSnapshot). x.0) same)
          ∙ ap (λ (x : RunState × AccountSnapshot). after event s t x.1) same,
    )

module _ (engine : ReferenceEngine) (plan : ExecutionPlan) (strategy : RuntimeStrategy)
    (universe : List String) where
  open strategy use {Memory, manifest, on_event}

  -- a returned step: the settlement, the decision of the strategy, and the book after its actions
  pub record Stepped (index : ℕ) (event : MarketEvent) (s : RunState) (memory : Memory)
      (r : RunState × Memory) : Type 0 where
    pub settled : RunState × AccountSnapshot
    pub decided : List Action × Memory
    pub book : Book
    pub settles : settle_event engine event s ≡ ok settled
    pub decides : on_event event settled.1 memory ≡ ok decided
    pub handles :
        handle_actions plan manifest universe event settled.1 settled.0.marks decided.0
          settled.0.book
        ≡ ok book
    pub result : r.0 ≡ record settled.0 {
      book = book;
      decisions = settled.0.decisions ++ decision index event decided.0 ∷ [];
    }

  pub process_event-eq-ok :
      (index : ℕ) (event : MarketEvent) (s : RunState) (memory : Memory) (r : RunState × Memory)
      → process_event engine plan strategy universe index event s memory ≡ ok r
      → Stepped index event s memory r
  unfolding process_event
  process_event-eq-ok index event s memory r e =
      let (settled, settles, rest) = >>=-eq-ok (settle_event engine event s) _ e in
      let (decided, decides, rest') = >>=-eq-ok (on_event event settled.1 memory) _ rest in
      let (book, handles, last) =
        >>=-eq-ok
          (handle_actions plan manifest universe event settled.1 settled.0.marks decided.0
            settled.0.book)
          _ rest' in
      record {
        settled = settled;
        decided = decided;
        book = book;
        settles = settles;
        decides = decides;
        handles = handles;
        result = sym (ap (λ (x : RunState × Memory). x.0) (ok-injective last));
      }

module _ (engine : ReferenceEngine) (plan : ExecutionPlan) (strategy : RuntimeStrategy) where
  open strategy use {Memory, manifest, on_start, on_finish}

  -- a returned run
  pub record Finished (events : List MarketEvent) (mode : SandboxMode) (clock : Clock)
      (memory : Memory) (report : RunReport) : Type 0 where
    pub started : Memory
    pub looped : RunState × Memory
    pub final_snapshot : AccountSnapshot
    pub last_event : MarketEvent
    pub ordered : validate_events plan manifest events ≡ ok tt
    pub loops :
        process_events engine plan strategy
          (universe_of events)
          0
          events
          (initial_state engine)
          started
        ≡ ok looped
    pub last_snapshot : last_item looped.0.snapshots ≡ ok final_snapshot
    pub ends : last_item events ≡ ok last_event
    pub reported :
        report
        ≡ make_report engine plan mode clock last_event.available_time final_snapshot looped.0

  pub run-eq-ok :
      (events : List MarketEvent) (mode : SandboxMode) (clock : Clock) (memory : Memory)
      {report : RunReport}
      → run engine plan strategy events mode clock memory ≡ ok report
      → Finished events mode clock memory report
  unfolding run
  run-eq-ok events mode clock memory e =
      let (_, ordered, e1) = >>=-eq-ok (validate_events plan manifest events) _ e in
      let (started, starts, e2) = >>=-eq-ok (on_start memory) _ e1 in
      let (looped, loops, e3) =
        >>=-eq-ok
          (process_events engine plan strategy (universe_of events) 0 events (initial_state engine)
            started)
          _ e2 in
      let (_, finishes, e4) = >>=-eq-ok (on_finish looped.1) _ e3 in
      let (final_snapshot, last_snapshot, e5) = >>=-eq-ok (last_item looped.0.snapshots) _ e4 in
      let (last_event, ends, e6) = >>=-eq-ok (last_item events) _ e5 in
      record {
        started = started;
        looped = looped;
        final_snapshot = final_snapshot;
        last_event = last_event;
        ordered = ordered;
        loops = loops;
        last_snapshot = last_snapshot;
        ends = ends;
        reported = sym (ok-injective e6);
      }
