-- ===== src/Adapters/Reference/Records.antt =====
-- src/psrc/adapters/reference.py: what the report of a run says, against its metrics and events.
use strategy_adapter.Prelude.{
  ℕ, ◌+◌, ◌≤◌, ◌≡◌, refl, ◌∙◌, String, List, [], ◌∷◌, length, ok, arith, All-trivial,
}
use strategy_adapter.Contract.Models.{ExecutionPlan, SandboxMode}
use strategy_adapter.Domain.Market.{Timestamp, MarketEvent}
use strategy_adapter.Runtime.Strategy.{RuntimeStrategy}
use strategy_adapter.Runtime.Report.{OrderEventRecord, OrderStatus, RunReport}
use strategy_adapter.Adapters.Reference.Settlement.{ReferenceEngine, PendingOrder, note}
use strategy_adapter.Adapters.Reference.Run.{
  RunState, initial_state, process_event, expire_pending, make_report, Clock, run, universe_of,
}
use strategy_adapter.Adapters.Reference.Steps.{
  before, after, settle_event-eq-ok, process_event-eq-ok, run-eq-ok,
}
use strategy_adapter.Adapters.Reference.Loops.{handle_actions_inv, process_events_inv}
use strategy_adapter.Adapters.Reference.Tally.{
  tally, ended, IsNumbered, note-IsNumbered, note-tally, length-snoc, settle_pending-AllSettled,
}
use strategy_adapter.Adapters.Reference.Balance.{IsTallied, handle_action-IsTallied}

-- the state of a run after `index` events
record IsCounted (index : ℕ) (s : RunState) : Type 0 where
  orders : IsTallied (length s.fills) s.book
  decisions : length s.decisions ≡ index
  snapshots : length s.snapshots ≡ index

process_event-IsCounted :
    (engine : ReferenceEngine) (plan : ExecutionPlan) (strategy : RuntimeStrategy)
    (universe : List String) (index : ℕ) (event : MarketEvent) (s : RunState)
    (memory : strategy.Memory) (r : RunState × strategy.Memory)
    → Unit {0}
    → process_event engine plan strategy universe index event s memory ≡ ok r
    → IsCounted index s
    → IsCounted (index + 1) r.0
process_event-IsCounted engine plan strategy universe index event s memory r _ e h =
    let st = process_event-eq-ok engine plan strategy universe index event s memory r e in
    let (t, settles, _, same) = settle_event-eq-ok engine event s st.settles in
    let all = settle_pending-AllSettled engine event s.book.pending (before s) t settles in
    let settled : IsTallied (length t.fills) (after event s t st.settled.1).book = record {
      numbered = all.numbered h.orders.numbered;
      counted = all.accepted_same ∙ h.orders.counted;
      none_expired = all.expired_same ∙ h.orders.none_expired;
      fills_counted = omega (arith, all.fills_counted, h.orders.fills_counted);
      bounded = omega (arith, all.balanced, h.orders.bounded);
    } in
    let handled =
      handle_actions_inv plan strategy.manifest universe event st.settled.1 st.settled.0.marks
        (λ a. Unit {0}) (IsTallied (length t.fills))
        (handle_action-IsTallied plan strategy.manifest universe event st.settled.1
          st.settled.0.marks (length t.fills))
        st.decided.0 st.settled.0.book (All-trivial st.decided.0) st.handles (rw same settled) in
    rw (st.result, same)
      (record {
        orders = handled;
        decisions = length-snoc s.decisions _ ∙ omega (arith, h.decisions);
        snapshots = length-snoc s.snapshots _ ∙ omega (arith, h.snapshots);
      })

-- What the expiry of the pending orders adds.
record IsExpired (time : Timestamp) (pending : List PendingOrder) (rs : List OrderEventRecord)
    : Type 0 where
  numbered : IsNumbered rs → IsNumbered (expire_pending time pending rs)
  accepted_same :
      tally OrderStatus.accepted (expire_pending time pending rs) ≡ tally OrderStatus.accepted rs
  filled_same :
      tally OrderStatus.filled (expire_pending time pending rs) ≡ tally OrderStatus.filled rs
  ended_same : ended (expire_pending time pending rs) ≡ ended rs
  expired_more :
      tally OrderStatus.expired (expire_pending time pending rs)
      ≡ tally OrderStatus.expired rs + length pending

expire_pending-IsExpired :
    (time : Timestamp) (pending : List PendingOrder) (rs : List OrderEventRecord)
    → IsExpired time pending rs
unfolding expire_pending
expire_pending-IsExpired time [] rs = record {
  numbered = λ h. h;
  accepted_same = refl;
  filled_same = refl;
  ended_same = refl;
  expired_more = omega arith;
}
expire_pending-IsExpired time (o ∷ pending) rs =
    let noted = note-tally o.client_order_id o.instrument_id time OrderStatus.expired rs in
    let rest =
      expire_pending-IsExpired time pending
        (note o.client_order_id o.instrument_id time OrderStatus.expired rs) in
    record {
      numbered = λ h. rest.numbered (note-IsNumbered _ _ _ _ rs h);
      accepted_same = omega (arith, rest.accepted_same, noted OrderStatus.accepted);
      filled_same = omega (arith, rest.filled_same, noted OrderStatus.filled);
      ended_same = omega (
        arith,
        rest.ended_same,
        noted OrderStatus.filled,
        noted OrderStatus.satisfied,
        noted OrderStatus.canceled,
      );
      expired_more = omega (arith, rest.expired_more, noted OrderStatus.expired);
    }

-- What a report says of the run over `events`.
pub record IsAccounted (events : List MarketEvent) (report : RunReport) : Type 0 where
  pub numbered : IsNumbered report.orders
  pub accepted : tally OrderStatus.accepted report.orders ≡ report.metrics.orders
  pub filled : tally OrderStatus.filled report.orders ≡ length report.fills
  pub fills_metric : report.metrics.fills ≡ length report.fills
  pub ended_once :
      ended report.orders + tally OrderStatus.expired report.orders
      ≤ tally OrderStatus.accepted report.orders
  pub decisions : length report.decisions ≡ length events
  pub snapshots : length report.account_snapshots ≡ length events

-- The report of a run that returns numbers its order records from 0; its order metric counts the
-- accepted ones and its fills are as many as the filled ones; no more orders are filled, satisfied,
-- canceled or expired than were accepted; and there is one decision and one snapshot per event.
pub orders-IsAccounted :
    (engine : ReferenceEngine) (plan : ExecutionPlan) (strategy : RuntimeStrategy)
    (events : List MarketEvent) (mode : SandboxMode) (clock : Clock) (memory : strategy.Memory)
    (report : RunReport)
    → run engine plan strategy events mode clock memory ≡ ok report
    → IsAccounted events report
unfolding make_report
orders-IsAccounted engine plan strategy events mode clock memory report e =
    let f = run-eq-ok engine plan strategy events mode clock memory e in
    let (final, same, counted) =
      process_events_inv engine plan strategy (universe_of events) (λ _. Unit {0}) IsCounted
        (process_event-IsCounted engine plan strategy (universe_of events)) events 0
        (initial_state engine) f.started (All-trivial events) f.loops
        (record {
          orders = record {
            numbered = refl;
            counted = refl;
            none_expired = refl;
            fills_counted = refl;
            bounded = omega arith;
          };
          decisions = refl;
          snapshots = refl;
        }) in
    let s = f.looped.0 in
    let orders = counted.orders in
    let x =
      expire_pending-IsExpired f.last_event.available_time s.book.pending s.book.order_events in
    rw f.reported (record {
      numbered = x.numbered orders.numbered;
      accepted = x.accepted_same ∙ orders.counted;
      filled = x.filled_same ∙ orders.fills_counted;
      fills_metric = refl;
      ended_once = omega (
        arith, x.ended_same, x.expired_more, x.accepted_same, orders.counted, orders.none_expired,
        orders.bounded,
      );
      decisions = counted.decisions ∙ omega (arith, same);
      snapshots = counted.snapshots ∙ omega (arith, same);
    })
