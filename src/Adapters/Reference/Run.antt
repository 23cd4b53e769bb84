-- ===== src/Adapters/Reference/Run.antt =====
-- src/psrc/adapters/reference.py: the checks on the events, the account snapshot, and `run`.
use strategy_adapter.Prelude.{
  ℕ, ◌+◌, String, not, ◌&&◌, List, [], ◌∷◌, ◌++◌, map, length, nat_eq, ok, raised, ◌>>=◌, ◌>>◌, all,
  if◌then◌else◌, string_eq,
}
use strategy_adapter.Prelude.Dict.{Dict, get_or, insert, sorted_items}
use strategy_adapter.Decimal.{Decimal, of_nat, ◌+ᵈ◌, ◌-ᵈ◌, ◌*ᵈ◌, quotient}
use strategy_adapter.Contract.Errors.{Call, python, value_error, index_error}
use strategy_adapter.Contract.Models.{ExecutionPlan, SandboxMode}
use strategy_adapter.Domain.Market.{Timestamp, MarketEvent}
use strategy_adapter.Domain.Actions.{Action}
use strategy_adapter.Domain.Account.{
  AccountSnapshot, Fill, Position, OpenOrder, validate_position, validate_open_order,
}
use strategy_adapter.Runtime.Strategy.{RuntimeStrategy}
use strategy_adapter.Runtime.Report.{
  DecisionRecord, OrderEventRecord, OrderStatus, RuntimeLogRecord, LogLevel, RunReport,
}
use strategy_adapter.Adapters.Reference.Prices.{mark_price}
use strategy_adapter.Adapters.Reference.Events.{validate_events}
use strategy_adapter.Adapters.Reference.Settlement.{
  ReferenceEngine, PendingOrder, Accounts, note, settle_pending,
}
use strategy_adapter.Adapters.Reference.Commands.{Book, handle_actions}

abbrev pub open_order : PendingOrder → OpenOrder
open_order o = record {
  client_order_id = o.client_order_id;
  instrument_id = o.instrument_id;
  order_type = o.order_type;
  side = o.side;
  quantity = o.quantity;
  target_quantity = o.target_quantity;
  limit_price = o.limit_price;
}

abbrev position_at : Accounts → Dict Decimal → String → Decimal → Position
position_at a marks instrument_id quantity =
    let average = get_or instrument_id (of_nat 0) a.average_prices in
    let mark = get_or instrument_id average marks in
    record {
      instrument_id = instrument_id;
      quantity = quantity;
      average_price = average;
      realized_pnl = get_or instrument_id (of_nat 0) a.realized_pnl;
      unrealized_pnl = quantity *ᵈ (mark -ᵈ average);
    }

-- the positions by instrument, in order
unfoldable pub positions_of : Accounts → Dict Decimal → Dict Decimal → List Position
positions_of a marks [] = []
positions_of a marks ((i, q) ∷ items) = position_at a marks i q ∷ positions_of a marks items

-- their value at the marks, added up in the same order
unfoldable pub market_value_from : Accounts → Dict Decimal → Decimal → Dict Decimal → Decimal
market_value_from a marks acc [] = acc
market_value_from a marks acc ((i, q) ∷ items) =
    market_value_from a marks (acc +ᵈ q *ᵈ get_or i (get_or i (of_nat 0) a.average_prices) marks)
      items

-- `_snapshot`
unfoldable pub take_snapshot :
    Timestamp → Accounts → Dict Decimal → List PendingOrder → Call AccountSnapshot
take_snapshot timestamp a marks pending =
    let items = sorted_items a.quantities in
    let positions = positions_of a marks items in
    let open_orders = map open_order pending in
    if not (all validate_position positions && all validate_open_order open_orders)
    then raised (python value_error)
    else ok (record {
      timestamp = timestamp;
      base_currency = "USD";
      cash = a.cash;
      equity = a.cash +ᵈ market_value_from a marks (of_nat 0) items;
      positions = positions;
      open_orders = open_orders;
    })

-- The locals of `run`.
pub record RunState : Type 0 where
  pub accounts : Accounts
  pub marks : Dict Decimal
  pub book : Book
  pub fills : List Fill
  pub decisions : List DecisionRecord
  pub snapshots : List AccountSnapshot

abbrev pub initial_state : ReferenceEngine → RunState
initial_state engine = record {
  accounts = record {
    cash = engine.initial_cash;
    quantities = [];
    average_prices = [];
    realized_pnl = [];
  };
  marks = [];
  book = record { pending = []; order_events = []; order_count = 0; no_op_count = 0 };
  fills = [];
  decisions = [];
  snapshots = [];
}

-- the first half of an event: its mark, the settlement of the pending orders, the snapshot
unfoldable pub settle_event :
    ReferenceEngine → MarketEvent → RunState → Call (RunState × AccountSnapshot)
settle_event engine event s = do
  let marks = insert event.instrument_id (mark_price event.payload) s.marks
  settled ← settle_pending engine event s.book.pending (record {
    accounts = s.accounts;
    remaining = [];
    fills = s.fills;
    order_events = s.book.order_events;
  })
  snapshot ← take_snapshot event.available_time settled.accounts marks settled.remaining
  ok (
    record s {
      accounts = settled.accounts;
      marks = marks;
      book = record s.book { pending = settled.remaining; order_events = settled.order_events };
      fills = settled.fills;
      snapshots = s.snapshots ++ snapshot ∷ [];
    },
    snapshot,
  )

abbrev pub decision : ℕ → MarketEvent → List Action → DecisionRecord
decision index event actions = record {
  sequence = index;
  event_id = event.event_id;
  event_time = event.available_time;
  actions = actions;
}

module _ (engine : ReferenceEngine) (plan : ExecutionPlan) (strategy : RuntimeStrategy)
    (universe : List String) where
  open strategy use {Memory, manifest, on_event}

  -- the body of the loop over the events
  unfoldable pub process_event : ℕ → MarketEvent → RunState → Memory → Call (RunState × Memory)
  process_event index event s memory = do
    settled ← settle_event engine event s
    decided ← on_event event settled.1 memory
    let t = settled.0
    book ← handle_actions plan manifest universe event settled.1 t.marks decided.0 t.book
    ok (
      record t { book = book; decisions = t.decisions ++ decision index event decided.0 ∷ [] },
      decided.1,
    )

  unfoldable pub process_events :
      ℕ → List MarketEvent → RunState → Memory → Call (RunState × Memory)
  process_events index [] s memory = ok (s, memory)
  process_events index (event ∷ events) s memory =
      process_event index event s memory >>= λ r. process_events (index + 1) events r.0 r.1

-- The orders that are left expire at the last event.
unfoldable pub expire_pending :
    Timestamp → List PendingOrder → List OrderEventRecord → List OrderEventRecord
expire_pending time [] events = events
expire_pending time (order ∷ pending) events =
    expire_pending time pending
      (note order.client_order_id order.instrument_id time OrderStatus.expired events)

-- `xs[-1]`
unfoldable pub last_item : {A : Type 0} → List A → Call A
last_item [] = raised (python index_error)
last_item (x ∷ []) = ok x
last_item (x ∷ y ∷ ys) = last_item (y ∷ ys)

abbrev log_line : ℕ → Timestamp → String → RuntimeLogRecord
log_line sequence time message = record {
  sequence = sequence;
  timestamp = time;
  level = LogLevel.info;
  stage = "backtest";
  message = message;
}

-- the clock's readings in a run
pub record Clock : Type 0 where
  pub started_at : Timestamp
  pub finished_at : Timestamp
  pub completed_at : Timestamp

-- the report of a run that got through its events
unfoldable pub make_report :
    ReferenceEngine
    → ExecutionPlan
    → SandboxMode
    → Clock
    → Timestamp
    → AccountSnapshot
    → RunState
    → RunReport
make_report engine plan sandbox_mode clock last_time final_snapshot s = record {
  run_id = plan.run_id;
  execution_plan = plan;
  sandbox_mode = sandbox_mode;
  started_at = clock.started_at;
  finished_at = clock.finished_at;
  metrics = record {
    initial_cash = engine.initial_cash;
    final_cash = final_snapshot.cash;
    final_equity = final_snapshot.equity;
    total_return = quotient (final_snapshot.equity -ᵈ engine.initial_cash) engine.initial_cash;
    decisions = length s.decisions;
    orders = s.book.order_count;
    fills = length s.fills;
    no_ops = s.book.no_op_count;
  };
  decisions = s.decisions;
  orders = expire_pending last_time s.book.pending s.book.order_events;
  fills = s.fills;
  account_snapshots = s.snapshots;
  logs =
      log_line 0 clock.started_at "Reference engine run started"
      ∷ log_line 1 clock.completed_at "Reference engine run completed"
      ∷ [];
  lifecycle = [];
  artifacts = [];
}

-- `frozenset(event.instrument_id for event in events)`
abbrev pub universe_of : List MarketEvent → List String
universe_of = map (λ e. e.instrument_id)

-- `ReferenceEngine.run`
unfoldable pub run :
    ReferenceEngine
    → ExecutionPlan
    → (strategy : RuntimeStrategy) → List MarketEvent
    → SandboxMode
    → Clock
    → strategy.Memory
    → Call RunReport
run engine plan strategy events sandbox_mode clock memory = do
  validate_events plan strategy.manifest events
  started ← strategy.on_start memory
  looped ←
      process_events engine plan strategy (universe_of events) 0 events (initial_state engine)
        started
  strategy.on_finish looped.1 >>= λ _. do
    final_snapshot ← last_item looped.0.snapshots
    last_event ← last_item events
    ok (
        make_report engine plan sandbox_mode clock last_event.available_time final_snapshot
          looped.0)
