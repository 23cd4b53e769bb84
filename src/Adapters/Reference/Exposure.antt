-- ===== src/Adapters/Reference/Exposure.antt =====
-- src/psrc/adapters/reference.py: the targets that a whole run shows as open orders.
use strategy_adapter.Prelude.{
  ℕ, ◌≡◌, subst, List, [], ◌∷◌, map, ok, >>=-eq-ok, ok-injective, unless_raised, All, All-append,
  All-trivial, String,
}
use strategy_adapter.Prelude.Dict.{Dict, lookup}
use strategy_adapter.Decimal.{Decimal}
use strategy_adapter.Contract.Models.{ExecutionPlan, StrategyManifest, SandboxMode}
use strategy_adapter.Domain.Market.{Timestamp, MarketEvent}
use strategy_adapter.Domain.Actions.{
  Action, no_op, prediction, target_position, target_weight, submit_order, cancel_order,
  replace_order,
}
use strategy_adapter.Domain.Account.{AccountSnapshot, OpenOrder}
use strategy_adapter.Runtime.Strategy.{RuntimeStrategy}
use strategy_adapter.Runtime.Report.{RunReport}
use strategy_adapter.Adapters.Reference.Settlement.{
  ReferenceEngine, PendingOrder, Accounts, Settlement,
}
use strategy_adapter.Adapters.Reference.Commands.{
  Book, direct_order, place_weight, resolve_mark, handle_action,
}
use strategy_adapter.Adapters.Reference.Run.{
  RunState, initial_state, open_order, take_snapshot, process_event, make_report, Clock, run,
  universe_of,
}
use strategy_adapter.Adapters.Reference.Steps.{
  before, settle_event-eq-ok, process_event-eq-ok, run-eq-ok,
}
use strategy_adapter.Adapters.Reference.Loops.{
  settle_pending_inv, handle_actions_inv, process_events_inv,
}
use strategy_adapter.Adapters.Reference.Balance.{in_universe-eq-ok, place_order-eq-ok}
use strategy_adapter.Adapters.Reference.Targets.{
  IsAllowed, AllAllowed, settle_order-AllAllowed, cancel-AllAllowed, replace-AllAllowed,
  place_target-AllAllowed,
}

module _ (manifest : StrategyManifest) where
  -- the open orders of a snapshot
  abbrev pub ShowsAllowed : AccountSnapshot → Type 0
  ShowsAllowed snapshot =
      All (λ (o : OpenOrder). IsAllowed manifest o.target_quantity) snapshot.open_orders

  opened :
      (pending : List PendingOrder)
      → AllAllowed manifest pending
      → All (λ (o : OpenOrder). IsAllowed manifest o.target_quantity) (map open_order pending)
  opened [] h = tt
  opened (o ∷ pending) h = (h.0, opened pending h.1)

  take_snapshot-ShowsAllowed :
      (time : Timestamp) (a : Accounts) (marks : Dict Decimal) (pending : List PendingOrder)
      {snapshot : AccountSnapshot}
      → take_snapshot time a marks pending ≡ ok snapshot
      → AllAllowed manifest pending
      → ShowsAllowed snapshot
  unfolding take_snapshot
  take_snapshot-ShowsAllowed time a marks pending e h =
      subst ShowsAllowed (unless_raised _ _ e) (opened pending h)

  handle_action-AllAllowed :
      (plan : ExecutionPlan) (universe : List String) (event : MarketEvent)
      (snapshot : AccountSnapshot) (marks : Dict Decimal) (a : Action) (b c : Book)
      → Unit {0}
      → handle_action plan manifest universe event snapshot marks a b ≡ ok c
      → AllAllowed manifest b.pending
      → AllAllowed manifest c.pending
  unfolding handle_action place_weight
  handle_action-AllAllowed plan universe event snapshot marks (no_op a) b c _ e h =
      subst (λ (d : Book). AllAllowed manifest d.pending) (ok-injective e) h
  handle_action-AllAllowed plan universe event snapshot marks (prediction a) b c _ e h =
      subst (λ (d : Book). AllAllowed manifest d.pending) (ok-injective e) h
  handle_action-AllAllowed plan universe event snapshot marks (cancel_order a) b c _ e h =
      cancel-AllAllowed manifest plan event a b c e h
  handle_action-AllAllowed plan universe event snapshot marks (replace_order a) b c _ e h =
      replace-AllAllowed manifest plan event a b c e h
  handle_action-AllAllowed plan universe event snapshot marks (target_weight a) b c _ e h =
      let (target, _, placed) =
        >>=-eq-ok (resolve_mark plan (lookup a.instrument_id marks) a snapshot.equity) _
          (in_universe-eq-ok plan universe a.instrument_id _ e) in
      place_target-AllAllowed manifest plan event
        (record { instrument_id = a.instrument_id; quantity = target; reason_code = a.reason_code })
        b c placed h
  handle_action-AllAllowed plan universe event snapshot marks (target_position a) b c _ e h =
      place_target-AllAllowed manifest plan event a b c
        (in_universe-eq-ok plan universe a.instrument_id _ e) h
  handle_action-AllAllowed plan universe event snapshot marks (submit_order a) b c _ e h =
      let (kind, _, _, same) =
        place_order-eq-ok plan manifest event a b
          (in_universe-eq-ok plan universe a.instrument_id _ e) in
      subst (λ (d : Book). AllAllowed manifest d.pending) same
        (All-append (λ (o : PendingOrder). IsAllowed manifest o.target_quantity) b.pending
          (direct_order event a kind ∷ []) h (tt, tt))

-- the state of a run between two events
record IsBounded (manifest : StrategyManifest) (s : RunState) : Type 0 where
  pending : AllAllowed manifest s.book.pending
  shown : All (ShowsAllowed manifest) s.snapshots

process_event-IsBounded :
    (engine : ReferenceEngine) (plan : ExecutionPlan) (strategy : RuntimeStrategy)
    (universe : List String) (index : ℕ) (event : MarketEvent) (s : RunState)
    (memory : strategy.Memory) (r : RunState × strategy.Memory)
    → Unit {0}
    → process_event engine plan strategy universe index event s memory ≡ ok r
    → IsBounded strategy.manifest s
    → IsBounded strategy.manifest r.0
process_event-IsBounded engine plan strategy universe index event s memory r _ e h =
    let manifest = strategy.manifest in
    let st = process_event-eq-ok engine plan strategy universe index event s memory r e in
    let (t, settles, taken, same) = settle_event-eq-ok engine event s st.settles in
    let left =
      settle_pending_inv engine event (λ (o : PendingOrder). IsAllowed manifest o.target_quantity)
        (λ (u : Settlement). AllAllowed manifest u.remaining)
        (settle_order-AllAllowed manifest engine event) s.book.pending (before s) h.pending settles
        tt in
    let handled =
      handle_actions_inv plan manifest universe event st.settled.1 st.settled.0.marks
        (λ a. Unit {0}) (λ (b : Book). AllAllowed manifest b.pending)
        (handle_action-AllAllowed manifest plan universe event st.settled.1 st.settled.0.marks)
        st.decided.0 st.settled.0.book (All-trivial st.decided.0) st.handles (rw same left) in
    rw (st.result, same)
      (record {
        pending = handled;
        shown =
            All-append (ShowsAllowed manifest) s.snapshots (st.settled.1 ∷ []) h.shown
              (take_snapshot-ShowsAllowed manifest _ t.accounts _ t.remaining taken left, tt);
      })

-- In the report of a run that returns, every target that a snapshot shows as an open order is within
-- the manifest's `max_abs_position`, weights and replacements included.
pub open_targets-ShowsAllowed :
    (engine : ReferenceEngine) (plan : ExecutionPlan) (strategy : RuntimeStrategy)
    (events : List MarketEvent) (mode : SandboxMode) (clock : Clock) (memory : strategy.Memory)
    (report : RunReport)
    → run engine plan strategy events mode clock memory ≡ ok report
    → All (ShowsAllowed strategy.manifest) report.account_snapshots
unfolding make_report
open_targets-ShowsAllowed engine plan strategy events mode clock memory report e =
    let f = run-eq-ok engine plan strategy events mode clock memory e in
    let (_, _, bounded) =
      process_events_inv engine plan strategy (universe_of events) (λ _. Unit {0})
        (λ _ s. IsBounded strategy.manifest s)
        (process_event-IsBounded engine plan strategy (universe_of events)) events 0
        (initial_state engine) f.started (All-trivial events) f.loops
        (record { pending = tt; shown = tt }) in
    rw f.reported bounded.shown
