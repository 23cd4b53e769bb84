-- ===== src/Adapters/Reference/Replay.antt =====
-- src/psrc/adapters/reference.py: the fills of a report as a ledger, against the accounts at the end
-- of the run.
use mathlib.Core.List.{foldl, foldl-append}
use strategy_adapter.Prelude.{
  ℕ, String, ◌≡◌, refl, sym, ap, ◌∙◌, List, [], ◌∷◌, ◌++◌, ok, arith, All-trivial,
}
use strategy_adapter.Decimal.{Decimal}
use strategy_adapter.Contract.Models.{ExecutionPlan, SandboxMode}
use strategy_adapter.Domain.Market.{MarketEvent}
use strategy_adapter.Domain.Account.{Fill, AccountSnapshot}
use strategy_adapter.Runtime.Strategy.{RuntimeStrategy}
use strategy_adapter.Runtime.Report.{RunReport}
use strategy_adapter.Adapters.Reference.Settlement.{
  ReferenceEngine, PendingOrder, Accounts, Settlement, book_fill, settle_filled, settle_resolved,
  settle_order, Resolution, waiting, satisfied, filled,
}
use strategy_adapter.Adapters.Reference.Run.{
  RunState, initial_state, take_snapshot, process_event, process_events, last_item, make_report,
  Clock, run, universe_of,
}
use strategy_adapter.Prelude.Dict.{Dict, insert}
use strategy_adapter.Adapters.Reference.Prices.{mark_price}
use strategy_adapter.Adapters.Reference.Steps.{
  settle_order-eq-ok, before, settle_event-eq-ok, process_event-eq-ok, run-eq-ok,
}
use strategy_adapter.Adapters.Reference.Loops.{settle_pending_inv, process_events_inv}

abbrev pub book_again : Accounts → Fill → Accounts
book_again a f = book_fill f.side f.quantity f.price f.fee f.instrument_id a

abbrev pub replay : Accounts → List Fill → Accounts
replay = foldl book_again

replay-snoc :
    (a : Accounts) (fs : List Fill) (f : Fill)
    → replay a (fs ++ f ∷ []) ≡ book_again (replay a fs) f
replay-snoc a fs f = rw foldl-append

last_item-snoc : {A : Type 0} (xs : List A) (x : A) → last_item (xs ++ x ∷ []) ≡ ok x
unfolding last_item
last_item-snoc [] x = refl
last_item-snoc (y ∷ []) x = refl
last_item-snoc (y ∷ z ∷ zs) x = last_item-snoc (z ∷ zs) x

cash-take_snapshot :
    (time : ℕ) (a : Accounts) (marks : Dict Decimal) (pending : List PendingOrder)
    {snapshot : AccountSnapshot}
    → take_snapshot time a marks pending ≡ ok snapshot
    → snapshot.cash ≡ a.cash
unfolding take_snapshot
cash-take_snapshot time a marks pending e = ground arith

last_item_nil : {A : Type 0} {x : A} → last_item [] ≡ ok x → ⊥
unfolding last_item
last_item_nil h = cc

module _ (base : Accounts) where
  abbrev IsReplayed : Settlement → Type 0
  IsReplayed s = s.accounts ≡ replay base s.fills

  settle_resolved-IsReplayed :
      (engine : ReferenceEngine) (event : MarketEvent) (o : PendingOrder) (r : Resolution)
      (s t : Settlement)
      → settle_resolved engine event o r s ≡ ok t
      → IsReplayed s
      → IsReplayed t
  unfolding settle_resolved settle_filled
  settle_resolved-IsReplayed engine event o waiting s t e h = ground arith
  settle_resolved-IsReplayed engine event o satisfied s t e h = ground arith
  settle_resolved-IsReplayed engine event o (filled side q p) s t e h = grind (arith, replay-snoc)

  settle_order-IsReplayed :
      (engine : ReferenceEngine) (event : MarketEvent) (o : PendingOrder) (s t : Settlement)
      → Unit {0}
      → settle_order engine event o s ≡ ok t
      → IsReplayed s
      → IsReplayed t
  settle_order-IsReplayed engine event o s t _ e h =
      let (r, _, rest) = settle_order-eq-ok engine event o s t e in
      settle_resolved-IsReplayed engine event o r s t rest h

  -- the accounts of the loop, and the cash of its latest snapshot
  record IsAudited (s : RunState) : Type 0 where
    booked : s.accounts ≡ replay base s.fills
    shown :
        (a : AccountSnapshot)
        → last_item s.snapshots ≡ ok a
        → (time : ℕ) × (marks : Dict Decimal) × (pending : List PendingOrder) × (take_snapshot time
              s.accounts marks pending
            ≡ ok a)

  step-IsAudited :
      (engine : ReferenceEngine) (plan : ExecutionPlan) (strategy : RuntimeStrategy)
      (universe : List String) (index : ℕ) (event : MarketEvent) (s : RunState)
      (memory : strategy.Memory) (r : RunState × strategy.Memory)
      → Unit {0}
      → process_event engine plan strategy universe index event s memory ≡ ok r
      → IsAudited s
      → IsAudited r.0
  step-IsAudited engine plan strategy universe index event s memory r _ e h =
      let st = process_event-eq-ok engine plan strategy universe index event s memory r e in
      let (t, settles, taken, same) = settle_event-eq-ok engine event s st.settles in
      let booked =
        settle_pending_inv engine event (λ o. Unit {0}) IsReplayed
          (settle_order-IsReplayed engine event) s.book.pending (before s)
          (All-trivial s.book.pending) settles h.booked in
      rw (st.result, same)
        (record {
          booked = booked;
          shown = λ a latest. (
            event.available_time,
            insert event.instrument_id (mark_price event.payload) s.marks,
            t.remaining,
            taken ∙ sym (last_item-snoc s.snapshots st.settled.1) ∙ latest,
          );
        })

  process_events-IsAudited :
      (engine : ReferenceEngine) (plan : ExecutionPlan) (strategy : RuntimeStrategy)
      (universe : List String) (events : List MarketEvent) (s : RunState) (memory : strategy.Memory)
      {r : RunState × strategy.Memory}
      → process_events engine plan strategy universe 0 events s memory ≡ ok r
      → IsAudited s
      → IsAudited r.0
  process_events-IsAudited engine plan strategy universe events s memory e h =
      (process_events_inv engine plan strategy universe (λ _. Unit {0}) (λ _ s. IsAudited s)
        (step-IsAudited engine plan strategy universe) events 0 s memory (All-trivial events) e h).2

abbrev pub opening : ReferenceEngine → Accounts
opening engine = (initial_state engine).accounts

-- The fills of a report, booked again one by one from the initial cash, give accounts whose
-- snapshot is the last snapshot of the report, and their cash is the final cash of its metrics.
pub fills_replay_accounts :
    (engine : ReferenceEngine) (plan : ExecutionPlan) (strategy : RuntimeStrategy)
    (events : List MarketEvent) (mode : SandboxMode) (clock : Clock) (memory : strategy.Memory)
    (report : RunReport)
    → run engine plan strategy events mode clock memory ≡ ok report
    → let accounts = replay (opening engine) report.fills in
      (report.metrics.final_cash ≡ accounts.cash)
      × (last : AccountSnapshot) × (last_item report.account_snapshots ≡ ok last)
      × (time : ℕ) × (marks : Dict Decimal) × (pending : List PendingOrder) × (take_snapshot time
            accounts marks pending
          ≡ ok last)
unfolding make_report
fills_replay_accounts engine plan strategy events mode clock memory report e =
    let f = run-eq-ok engine plan strategy events mode clock memory e in
    let audited =
      process_events-IsAudited (opening engine) engine plan strategy (universe_of events) events
        (initial_state engine) f.started f.loops
        (record { booked = refl; shown = λ a absent. absurd (last_item_nil absent) }) in
    let (time, marks, pending, taken) = audited.shown f.final_snapshot f.last_snapshot in
    rw f.reported (
      cash-take_snapshot time f.looped.0.accounts marks pending taken
          ∙ ap (λ (a : Accounts). a.cash) audited.booked,
      f.final_snapshot,
      f.last_snapshot,
      time,
      marks,
      pending,
      rw (← audited.booked) taken,
    )
