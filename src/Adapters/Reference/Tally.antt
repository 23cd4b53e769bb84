-- ===== src/Adapters/Reference/Tally.antt =====
-- src/psrc/adapters/reference.py: what the order records of a run count: the accepted orders, the
-- ended ones (filled, satisfied, canceled, expired), and those that are still pending.
use strategy_adapter.Prelude.{
  ℕ, suc, ◌+◌, ◌≡◌, refl, ap, ◌∙◌, sym, subst, List, [], ◌∷◌, ◌++◌, map, length, length-append,
  count_from, count_from-snoc, ok, >>=-eq-ok, ok-injective, unless_raised, arith, nat_beq,
  if◌then◌else◌, String, string_eq,
}
use strategy_adapter.Domain.Market.{Timestamp, MarketEvent}
use strategy_adapter.Runtime.Report.{OrderEventRecord, OrderStatus}
use strategy_adapter.Adapters.Reference.Settlement.{
  ReferenceEngine, PendingOrder, Settlement, Resolution, waiting, satisfied, filled, note,
  settle_filled, settle_resolved, settle_order, settle_pending,
}
use strategy_adapter.Adapters.Reference.Steps.{settle_order-eq-ok}

abbrev pub status_index : OrderStatus → ℕ
status_index OrderStatus.accepted = 0
status_index OrderStatus.replaced = 1
status_index OrderStatus.canceled = 2
status_index OrderStatus.filled = 3
status_index OrderStatus.satisfied = 4
status_index OrderStatus.expired = 5

-- 1 for a record of this status
abbrev pub one_if : OrderStatus → OrderStatus → ℕ
one_if a b = if nat_beq (status_index a) (status_index b) then 1 else 0

-- how many records have this status
abbrev pub tally : OrderStatus → List OrderEventRecord → ℕ
tally status [] = 0
tally status (r ∷ rs) = one_if status r.status + tally status rs

pub tally-append :
    (status : OrderStatus) (rs ts : List OrderEventRecord)
    → tally status (rs ++ ts) ≡ tally status rs + tally status ts
tally-append status [] ts = omega arith
tally-append status (r ∷ rs) ts = omega (arith, tally-append status rs ts)

-- how many records end an order within the loop over the events
abbrev pub ended : List OrderEventRecord → ℕ
ended rs =
    tally OrderStatus.filled rs + (tally OrderStatus.satisfied rs + tally OrderStatus.canceled rs)

abbrev pub IsNumbered : List OrderEventRecord → Type 0
IsNumbered rs = map (λ (r : OrderEventRecord). r.sequence) rs ≡ count_from 0 (length rs)

map-append :
    (rs ts : List OrderEventRecord)
    → map (λ (r : OrderEventRecord). r.sequence) (rs ++ ts)
      ≡ map (λ (r : OrderEventRecord). r.sequence) rs
        ++ map (λ (r : OrderEventRecord). r.sequence) ts
map-append [] ts = refl
map-append (r ∷ rs) ts = ap (λ ns. r.sequence ∷ ns) (map-append rs ts)

pub length-snoc {ℓ} : {A : Type ℓ} (xs : List A) (x : A) → length (xs ++ x ∷ []) ≡ suc (length xs)
length-snoc xs x = omega (arith, length-append xs (x ∷ []))

pub note-IsNumbered :
    (id instrument_id : String) (time : Timestamp) (status : OrderStatus)
    (rs : List OrderEventRecord)
    → IsNumbered rs
    → IsNumbered (note id instrument_id time status rs)
note-IsNumbered id instrument_id time status rs h =
    map-append rs _
    ∙ ap (λ ns. ns ++ length rs ∷ []) h
    ∙ ap (λ (n : ℕ). count_from 0 (length rs) ++ n ∷ []) (omega arith)
    ∙ count_from-snoc 0 (length rs)
    ∙ ap (λ n. count_from 0 n) (sym (length-snoc rs _))

pub note-tally :
    (id instrument_id : String) (time : Timestamp) (status : OrderStatus)
    (rs : List OrderEventRecord) (counted : OrderStatus)
    → tally counted (note id instrument_id time status rs)
      ≡ tally counted rs + one_if counted status
note-tally id instrument_id time status rs counted = tally-append counted rs _ ∙ omega arith

-- What the settlement of an order leaves as it was, and what it counts.
pub record OneSettled (s t : Settlement) : Type 0 where
  pub numbered : IsNumbered s.order_events → IsNumbered t.order_events
  pub accepted_same :
      tally OrderStatus.accepted t.order_events ≡ tally OrderStatus.accepted s.order_events
  pub expired_same :
      tally OrderStatus.expired t.order_events ≡ tally OrderStatus.expired s.order_events
  pub fills_counted :
      length t.fills + tally OrderStatus.filled s.order_events
      ≡ length s.fills + tally OrderStatus.filled t.order_events
  pub balanced :
      length t.remaining + ended t.order_events ≡ (length s.remaining + ended s.order_events) + 1

settle_resolved-OneSettled :
    (engine : ReferenceEngine) (event : MarketEvent) (o : PendingOrder) (r : Resolution)
    (s t : Settlement)
    → settle_resolved engine event o r s ≡ ok t
    → OneSettled s t
unfolding settle_resolved settle_filled
settle_resolved-OneSettled engine event o waiting s t e =
    subst (OneSettled s) (ok-injective e) (record {
      numbered = λ h. h;
      accepted_same = refl;
      expired_same = refl;
      fills_counted = refl;
      balanced = omega (arith, length-append s.remaining (o ∷ []));
    })
settle_resolved-OneSettled engine event o satisfied s t e =
    let noted =
      note-tally o.client_order_id o.instrument_id event.available_time OrderStatus.satisfied
        s.order_events in
    subst (OneSettled s) (ok-injective e) (record {
      numbered = note-IsNumbered _ _ _ _ s.order_events;
      accepted_same = omega (arith, noted OrderStatus.accepted);
      expired_same = omega (arith, noted OrderStatus.expired);
      fills_counted = omega (arith, noted OrderStatus.filled);
      balanced = omega (
        arith,
        noted OrderStatus.filled,
        noted OrderStatus.satisfied,
        noted OrderStatus.canceled,
      );
    })
settle_resolved-OneSettled engine event o (filled side quantity price) s t e =
    let noted =
      note-tally o.client_order_id o.instrument_id event.available_time OrderStatus.filled
        s.order_events in
    subst (OneSettled s) (unless_raised _ _ e) (record {
      numbered = note-IsNumbered _ _ _ _ s.order_events;
      accepted_same = omega (arith, noted OrderStatus.accepted);
      expired_same = omega (arith, noted OrderStatus.expired);
      fills_counted = omega (arith, noted OrderStatus.filled, length-append s.fills (_ ∷ []));
      balanced = omega (
        arith,
        noted OrderStatus.filled,
        noted OrderStatus.satisfied,
        noted OrderStatus.canceled,
      );
    })

-- the settlement of an order, whatever it is resolved to
pub settle_order-OneSettled :
    (engine : ReferenceEngine) (event : MarketEvent) (o : PendingOrder) (s t : Settlement)
    → settle_order engine event o s ≡ ok t
    → OneSettled s t
settle_order-OneSettled engine event o s t e =
    let (r, _, settled) = settle_order-eq-ok engine event o s t e in
    settle_resolved-OneSettled engine event o r s t settled

-- Over all pending orders: each one is left or ended.
pub record AllSettled (pending : List PendingOrder) (s t : Settlement) : Type 0 where
  pub numbered : IsNumbered s.order_events → IsNumbered t.order_events
  pub accepted_same :
      tally OrderStatus.accepted t.order_events ≡ tally OrderStatus.accepted s.order_events
  pub expired_same :
      tally OrderStatus.expired t.order_events ≡ tally OrderStatus.expired s.order_events
  pub fills_counted :
      length t.fills + tally OrderStatus.filled s.order_events
      ≡ length s.fills + tally OrderStatus.filled t.order_events
  pub balanced :
      length t.remaining + ended t.order_events
      ≡ (length s.remaining + ended s.order_events) + length pending

pub settle_pending-AllSettled :
    (engine : ReferenceEngine) (event : MarketEvent) (pending : List PendingOrder)
    (s t : Settlement)
    → settle_pending engine event pending s ≡ ok t
    → AllSettled pending s t
unfolding settle_pending
settle_pending-AllSettled engine event [] s t e = subst (AllSettled [] s) (ok-injective e) (record {
  numbered = λ h. h;
  accepted_same = refl;
  expired_same = refl;
  fills_counted = refl;
  balanced = omega arith;
})
settle_pending-AllSettled engine event (o ∷ pending) s t e =
    let (u, first, rest) = >>=-eq-ok (settle_order engine event o s) _ e in
    let one = settle_order-OneSettled engine event o s u first in
    let all = settle_pending-AllSettled engine event pending u t rest in
    record {
      numbered = λ h. all.numbered (one.numbered h);
      accepted_same = all.accepted_same ∙ one.accepted_same;
      expired_same = all.expired_same ∙ one.expired_same;
      fills_counted = omega (arith, one.fills_counted, all.fills_counted);
      balanced = omega (arith, one.balanced, all.balanced);
    }
