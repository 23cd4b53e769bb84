-- ===== src/Strategies/Answers.antt =====
-- src/psrc/strategies/rule.py, src/psrc/examples/sma_cross.py: how the strategies answer.
use strategy_adapter.Prelude.{
  ℕ, ◌≤◌, ◌≡◌, refl, String, Bool, true, false, List, [], ◌∷◌, length, All, some, ok, leb, ltb,
  if◌then◌else◌, if-both, Bool-cases, inl, inr, contains, arith,
}
use strategy_adapter.Decimal.{
  Decimal, of_nat, of_neg, quotient, lt?, abs, arithmetic, max_of, min_of,
}
use strategy_adapter.Contract.Errors.{Call}
use strategy_adapter.Contract.Models.{StrategyManifest, ActionKind, action_kind_eq}
use strategy_adapter.Domain.Market.{
  MarketEvent, MarketPayload, bar, trade, quote_l1, book_snapshot_l2, BarPayload, positive,
}
use strategy_adapter.Domain.Actions.{Action, validate_action, validate_prices}
use strategy_adapter.Adapters.Reference.Commands.{exceeds}
use strategy_adapter.Strategies.Common.{make_manifest, wait}
use strategy_adapter.Strategies.Window.{append, length-window}
use strategy_adapter.Strategies.Discipline.{IsPermitted, IsDisciplined}
use strategy_adapter.Strategies.SmaCross.{
  sma_manifest, sma_cross, sma_payload, cross_or_wait, crosses, target_to,
}
use strategy_adapter.Strategies.Donchian.{
  Channel, donchian_manifest, donchian_breakout, donchian_payload, donchian_bar, breakout, extreme,
  widen,
}
use strategy_adapter.Strategies.Twap.{twap_manifest, twap_execution, on_payload, next_slice}

wait-IsPermitted :
    (m : StrategyManifest) (event : MarketEvent) (reason_code explanation : String)
    → contains m.action_requirements.allowed ActionKind.no_op ≡ true
    → All (IsPermitted m event) (wait reason_code explanation)
unfolding validate_action
wait-IsPermitted m event r e h =
    (record { kind_allowed = h; constructible = refl; within = tt }, tt)

target_to-IsPermitted :
    (m : StrategyManifest) (event : MarketEvent) (quantity : Decimal) (reason_code : String)
    → contains m.action_requirements.allowed ActionKind.target_position ≡ true
    → exceeds (abs quantity) m.action_requirements.max_abs_position ≡ false
    → All (IsPermitted m event) (target_to event quantity reason_code)
unfolding validate_action
target_to-IsPermitted m event quantity r h within =
    (record { kind_allowed = h; constructible = refl; within = (refl, within) }, tt)

module _ (short_window long_window : ℕ) where
  cross_or_wait-IsPermitted :
      (event : MarketEvent) (closes : List Decimal)
      → All (IsPermitted sma_manifest event) (cross_or_wait short_window long_window event closes)
  unfolding cross_or_wait sma_manifest make_manifest arithmetic
  cross_or_wait-IsPermitted event closes =
      let both_sides : (c : Bool)
          → exceeds (abs (if c then of_nat 1 else of_neg 1)) (some (of_nat 1)) ≡ false =
        λ c. if-both (λ (d : Decimal). exceeds (abs d) (some (of_nat 1)) ≡ false) c refl refl in
      if-both (All (IsPermitted sma_manifest event)) (ltb (length closes) long_window)
        (wait-IsPermitted sma_manifest event _ _ refl)
        (target_to-IsPermitted sma_manifest event _ _ refl
          (both_sides (crosses short_window long_window closes)))

  sma_answers :
      (payload : MarketPayload) (event : MarketEvent) (closes : List Decimal)
      → length closes ≤ long_window
      → (actions : List Action) × (after : List Decimal) × (sma_payload short_window long_window
            payload event closes
          ≡ ok (actions, after))
        × (length after ≤ long_window)
        × All (IsPermitted sma_manifest event) actions
  unfolding sma_payload sma_manifest make_manifest
  sma_answers (bar p) event closes h = (
    _,
    _,
    refl,
    omega (arith, length-window long_window closes p.close),
    cross_or_wait-IsPermitted event (append long_window closes p.close),
  )
  sma_answers (trade p) event closes h =
      (_, _, refl, h, wait-IsPermitted sma_manifest event _ _ refl)
  sma_answers (quote_l1 p) event closes h =
      (_, _, refl, h, wait-IsPermitted sma_manifest event _ _ refl)
  sma_answers (book_snapshot_l2 p) event closes h =
      (_, _, refl, h, wait-IsPermitted sma_manifest event _ _ refl)

  -- The strategy of the moving averages answers every event, whatever its windows, with permitted
  -- actions only, and what it keeps from a start on and after every event is at most as many closes
  -- as the long window has.
  pub sma_cross-IsDisciplined :
      (d : IsDisciplined (sma_cross short_window long_window)) × ((closes : List Decimal)
        → d.Invariant closes
        → length closes ≤ long_window)
  sma_cross-IsDisciplined = (
    record {
      Invariant = λ closes. length closes ≤ long_window;
      starts = λ closes. ([], refl, omega arith);
      answers = λ event account closes h. sma_answers event.payload event closes h;
      finishes = λ closes h. (closes, refl);
    },
    λ closes h. h,
  )

pub extreme-ok :
    (f : Decimal → Decimal → Decimal) (xs : List Decimal)
    → 1 ≤ length xs
    → (x : Decimal) × (extreme f xs ≡ ok x)
extreme-ok f [] h = ground arith
extreme-ok f (x ∷ xs) h = (_, refl)

module _ (lookback : ℕ) where
  abbrev pub IsChannel : Channel → Type 0
  IsChannel c = (length c.highs ≤ lookback) × (length c.lows ≡ length c.highs)

  widen-IsChannel : (p : BarPayload) (c : Channel) → IsChannel c → IsChannel (widen lookback p c)
  widen-IsChannel p c h = (
    omega (arith, length-window lookback c.highs p.high),
    omega (arith, length-window lookback c.highs p.high, length-window lookback c.lows p.low),
  )

  breakout-IsPermitted :
      (event : MarketEvent) (close upper lower : Decimal)
      → All (IsPermitted donchian_manifest event) (breakout lookback event close upper lower)
  unfolding breakout donchian_manifest make_manifest arithmetic
  breakout-IsPermitted event close upper lower =
      if-both (All (IsPermitted donchian_manifest event)) (lt? upper close)
        (target_to-IsPermitted donchian_manifest event _ _ refl refl)
        (if-both (All (IsPermitted donchian_manifest event)) (lt? close lower)
          (target_to-IsPermitted donchian_manifest event _ _ refl refl)
          (wait-IsPermitted donchian_manifest event _ _ refl))

  abbrev Answer : MarketEvent → Call (List Action × Channel) → Type 0
  Answer event result =
      (actions : List Action) × (after : Channel) × (result ≡ ok (actions, after))
      × IsChannel after
      × All (IsPermitted donchian_manifest event) actions

  donchian_answers_bar :
      (event : MarketEvent) (p : BarPayload) (c : Channel)
      → 1 ≤ lookback
      → IsChannel c
      → Answer event (donchian_bar lookback event p c)
  unfolding donchian_bar donchian_manifest make_manifest
  donchian_answers_bar event p c longer h = elim (Bool-cases (ltb (length c.highs) lookback)) [
    | inl warm ↦
        rw (warm, donchian_bar)
          (_, _, refl, widen-IsChannel p c h, wait-IsPermitted donchian_manifest event _ _ refl)
    | inr complete ↦
        (let (upper, is_upper) = extreme-ok max_of c.highs (ground (arith, complete, longer)) in
          let (lower, is_lower) =
            extreme-ok min_of c.lows (ground (arith, complete, longer, h.1)) in
          rw (complete, donchian_bar, is_upper, is_lower)
            (_, _, refl, widen-IsChannel p c h, breakout-IsPermitted event p.close upper lower))
  ]

  donchian_answers :
      (payload : MarketPayload) (event : MarketEvent) (c : Channel)
      → 1 ≤ lookback
      → IsChannel c
      → Answer event (donchian_payload lookback payload event c)
  unfolding donchian_payload donchian_manifest make_manifest
  donchian_answers (bar p) event c longer h = donchian_answers_bar event p c longer h
  donchian_answers (trade p) event c longer h =
      (_, _, refl, h, wait-IsPermitted donchian_manifest event _ _ refl)
  donchian_answers (quote_l1 p) event c longer h =
      (_, _, refl, h, wait-IsPermitted donchian_manifest event _ _ refl)
  donchian_answers (book_snapshot_l2 p) event c longer h =
      (_, _, refl, h, wait-IsPermitted donchian_manifest event _ _ refl)

  -- With a lookback of 1 or more, the breakout strategy answers every event with permitted actions
  -- only, and what it keeps from a start on and after every event are equally many highs and lows,
  -- at most as many as the lookback.
  pub donchian-IsDisciplined :
      1 ≤ lookback
      → (d : IsDisciplined (donchian_breakout lookback)) × ((c : Channel)
          → d.Invariant c
          → IsChannel c)
  donchian-IsDisciplined longer = (
    record {
      Invariant = IsChannel;
      starts = λ c. (_, refl, (omega arith, refl));
      answers = λ event account c h. donchian_answers event.payload event c longer h;
      finishes = λ c h. (c, refl);
    },
    λ c h. h,
  )

module _ (total_quantity : Decimal) (slices : ℕ) where
  -- A slice is an order that can be made, and is within the manifest's limit.
  abbrev pub FitsLimit : Type 0
  FitsLimit =
      (positive (quotient total_quantity (of_nat slices)) ≡ true)
      × (exceeds (quotient total_quantity (of_nat slices)) (some (of_nat 2)) ≡ false)

  abbrev TwapAnswer : MarketEvent → Call (List Action × ℕ) → Type 0
  TwapAnswer event result =
      (actions : List Action) × (after : ℕ) × (result ≡ ok (actions, after))
      × Unit {0}
      × All (IsPermitted twap_manifest event) actions

  twap_answers_bar :
      (event : MarketEvent) (sent : ℕ)
      → FitsLimit
      → TwapAnswer event (next_slice total_quantity slices event sent)
  unfolding next_slice twap_manifest make_manifest validate_prices validate_action
  twap_answers_bar event sent fits =
      if-both (TwapAnswer event) (leb slices sent)
        (_, _, refl, tt, wait-IsPermitted twap_manifest event _ _ refl)
        (rw (fits.0) (
          _,
          _,
          refl,
          tt,
          (
            record {
              kind_allowed = refl;
              constructible = rw (fits.0) refl;
              within = (refl, fits.1);
            },
            tt,
          ),
        ))

  twap_answers :
      (payload : MarketPayload) (event : MarketEvent) (sent : ℕ)
      → FitsLimit
      → TwapAnswer event (on_payload total_quantity slices payload event sent)
  unfolding on_payload twap_manifest make_manifest
  twap_answers (bar p) event sent fits = twap_answers_bar event sent fits
  twap_answers (trade p) event sent fits =
      (_, _, refl, tt, wait-IsPermitted twap_manifest event _ _ refl)
  twap_answers (quote_l1 p) event sent fits =
      (_, _, refl, tt, wait-IsPermitted twap_manifest event _ _ refl)
  twap_answers (book_snapshot_l2 p) event sent fits =
      (_, _, refl, tt, wait-IsPermitted twap_manifest event _ _ refl)

  -- When a slice is a positive quantity of at most 2, the execution strategy answers every event
  -- with permitted actions only.
  pub twap-IsDisciplined : FitsLimit → IsDisciplined (twap_execution total_quantity slices)
  twap-IsDisciplined fits = record {
    Invariant = λ sent. Unit;
    starts = λ sent. (_, refl, tt);
    answers = λ event account sent h. twap_answers event.payload event sent fits;
    finishes = λ sent h. (sent, refl);
  }
