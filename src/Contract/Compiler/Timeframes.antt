-- ===== src/Contract/Compiler/Timeframes.antt =====
-- src/psrc/contract/compiler.py: versions, durations, and when bars can be resampled.
use Prim.Native.Nat.{◌%◌}
use strategy_adapter.Prelude.{
  ℕ, String, Bool, false, not, ◌&&◌, Option, none, some, List, [], ◌∷◌, nat_beq, ok, raised,
  string_eq, ◌==◌, if◌then◌else◌,
}
use strategy_adapter.Prelude.Int.{ℤ, pos, codes, int_of_codes, scale, nat_abs, ltb_ℤ}
use strategy_adapter.Contract.Errors.{Call, python, value_error}
use strategy_adapter.Contract.Models.{Timeframe, TimeframeMode, timeframe_mode_eq, DatasetStream}

-- `text.split(".", maxsplit=1)[0]`
unfoldable pub before_dot : List ℕ → List ℕ
before_dot [] = []
before_dot (c ∷ cs) = if nat_beq c b'.' then [] else c ∷ before_dot cs

parsed_major : Option ℤ → Call ℤ
parsed_major none = raised (python value_error)
parsed_major (some z) = ok z

-- `_major`
unfoldable pub major : String → Call ℤ
unfolding parsed_major
major version = parsed_major (int_of_codes (before_dot (codes version)))

-- the last of a list, and what stands before it
unfoldable pub split_last : ℕ → List ℕ → List ℕ × ℕ
split_last c [] = ([], c)
split_last c (d ∷ ds) = let (body, last) = split_last d ds in (c ∷ body, last)

-- the units S, M and H, in seconds
abbrev pub unit_seconds : ℕ → Option ℕ
unit_seconds c =
    if nat_beq c b'S'
    then some 1
    else if nat_beq c b'M'
    then some 60
    else if nat_beq c b'H'
    then some 3600
    else none

abbrev scaled : Option ℤ → Option ℕ → Option ℤ
scaled (some z) (some unit) = some (scale z unit)
scaled _ _ = none

-- a duration PTnU, its two letters taken off
unfoldable pub period_seconds : List ℕ → Option ℤ
period_seconds [] = none
period_seconds (c ∷ cs) =
    let (body, unit) = split_last c cs in scaled (int_of_codes body) (unit_seconds unit)

abbrev after_pt : List ℕ → Option (List ℕ)
after_pt (p ∷ t ∷ rest) = if nat_beq p b'P' && nat_beq t b'T' then some rest else none
after_pt _ = none

duration_of : Option (List ℕ) → Option ℤ
duration_of none = none
duration_of (some rest) = period_seconds rest

-- `_duration_seconds`
unfoldable pub duration_seconds : Option String → Option ℤ
unfolding duration_of
duration_seconds none = none
duration_seconds (some value) =
    if value == "P1D" then some (pos 86400) else duration_of (after_pt (codes value))

-- The test on two durations: both are known and not zero, the first is the shorter one and it
-- divides the second (a remainder is zero whatever the signs).
abbrev pub divides_into : Option ℤ → Option ℤ → Bool
divides_into (some source) (some target) =
    not (nat_beq (nat_abs source) 0)
    && not (nat_beq (nat_abs target) 0)
    && ltb_ℤ source target
    && nat_beq (nat_abs target % nat_abs source) 0
divides_into _ _ = false

-- `_can_resample`
unfoldable pub can_resample : DatasetStream → Timeframe → Bool
can_resample stream target =
    let source = stream.timeframe in
    source.mode == TimeframeMode.bar
    && target.mode == TimeframeMode.bar
    && source.timezone == target.timezone
    && source.calendar == target.calendar
    && source.alignment == target.alignment
    && divides_into (duration_seconds source.interval) (duration_seconds target.interval)
