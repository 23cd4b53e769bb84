-- ===== src/Contract/Compiler/Fitting.antt =====
-- src/psrc/contract/compiler.py: one requirement against one stream.
use strategy_adapter.Prelude.{
  ◌≡◌, inl, inr, Bool, true, false, not, List, [], ◌∷◌, ◌++◌, contains, difference, nonempty, ok,
  raised, raise_if, >>=-eq-ok, raise_if-eq-ok, arith, string_eq, ◌==◌, ◌!=◌, Bool-cases,
  Option-cases,
}
use strategy_adapter.Contract.Errors.{Raised, Call}
use strategy_adapter.Contract.Models.{
  EngineCapabilities, DatasetStream, DataRequirement, RunPolicy, CompatibilityRecord, data_kind_eq,
  DataKind-beq_iff, timeframe_eq, timeframe_beq_iff, action_kind_eq, sandbox_mode_eq,
}
use strategy_adapter.Contract.Compiler.Symbols.{symbol_mapping}
use strategy_adapter.Contract.Compiler.Requirement.{
  Context, compile_symbols, compile_timeframe, compile_stream, or_exact, mapped_record,
  resampled_record,
}
use strategy_adapter.Contract.Compiler.Specification.{
  Included, difference_empty, Included-difference, HasSymbols, HasTimeframe,
}

pub refused : {A : Type 0} {e : Raised} {a : A} → ◌≡◌ {A = Call A} (raised e) (ok a) → ⊥
refused h = cc

pub contradiction : {b : Bool} → b ≡ true → b ≡ false → ⊥
contradiction h k = cc

pub not-false : {b : Bool} → not b ≡ false → b ≡ true
not-false h = ground arith

module _ (c : Context) (policy : RunPolicy) (stream : DatasetStream)
    (requirement : DataRequirement) where
  compile_symbols-HasSymbols :
      (rs : List CompatibilityRecord)
      → compile_symbols c policy stream requirement ≡ ok rs
      → HasSymbols policy stream requirement
  unfolding compile_symbols
  compile_symbols-HasSymbols rs e =
      elim (Bool-cases (nonempty (difference requirement.symbols stream.symbols))) [
        | inl missing ↦ elim (Option-cases (symbol_mapping stream requirement.symbols policy)) [
          | inl unmapped ↦ absurd (refused (rw (missing, unmapped) at e))
          | inr mapped ↦ inr mapped
        ]
        | inr covered ↦ inl (difference_empty _ _ covered)
      ]

  HasSymbols-compile_symbols :
      HasSymbols policy stream requirement
      → (rs : List CompatibilityRecord) × (compile_symbols c policy stream requirement ≡ ok rs)
  unfolding compile_symbols
  HasSymbols-compile_symbols h =
      elim (Bool-cases (nonempty (difference requirement.symbols stream.symbols))) [
        | inl missing ↦ elim h [
          | inl all ↦ absurd (contradiction missing (Included-difference _ _ all))
          | inr (m, mapped) ↦ (mapped_record stream m ∷ [], rw (missing, mapped))
        ]
        | inr covered ↦ ([], rw covered)
      ]

  compile_timeframe-HasTimeframe :
      (rs : List CompatibilityRecord)
      → compile_timeframe c policy stream requirement ≡ ok rs
      → HasTimeframe policy stream requirement
  unfolding compile_timeframe
  compile_timeframe-HasTimeframe rs e =
      ground (arith, timeframe_beq_iff stream.timeframe requirement.timeframe)

  HasTimeframe-compile_timeframe :
      HasTimeframe policy stream requirement
      → (rs : List CompatibilityRecord) × (compile_timeframe c policy stream requirement ≡ ok rs)
  unfolding compile_timeframe
  HasTimeframe-compile_timeframe h = elim (Bool-cases (stream.timeframe == requirement.timeframe)) [
    | inl same ↦ ([], rw same)
    | inr differs ↦ elim h [
      | inl equal ↦ absurd (contradiction ((timeframe_beq_iff _ _).1 equal) differs)
      | inr (allowed, lossy, possible) ↦
          (resampled_record stream requirement ∷ [], rw (differs, allowed, lossy, possible))
    ]
  ]

-- The requirement is met by this stream.
pub record Fits (policy : RunPolicy) (engine : EngineCapabilities) (stream : DatasetStream)
    (requirement : DataRequirement) : Type 0 where
  pub consumable : contains engine.data_kinds requirement.kind ≡ true
  pub same_kind : stream.kind ≡ requirement.kind
  pub fields : Included requirement.required_fields stream.fields
  pub symbols : HasSymbols policy stream requirement
  pub timeframe : HasTimeframe policy stream requirement

module _ (c : Context) (policy : RunPolicy) (engine : EngineCapabilities) where
  pub compile_stream-Fits :
      (stream : DatasetStream) (requirement : DataRequirement) (rs : List CompatibilityRecord)
      → compile_stream c policy engine stream requirement ≡ ok rs
      → Fits policy engine stream requirement
  unfolding compile_stream
  compile_stream-Fits stream requirement rs e =
      let (_, consumed, e1) =
        >>=-eq-ok (raise_if (not (contains engine.data_kinds requirement.kind)) _) _ e in
      let (_, kinds, e2) = >>=-eq-ok (raise_if (stream.kind != requirement.kind) _) _ e1 in
      let (_, fields, e3) =
        >>=-eq-ok (raise_if (nonempty (difference requirement.required_fields stream.fields)) _) _
          e2 in
      let (mapped, symbols, e4) = >>=-eq-ok (compile_symbols c policy stream requirement) _ e3 in
      let (resampled, timeframe, _) =
        >>=-eq-ok (compile_timeframe c policy stream requirement) _ e4 in
      record {
        consumable = not-false (raise_if-eq-ok _ _ consumed);
        same_kind = (DataKind-beq_iff _ _).0 (not-false (raise_if-eq-ok _ _ kinds));
        fields = difference_empty _ _ (raise_if-eq-ok _ _ fields);
        symbols = compile_symbols-HasSymbols c policy stream requirement mapped symbols;
        timeframe = compile_timeframe-HasTimeframe c policy stream requirement resampled timeframe;
      }

  pub Fits-compile_stream :
      (stream : DatasetStream) (requirement : DataRequirement)
      → Fits policy engine stream requirement
      → (rs : List CompatibilityRecord) × (compile_stream c policy engine stream requirement
          ≡ ok rs)
  unfolding compile_stream
  Fits-compile_stream stream requirement f =
      let (mapped, symbols) = HasSymbols-compile_symbols c policy stream requirement f.symbols in
      let (resampled, timeframe) =
        HasTimeframe-compile_timeframe c policy stream requirement f.timeframe in
      let kinds : (stream.kind == requirement.kind) ≡ true = (DataKind-beq_iff _ _).1 f.same_kind in
      (
        or_exact c policy stream (mapped ++ resampled),
        rw (f.consumable, kinds, Included-difference _ _ f.fields, symbols, timeframe),
      )
