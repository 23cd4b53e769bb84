-- ===== src/Lib.antt =====
-- A model of the strategy adapter: a program that checks a trading strategy's declarations against
-- a dataset, an engine and a policy, compiles them to an execution plan, and runs the strategy over
-- market events on an engine, with a report at the end.
--
-- The parts, and how they interact:
--   * src/psrc/domain: market events, the actions of a strategy, accounts, with their validators
--     (Domain/Market, Domain/Actions, Domain/Account).
--   * src/psrc/contract/models.py, errors.py: declarations, plans, errors (Contract/Models,
--     Contract/Errors). A frozenset is a list, a dict an association list.
--   * src/psrc/contract/compiler.py: `compile_run` (Contract/Compiler: `Timeframes` has `_major`,
--     `_duration_seconds`, `_can_resample`; `Symbols` has `_symbol_mapping`; `Requirement` the loop over
--     the data requirements; `Plan` the whole; `Specification` says when declarations are compatible).
--   * src/psrc/contract/compatibility.py: `apply_compatibility_plan` and `resample_bars`
--     (Contract/Compatibility and its child Resample).
--   * src/psrc/runtime/lifecycle.py: the states of a run (Runtime/Lifecycle).
--   * src/psrc/runtime/orchestrator.py: `run_rule` and `run_trainable`, which apply the plan's
--     transformations, move the lifecycle, call the engine and finish its report (Runtime/Orchestrator;
--     `Steps` has actions on the mutable lifecycle and what the two `except` clauses do).
--   * src/psrc/runtime/strategy.py, training.py, adapters/base.py: protocols (Runtime/Strategy,
--     Training, and the record BacktestAdapter of Runtime/Orchestrator). A strategy is a record of
--     functions on a memory of its own type; it may raise, and the theorems on runs do not assume
--     what it does.
--   * src/psrc/runtime/report.py: the report (Runtime/Report), and the bundle of a report with its
--     declarations and the evidence of its input, with its validation (Runtime/Report/Bundle).
--   * src/psrc/runtime/artifacts.py: the store of artifacts as a directory of directories of files
--     (Runtime/Artifacts; `Components` has the test of a path component, `Store` save and load, over a
--     record of what the platform provides).
--   * src/psrc/adapters/reference.py: the deterministic event engine (Adapters/Reference: `Prices`
--     has the price functions; `Capabilities` what the engine declares of itself; `Settlement` the
--     settlement of pending orders and the position update; `Commands` what each action does;
--     `Events` the check of the events; `Run` the snapshot, the loop and the report). Each event
--     marks its instrument, settles the pending orders, takes a snapshot, and only then asks the
--     strategy.
--   * src/psrc/strategies/rule.py, common.py, src/psrc/examples/sma_cross.py: the strategies that
--     decide by rule (Strategies: one module each; `Window` is the bounded deque that they keep,
--     `Discipline` is what an engine may rely on, `Feeding` gives a strategy a history).
--   * src/psrc/authoring: the specification of a paper's strategy and the audit of a manifest against
--     it (Authoring).
--   * src/psrc/sandbox: the scanner of sources (Sandbox/Static, over the syntax trees of a parser that is
--     a parameter), and the container that strategies run in (Sandbox/Container, over a record of what
--     the operating system answers; `Confined` says what an invocation of docker promises).
--   * src/psrc/runtime/package.py: the checks that stand before and behind the import of a strategy
--     (Runtime/Package, over a record of what the file and import systems answer; it calls the scanner).
--
-- A call that may raise is a `Result` (Prelude/Raising); what is raised is a `ContractViolation` or
-- another Python exception. A lifecycle and the artifact store are handed the identifiers of a plan,
-- which `compile_run` has found well-formed. Amounts are Python decimals of 28 digits rounded half to even (Decimal);
-- limits of the exponent, infinities and NaN are not modelled. A timestamp is a natural number, so that
-- a naive one cannot be written. The clock and the SHA-256 digests are arguments. Messages, details and
-- cause chains of errors, and the free-form fields of records, are text for a reader and left out.
--
-- Loops are recursion on lists. The one fuel is that of the decimal printing of a number, which is the
-- number plus one, more than it has digits; the digits of a magnitude are counted likewise.
--
-- Not modelled: writing reports as JSON and HTML (files), the discovery and export of packages and the
-- gathering of source evidence (file system), what the attestation reads of the running system, the engines of
-- third parties, the strategies that calculate in floating point, the pairs strategy (square roots of
-- decimals), the command line, synthetic data, the evidence scripts.
pub mod Prelude
pub mod Decimal
pub mod Domain
pub mod Contract
pub mod Runtime
pub mod Sandbox
pub mod Strategies
pub mod Adapters
pub mod Authoring
pub mod Tests
