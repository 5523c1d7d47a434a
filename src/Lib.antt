-- ===== src/Lib.antt =====
-- A verification library for finbar, a backtesting service and its strategy runtime.
--
-- The program. finbar (finbar/) fetches bars, computes indicators in background jobs, runs backtests
-- and walk-forward optimisations, and serves them over an API. The strategy runtime
-- (packages/strategy-runtime/finbar_strategy_runtime/) holds the simulator that a backtest drives.
-- The bar loop of finbar/infrastructure/services/backtest_runner.py asks a strategy for a signal on
-- each bar, queues the order, and lets the simulator's PositionExecutor carry it out at the next
-- open; the executor validates and sizes an entry, books it, watches stops, targets, liquidation and
-- margin, and settles exits. Features of slower time frames reach the bars through a cursor that
-- shows a row only when it has closed. Job managers hold the background jobs, expire old ones and
-- keep within a limit.
--
-- The files.
--   * Common and its children: library names, Boolean tests, lists over the native numbers, results,
--     integers, Python dicts keyed by numbers or texts, lists of distinct names.
--   * Simulation: packages/strategy-runtime/finbar_strategy_runtime/simulation/. Types holds the
--     data, one record to a class; Leverage, Exits, Margin, Closer, Sizer, Opener and Executor the
--     operations of the classes LeverageConfig, IntrabarExitResolver, MarginAccount with its manager,
--     PositionCloser, PositionSizer, PositionOpener and PositionExecutor; Holding and Costs the
--     helpers of position_closer.py. Runner is the bar loop: run_loop is `_run_loop`, execute_pending
--     `_execute_pending`, process_signal `_process_signal`, track_equity `_track_equity`. The
--     theorems stand in Exits/Range, Sizer/Cap, Opener/Stops, Frame, MarginCall, Settlement, the
--     children of Runner, Ledger, which keeps the books of a run step by step, and ModeParity, which
--     sets a run in full-margin mode beside one in simplified mode. Metrics is
--     simulation/metrics/backtest_metrics.py, whose text
--     finbar/core/domain/services/backtest_metrics.py repeats; Drawdown is about its maximum
--     drawdown. Report is BacktestResultBuilder of
--     finbar/infrastructure/services/backtest_result_builder.py: compute_metrics is
--     `_compute_metrics`, compute_reconciliation `_compute_reconciliation`.
--   * Cursor: domain/entities/as_of_informative_cursor.py of the runtime. Cursor/Replay feeds it a
--     stream of informative rows and primary opens.
--   * Jobs: Store is what the job managers of finbar/infrastructure/services/ share; Fetch is
--     fetch_job_manager.py with fetch_job.py, Optimization in_memory_optimization_job_manager.py,
--     Indicator in_memory_indicator_job_manager.py without a session factory, where Describe has what
--     it tells of its artifacts.
--   * Artifacts: the functions on bars of in_memory_indicator_job_manager.py: page_bars is
--     `_page_bars`, which Pages and Cover are about; Metadata the two ways in which an artifact is
--     described.
--   * WalkForward: compute_fold_indices of
--     finbar/infrastructure/services/walk_forward_fold_helpers.py.
--   * ResultStore: finbar/infrastructure/services/in_memory_backtest_result_store.py without
--     `list_results`; Fresh is about a result that was just saved, on Keys and Oldest.
--   * Strategy: finbar_strategy_runtime/evaluation/ with the entities of a strategy definition.
--     Values holds the data; Evaluator is condition_evaluator.py, whose `collect_state` and
--     `evaluate_bool` are the two passes; Risk is json_risk_price_calculator.py; Rules is the
--     strategy itself, json_rule_based_strategy.py, which the bar loop calls. Evaluator/Truth and the
--     children of Rules hold the theorems. Of the runtime's parser/, Parser is the parser of
--     condition groups, Parser/Operands that of operands with the helpers of both, Serializer the
--     visitor that writes them back, Parameters the parameter resolver, Columns the collector of
--     required columns. Backtest puts the strategy into the bar loop.
--   * RateLimit: finbar/infrastructure/services/rate_limiter.py. `attempt` is one pass of the
--     admission loop under the lock; RateLimit/Window and RateLimit/Spacing are
--     about the grants, RateLimit/Waiting about `wait` as a whole, at the readings of the clock that a
--     caller makes.
--     RateLimit/Hyperliquid is hyperliquid_rate_limiter.py beside it, which counts weights.
--   * Profile: the volume profiles of the runtime. Area is expand_value_area of
--     domain/services/_profile_utils.py, Session the batch computation of
--     domain/services/volume_profile.py, Streaming the class of
--     indicators/streaming/incremental_session_vp_state.py, where `stream` reads the levels after
--     each `update`. Of Streaming's children, Accumulated and Sessions say what its state is, and
--     Batch and Parity compare it with Session. Rolling is compute_rolling_window_vp, whose buffers
--     are in Rolling/Ring; Rolling/Scratch compares it with windows computed from scratch.
--
-- The choices.
--   * Numbers of the simulator are floats. Number (Simulation/Number) is an interface with the
--     operations that the code uses and no laws, so a theorem holds for floats as for exact numbers.
--     A theorem that needs the order takes IsOrdered as a hypothesis, which floats meet away from
--     NaN; one that compares 0.0 with itself says so. The code divides only where it has found the
--     divisor above 0, or by a constant; two ratios of Metrics divide by the annualization factor,
--     which is taken not to be 0. The builtin `sum`, `math.sqrt` and `**` there are the interface
--     Roots. The books of a run balance in exact arithmetic, IsExact (Simulation/Ledger); IsSummable
--     (Simulation/Report) has besides that numbers are finite and `sum` adds them, while `round` does
--     what it does. Tests run the code on the integers
--     (Simulation/Sample) or on fixed-point numbers (Profile/Sample).
--   * The simulator's mutable state and the executor's margin account are one record World that each
--     operation takes and returns. A ValueError is the `err` of a result.
--   * A strategy is any function on a state of its own, the bar and the position. It answers on every
--     bar: an exception of a strategy is not modelled. A JSON strategy raises none on a row of numbers.
--   * A bar's extra columns hold values of any JSON type. pandas' NA, on which a test raises, is not
--     among them.
--   * datetime parsing and subtraction are the interface Clock. An unknown direction is `other`, with
--     its text. Log lines and the texts of diagnostics are left out.
--   * A dynamic value (a bar's column, an operand) is one data type of JSON values; a dict keyed by
--     text is a list of pairs in the order of first insertion. `float(text)` and `str(value)` are the
--     interface Texts; `strip`, the regular expression of a parameter reference and the metric
--     catalogue are the interface Syntax. The list of errors that a parser appends to is returned,
--     and the dict of crossover values that the evaluator mutates is passed along.
--   * Job and result ids, fresh UUIDs, and times are natural numbers. A job is given in the state
--     that it has when the manager takes the lock; each operation under the lock is one step. `now -
--     ttl` stops at 0, where no job is older anyway.
--   * `math`, numpy and pandas, as far as the volume profiles use them, are the interface Numpy
--     (Profile/Numpy), without laws; IsDocumented (Profile/Streaming/Batch) is what the comparison
--     needs of them. An index that Python would wrap round, -1, is `none` in the value area.
--   * Recursion is structural, on bars, jobs or counts. The cursor's `while` loop recurses over the
--     timestamps that are left. Two loops take rounds: that of the value area as many as there are
--     buckets, of which it takes in one a round, and that over the sessions of a frame as many as
--     there are bars, of which a session has one at least. The theorems about them show that these
--     are enough.
--
-- Not modelled. I/O and calls of libraries: the pandas frame and its date texts, the fetchers, SQL,
-- and the API. Floating-point formulas without a law to state, most of them on pandas frames: the
-- other indicators, the rolling metrics, the aggregation of folds. What repeats a modelled part: the
-- pipeline job manager (Jobs/Fetch) and CoinGlass's limiter (RateLimit). Copying of fields: the list
-- of stored results and the rest of the strategy serializer. The rest of the strategy parser, which
-- checks a definition against a large catalogue of metrics.
pub mod Artifacts
pub mod Common
pub mod Simulation
pub mod Cursor
pub mod Jobs
pub mod WalkForward
pub mod Profile
pub mod RateLimit
pub mod ResultStore
pub mod Strategy
