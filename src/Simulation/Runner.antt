-- ===== src/Simulation/Runner.antt =====
-- The bar loop of finbar/infrastructure/services/backtest_runner.py.
pub mod Orders
pub mod Growth
pub mod Equity
pub mod Prefix
pub mod Final
pub mod Warmup
pub mod Total
use finbar.Common.{
  ℕ, zero, suc, String, Bool, true, false, not, ◌&&◌, Option, none, some, List, [], ◌∷◌, ◌++◌, ℤ,
  ltb, to_ℕ, ok, ◌>>=◌, if◌then◌else◌,
}
use finbar.Strategy.Values.{Json}
use finbar.Simulation.Number.{Number, ◌-◌, ◌/◌, lt, eq, nought}
use finbar.Simulation.Types.{
  EquityPoint, Direction, long, short, other, ExecutionConfig, SimulatedPosition, SimulationState,
  PendingEntry, PendingExit, World, Fallible, signal_exit_next_open, initial_state,
}
use finbar.Simulation.Holding.{Clock}
use finbar.Simulation.Closer.{close}
use finbar.Simulation.Executor.{
  setup_full_margin, sync_margin_equity, fund, portfolio_value, enter, check_margin,
  check_exit_conditions, liquidate_open,
}

-- One row of the frame: the prices, the date text, and the other columns, which hold values of any
-- type.
pub record Bar (F : Type 0) : Type 0 where
  pub open_price : F
  pub high : F
  pub low : F
  pub close_price : F
  pub date : String
  pub columns : List (String × Json F)

pub data Action : Type 0 where
  buy : Action
  sell : Action
  hold : Action

-- A signal's direction: a trade direction, or "exit".
pub data SignalDirection : Type 0 where
  go : Direction → SignalDirection
  leave : SignalDirection

-- SignalResult (finbar_strategy_runtime/domain/entities/signal_result.py).
pub record SignalResult (F : Type 0) : Type 0 where
  pub action : Action
  pub direction : SignalDirection
  pub stop_price : F
  pub target_price : F
  pub confidence : F
  pub position_size : ℤ

-- What the loop asks of a strategy: a step on its own state.
pub record TradingStrategy (F S : Type 0) : Type 0 where
  pub on_bar : S → Bar F → SimulatedPosition F → S × Option (SignalResult F)

abbrev pub is_trade : Action → Bool
is_trade hold = false
is_trade buy = true
is_trade sell = true

module _ {F : Type 0} ⦃num : Number F⦄ where
  queue_exit : SimulationState F → SignalResult F → SimulationState F
  queue_exit s g =
      if is_trade g.action && not (eq s.position.size nought)
      then record s {
        pending_exit =
            some (record { direction = s.position.direction; confidence = g.confidence });
      }
      else s

  queue_entry : SimulationState F → SignalResult F → Direction → F → F → SimulationState F
  queue_entry s g d close_price risk_per_trade =
      if eq s.position.size nought && is_trade g.action
      then record s {
        pending_entry = some (record {
          direction = d;
          stop_price = g.stop_price;
          target_price = g.target_price;
          position_size = to_ℕ g.position_size;
          explicit_size = ltb 0 (to_ℕ g.position_size);
          risk_per_trade = risk_per_trade;
          signal_close = close_price;
        });
      }
      else s

  handle_signal : SignalDirection → SimulationState F → SignalResult F → F → F → SimulationState F
  handle_signal leave s g close_price risk_per_trade = queue_exit s g
  handle_signal (go long) s g close_price risk_per_trade =
      queue_entry s g long close_price risk_per_trade
  handle_signal (go short) s g close_price risk_per_trade =
      queue_entry s g short close_price risk_per_trade
  handle_signal (go (other d)) s g close_price risk_per_trade = s

  -- `_process_signal` after the strategy has answered.
  unfoldable pub process_signal :
      SimulationState F → Option (SignalResult F) → F → F → SimulationState F
  unfolding handle_signal queue_exit queue_entry
  process_signal s none close_price risk_per_trade = s
  process_signal s (some g) close_price risk_per_trade =
      handle_signal g.direction s g close_price risk_per_trade

  -- The highest portfolio value up to this bar.
  unfoldable pub peak_after : SimulationState F → F → F
  peak_after s value = if lt s.peak_value value then value else s.peak_value

  unfoldable pub equity_point : SimulationState F → F → String → EquityPoint F
  unfolding peak_after
  equity_point s close_price date =
      let value : F = portfolio_value s close_price in
      let peak : F = peak_after s value in
      record {
        date = date;
        close = close_price;
        value = value;
        drawdown = if lt nought peak then (peak - value) / peak else nought;
        position = s.position.size;
      }

  unfoldable pub track_equity : SimulationState F → F → String → SimulationState F
  unfolding peak_after
  track_equity s close_price date = record s {
    peak_value = peak_after s (portfolio_value s close_price);
    equity_curve = s.equity_curve ++ equity_point s close_price date ∷ [];
  }

  -- The close and the date of the last bar, 0.0 and "" where there is none.
  unfoldable pub final_of : F → String → List (Bar F) → F × String
  final_of close_price date [] = (close_price, date)
  final_of close_price date (b ∷ bs) = final_of b.close_price b.date bs

module _ {F : Type 0} ⦃num : Number F⦄ ⦃clock : Clock F⦄ where
  -- The exit half of `_execute_pending`.
  unfoldable pub pending_exit_step :
      Option (PendingExit F) → ExecutionConfig F → World F → F → String → World F
  pending_exit_step none c w price date = w
  pending_exit_step (some x) c w price date =
      if eq w.state.position.size nought
      then w
      else (let closed = close c w price date signal_exit_next_open in
          let s = closed.state in record closed { state = record s { pending_exit = none } })

  -- The entry half.
  unfoldable pub pending_entry_step :
      Option (PendingEntry F) → ExecutionConfig F → World F → F → String → Fallible (World F)
  pending_entry_step none c w price date = ok w
  pending_entry_step (some e) c w price date =
      if eq w.state.position.size nought
      then (let s = w.state in
          enter c (record w { state = record s { pending_entry = none } }) e price date)
      else ok w

  unfoldable pub execute_pending : ExecutionConfig F → World F → F → String → Fallible (World F)
  unfolding pending_exit_step pending_entry_step
  execute_pending c w price date =
      let w' = pending_exit_step w.state.pending_exit c w price date in
      pending_entry_step w'.state.pending_entry c w' price date

  module _ {S : Type 0} (strategy : TradingStrategy F S) where
    -- The part of a bar after its pending orders.
    unfoldable pub after_open : ExecutionConfig F → F → Bar F → S → World F → S × World F
    after_open c risk_per_trade b memory w =
        let held = check_exit_conditions c w b.open_price b.high b.low b.date in
        let funded = fund c (check_margin c held b.close_price) in
        let (memory', signal) = strategy.on_bar memory b funded.state.position in
        let s = process_signal funded.state signal b.close_price risk_per_trade in
        let tracked = track_equity s b.close_price b.date in
        (memory', sync_margin_equity (record funded { state = tracked }))

    -- One bar that may trade.
    unfoldable pub trade_bar : ExecutionConfig F → F → Bar F → S → World F → Fallible (S × World F)
    unfolding after_open
    trade_bar c risk_per_trade b memory w = do
      opened ← execute_pending c w b.open_price b.date
      ok (after_open c risk_per_trade b memory opened)

    -- The loop where every bar may trade.
    unfoldable pub trade_bars :
        ExecutionConfig F → F → List (Bar F) → S → World F → Fallible (S × World F)
    trade_bars c risk_per_trade [] memory w = ok (memory, w)
    trade_bars c risk_per_trade (b ∷ bs) memory w =
        trade_bar c risk_per_trade b memory w >>= λ next.
        trade_bars c risk_per_trade bs next.0 next.1

    -- The body of the loop for the `i`-th bar. Where `i < first_tradable_index` the bar feeds the
    -- strategy alone.
    unfoldable pub bar_at :
        ℕ → ℕ → ExecutionConfig F → F → Bar F → S → World F → Fallible (S × World F)
    bar_at i first_tradable_index c risk_per_trade b memory w =
        if ltb i first_tradable_index
        then ok ((strategy.on_bar memory b w.state.position).0, w)
        else trade_bar c risk_per_trade b memory w

    -- The loop over the bars from the `i`-th on.
    unfoldable pub bars_from :
        ℕ → ℕ → ExecutionConfig F → F → List (Bar F) → S → World F → Fallible (S × World F)
    unfolding bar_at
    bars_from i first_tradable_index c risk_per_trade [] memory w = ok (memory, w)
    bars_from i first_tradable_index c risk_per_trade (b ∷ bs) memory w =
        bar_at i first_tradable_index c risk_per_trade b memory w >>= λ next.
        bars_from (suc i) first_tradable_index c risk_per_trade bs next.0 next.1

    unfoldable pub run_bars :
        ℕ → ExecutionConfig F → F → List (Bar F) → S → World F → Fallible (S × World F)
    unfolding bars_from
    run_bars first_tradable_index c risk_per_trade bs memory w =
        bars_from 0 first_tradable_index c risk_per_trade bs memory w

    unfoldable pub run_loop : ExecutionConfig F → F → F → ℕ → List (Bar F) → S → Fallible (World F)
    unfolding run_bars final_of
    run_loop c initial_cash risk_per_trade first_tradable_index bs memory = do
      end ←
          run_bars first_tradable_index c risk_per_trade bs memory (record {
            state = initial_state initial_cash;
            margin = setup_full_margin c initial_cash;
          })
      let final = final_of nought "" bs
      ok (liquidate_open c end.1 final.0 final.1)
