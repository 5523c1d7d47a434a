-- ===== src/Simulation/Tests.antt =====
-- Runs of the simulator on whole numbers, and its theorems at these runs.
use finbar.Common.{
  ℕ, ◌-◌, ◌≡◌, refl, true, Option, none, some, List, [], ◌∷◌, length, drop, take, IsPrefix, ℤ, pos,
  negsuc, ok, err, Result, ◌⊎◌,
}
use finbar.Simulation.Number.{eq, nought}
use finbar.Simulation.Types.{TradeRecord, PendingEntry, World, Fallible, long}
use finbar.Simulation.Runner.{Bar, SignalResult, TradingStrategy, buy, sell, go, leave}
use finbar.Simulation.Runner.Orders.{next_open-IsDrained, IsDrained}
use finbar.Simulation.Runner.Prefix.{Settled, all_but_last, longer_run-IsPrefix}
use finbar.Simulation.Opener.Stops.{enter-protects, protects}
use finbar.Simulation.Runner.Final.{run_loop_ends}
use finbar.Simulation.Types.{flat, initial_state, add_diagnostic}
use finbar.Simulation.Leverage.{
  is_spot, leverage_of, liquidation_price, margin_required, validate_stop,
}
use finbar.Simulation.Exits.{resolve, resolve_long, resolve_short}
use finbar.Simulation.Holding.{
  is_space, normalise_utc, parse_timestamp, strip, strip_left, time_held,
}
use finbar.Simulation.Costs.{apply_slippage, commission, slippage_sign}
use finbar.Simulation.Margin.{
  check_margin_call, sync_state_equity, apply_funding, credit_entry_short, equity,
  lock_entry_margin, margin_of, open_account, pay_funding, release_book, settle_exit,
}
use finbar.Simulation.Closer.{
  borrow_cost, build_trade, calc_pnl, cash_settlement, close, is_short, release_margin, settle,
  to_dict, check_liquidation,
}
use finbar.Simulation.Executor.{
  enter, fill_entry, liquidate_open, portfolio_value, rebase_risk_prices, replace_last, restate,
  scale_price, sync_margin_equity, fund, check_margin, check_exit_conditions, hold_one_bar,
  setup_full_margin,
}
use finbar.Simulation.Opener.{open_position, place, stop_misplaced, stop_valid}
use finbar.Simulation.Runner.{
  after_open, equity_point, final_of, peak_after, process_signal, bar_at, bars_from, run_bars,
  run_loop, track_equity, trade_bar, execute_pending,
}
use finbar.Simulation.Sizer.{
  apply_affordability_cap, cap_size, max_affordable_size, raw_size, resolve_size,
  risk_budget_multiplier,
}
use finbar.Simulation.Sample.{config, whole, no_clock}

-- A strategy that answers from a script.
abbrev pub scripted : TradingStrategy ℤ (List (Option (SignalResult ℤ)))
scripted = record { on_bar = λ script b p. elim script [ [] ↦ ([], none) | g ∷ rest ↦ (rest, g) ] }

abbrev buy_ten : SignalResult ℤ
buy_ten = record {
  action = buy;
  direction = go long;
  stop_price = pos 80;
  target_price = pos 130;
  confidence = pos 1;
  position_size = pos 10;
}

abbrev one_buy : List (Option (SignalResult ℤ))
one_buy = some buy_ten ∷ none ∷ []

abbrev sell_out : SignalResult ℤ
sell_out = record {
  action = sell;
  direction = leave;
  stop_price = pos 0;
  target_price = pos 0;
  confidence = pos 1;
  position_size = pos 0;
}

abbrev pub bar : ℕ → ℕ → ℕ → ℕ → Bar ℤ
bar o h l c = record {
  open_price = pos o;
  high = pos h;
  low = pos l;
  close_price = pos c;
  date = "2024-01-02";
  columns = [];
}

abbrev pub bars : List (Bar ℤ)
bars = bar 100 105 95 100 ∷ bar 100 105 95 101 ∷ bar 102 110 99 108 ∷ bar 109 112 105 110 ∷ []

-- One bar, and the next, in which the order fills and is stopped out.
abbrev first_bar : List (Bar ℤ)
first_bar = bar 100 105 95 101 ∷ []

abbrev next_bar : List (Bar ℤ)
next_bar = bar 102 110 70 75 ∷ []

-- The first answer falls into the warmup.
abbrev pub script : List (Option (SignalResult ℤ))
script = some sell_out ∷ some buy_ten ∷ none ∷ none ∷ []

abbrev value_of {ℓ κ} : {E : Type κ} {A : Type ℓ} → Result E A → A → A
value_of (ok a) b = a
value_of (err e) b = b

abbrev start : World ℤ
start = record { state = initial_state (pos 1000); margin = none }

-- A run of the whole loop, with all that it calls.
run : List (Bar ℤ) → Fallible (World ℤ)
unfolding flat initial_state add_diagnostic is_spot leverage_of liquidation_price margin_required
    validate_stop resolve resolve_long resolve_short is_space normalise_utc parse_timestamp strip
    strip_left time_held apply_slippage commission slippage_sign check_margin_call sync_state_equity
    apply_funding credit_entry_short equity lock_entry_margin margin_of open_account pay_funding
    release_book settle_exit borrow_cost build_trade calc_pnl cash_settlement close is_short
    release_margin settle to_dict check_liquidation enter fill_entry liquidate_open portfolio_value
    rebase_risk_prices replace_last restate scale_price sync_margin_equity fund check_margin
    check_exit_conditions hold_one_bar setup_full_margin open_position place stop_misplaced
    stop_valid after_open equity_point final_of peak_after process_signal bar_at bars_from run_bars
    run_loop track_equity trade_bar execute_pending apply_affordability_cap cap_size
    max_affordable_size raw_size resolve_size risk_budget_multiplier
run bs = run_loop scripted config (pos 1000) (pos 1) 1 bs script

cash_of : Fallible (World ℤ) → ℤ × ℕ
cash_of (ok w) = (w.state.cash, length w.state.trades)
cash_of (err e) = (negsuc 0, 0)

-- The order queued on the second bar fills at the third bar's open, 102, with the 9 units that the cash affords; the end of
-- the run sells them at 110.
run-bars : cash_of (run bars) ≡ (pos 1072, 1)
unfolding run cash_of
run-bars = refl

end_of : Fallible (World ℤ) → World ℤ
end_of r = value_of r start

run-ok : run bars ≡ ok (end_of (run bars))
unfolding run end_of
run-ok = refl

abbrev tail_of :
    Fallible (List (Option (SignalResult ℤ)) × World ℤ) → List (Option (SignalResult ℤ)) × World ℤ
tail_of r = value_of r ([], start)

run_loop_ends_example :
    (w : World ℤ) × (run_loop scripted config (pos 1000) (pos 1) 1 bars script ≡ ok w)
    × (eq w.state.position.size nought ≡ true)
    × (length w.state.equity_curve ≡ length bars - 1)
run_loop_ends_example = run_loop_ends scripted config (pos 1000) (pos 1) 1 bars script refl refl

-- The first three bars end with a position, which the whole run holds for one bar more.
longer_run-IsPrefix_example :
    (part : World ℤ) × (run_loop scripted config (pos 1000) (pos 1) 1 (take 3 bars) script
      ≡ ok part)
    × (kept : List (TradeRecord ℤ)) × Settled kept part.state.trades
    × IsPrefix kept (end_of (run bars)).state.trades
    × IsPrefix (all_but_last part.state.equity_curve) (end_of (run bars)).state.equity_curve
unfolding run
longer_run-IsPrefix_example =
    longer_run-IsPrefix scripted config (pos 1) 1 (pos 1000) (take 3 bars) (drop 3 bars) script
      {whole = end_of (run bars)} run-ok

-- After the second bar the entry is queued; the third bar's open takes it.
abbrev queued : List (Bar ℤ)
queued = take 2 bars

before_open : Fallible (List (Option (SignalResult ℤ)) × World ℤ)
unfolding run
before_open =
    run_bars scripted 1 config (pos 1) queued script
      (record { state = initial_state (pos 1000); margin = setup_full_margin config (pos 1000) })

after_pending : Fallible (World ℤ)
unfolding before_open
after_pending = execute_pending config (tail_of before_open).1 (pos 102) "2024-01-03"

next_open-IsDrained_example : IsDrained (end_of after_pending).state
unfolding after_pending end_of
next_open-IsDrained_example =
    next_open-IsDrained scripted refl 1 config (pos 1000) (pos 1) queued script (pos 102)
      "2024-01-03" {end = tail_of before_open} refl refl

-- The leverage of 1 leaves 10 units at 102 affordable out of 1000, but not 11.
abbrev big_order : PendingEntry ℤ
big_order = record {
  direction = long;
  stop_price = pos 80;
  target_price = pos 130;
  position_size = 11;
  explicit_size = true;
  risk_per_trade = pos 1;
  signal_close = pos 101;
}

enter-protects_example :
    let p = (end_of (enter config start big_order (pos 102) "2024-01-03")).state.position in
    (p ≡ start.state.position) ⊎ (protects config p ≡ true)
unfolding run end_of
enter-protects_example = enter-protects config start big_order (pos 102) "2024-01-03" refl
