-- ===== src/Simulation/ClosingTests.antt =====
-- Closing a leveraged position, on whole numbers.
use finbar.Common.{◌≡◌, refl, true, some, pos, ℤ}
use finbar.Simulation.Types.{
  ExecutionConfig, SimulatedPosition, World, long, fixed_equity_risk, full, signal_close,
  calendar_day, initial_state,
}
use finbar.Simulation.Margin.{open_account}
use finbar.Simulation.Executor.{check_margin, check_exit_conditions}
use finbar.Simulation.MarginCall.{check_margin-redundant}
use finbar.Simulation.Sample.{whole, no_clock, ℤ-IsOrdered}

abbrev config : ExecutionConfig ℤ
config = record {
  commission_pct = pos 0;
  slippage_pct = pos 0;
  leverage_multiplier = pos 2;
  risk_mode = fixed_equity_risk;
  cap_explicit_size = true;
  reject_oversized_explicit_orders = true;
  allow_negative_cash = true;
  borrow_fee_annual_pct = pos 0;
  margin_mode = full;
  maintenance_margin_pct = pos 0;
  enable_funding = true;
  funding_rate = pos 0;
  risk_price_basis = signal_close;
  borrow_time_basis = calendar_day;
}

-- Ten units bought at 100, liquidated at 50.
abbrev ten_long : SimulatedPosition ℤ
ten_long = record {
  size = pos 10;
  direction = long;
  entry_price = pos 100;
  entry_date = "2024-01-02";
  stop_price = pos 0;
  target_price = pos 130;
  liquidation_price = pos 50;
  bars_held = 1;
  entry_commission = pos 0;
  entry_slippage = pos 0;
}

abbrev holding : World ℤ
holding =
    let s = initial_state (pos 1000) in
    record { state = record s { position = ten_long }; margin = some (open_account (pos 1000)) }

-- The bar falls to 40 and closes at 45, under the liquidation price.
check_margin-redundant_example :
    let held = check_exit_conditions config holding (pos 95) (pos 99) (pos 40) "2024-01-03" in
    check_margin config held (pos 45) ≡ held
check_margin-redundant_example =
    check_margin-redundant ℤ-IsOrdered config holding (pos 95) (pos 99) (pos 40) (pos 45)
      "2024-01-03" refl refl refl
