-- ===== src/Simulation/Report.antt =====
-- BacktestResultBuilder (finbar/infrastructure/services/backtest_result_builder.py): the metrics of a
-- run and its accounting reconciliation. The annualization factor and its warning, which
-- `annualization_factor` has looked up, are arguments.
pub mod Reconciliation
use finbar.Common.{
  ℕ, String, Bool, true, false, not, ltb, length, map, List, [], ◌∷◌, if◌then◌else◌,
}
use text.Mathlib.Text.{◌==◌}
use finbar.Simulation.Number.{Number, ◌+◌, ◌-◌, ◌/◌, abs, lt, le, eq, nought}
use finbar.Simulation.Types.{EquityPoint, SimulationState, TradeRecord}
use finbar.Simulation.Metrics.{
  Roots, calculate_annualised_return, calculate_calmar_ratio, calculate_daily_returns,
  calculate_max_drawdown, calculate_profit_factor, calculate_sharpe, calculate_sortino,
  calculate_total_return,
}

-- `math.isfinite`.
pub record Finite (F : Type 0) : Type 0 where
  pub isfinite : F → Bool

pub record BacktestMetrics (F : Type 0) : Type 0 where
  pub final_value : F
  pub total_return : F
  pub annualized_return : F
  pub annualization_factor : F
  pub annualization_warning : String
  pub total_trades : ℕ
  pub winning_trades : ℕ
  pub losing_trades : ℕ
  pub win_rate : F
  pub max_drawdown : F
  pub sharpe_ratio : F
  pub sortino_ratio : F
  pub profit_factor : F
  pub calmar_ratio : F

pub record AccountingReconciliation (F : Type 0) : Type 0 where
  pub total_commission : F
  pub total_borrow_cost : F
  pub total_funding : F
  pub total_fees : F
  pub total_slippage : F
  pub realized_pnl : F
  pub cash : F
  pub ending_position_size : F
  pub reconciliation_error : F

module _ {F : Type 0} where
  -- `[e["value"] for e in state.equity_curve]`
  abbrev pub equity_values : List (EquityPoint F) → List F
  equity_values = map (λ p. p.value)

  -- `values[-1] if values else default`
  unfoldable pub last_or : F → List F → F
  last_or default [] = default
  last_or default (x ∷ xs) = last_or x xs

  -- The values that pass a test.
  unfoldable pub only : (F → Bool) → List F → List F
  only test [] = []
  only test (x ∷ xs) = let rest = only test xs in if test x then x ∷ rest else rest

module _ {F : Type 0} ⦃num : Number F⦄ ⦃roots : Roots F⦄ ⦃finite : Finite F⦄ where
  -- The recorded profits, `t["pnl"]`, that are finite.
  unfoldable pub finite_profits : SimulationState F → List F
  unfolding only
  finite_profits s = only finite.isfinite (map (λ t. t.net_pnl) s.trades)

  unfoldable pub daily_returns_of : List F → List F
  daily_returns_of values = if ltb 1 (length values) then calculate_daily_returns values else []

  unfoldable pub ratio_of : (List F → F → F → F) → List F → F → F
  ratio_of ratio [] factor = nought
  ratio_of ratio (r ∷ rs) factor = ratio (r ∷ rs) nought factor

  unfoldable pub drawdown_of : List F → F
  drawdown_of [] = nought
  drawdown_of (x ∷ xs) = calculate_max_drawdown (x ∷ xs)

  unfoldable pub compute_metrics : SimulationState F → F → F → String → BacktestMetrics F
  unfolding last_or only finite_profits daily_returns_of ratio_of drawdown_of
  compute_metrics s initial_cash ann_factor ann_warning =
      let values = equity_values s.equity_curve in
      let final_value : F = last_or initial_cash values in
      let known = ann_warning == "" in
      let returns = daily_returns_of values in
      let total_return : F = calculate_total_return initial_cash final_value in
      let max_dd : F = drawdown_of values in
      let annualised : F =
        if known
        then calculate_annualised_return total_return (length s.equity_curve) ann_factor
        else nought in
      let profits = finite_profits s in
      let gains = only (λ x. lt nought x) profits in
      let losses = only (λ x. le x nought) profits in
      let factor : F = calculate_profit_factor (roots.sum gains) (abs (roots.sum losses)) in
      let total = length profits in
      record {
        final_value = num.round final_value 2;
        total_return = num.round total_return 4;
        annualized_return = num.round annualised 4;
        annualization_factor = ann_factor;
        annualization_warning = ann_warning;
        total_trades = total;
        winning_trades = length gains;
        losing_trades = length losses;
        win_rate =
            num.round (if ltb 0 total then num.of_nat (length gains) / num.of_nat total else nought)
              4;
        max_drawdown = num.round max_dd 4;
        sharpe_ratio =
            num.round (if known then ratio_of calculate_sharpe returns ann_factor else nought) 4;
        sortino_ratio =
            num.round (if known then ratio_of calculate_sortino returns ann_factor else nought) 4;
        profit_factor =
            if not (eq factor roots.infinity) then num.round factor 4 else num.of_nat 9999;
        calmar_ratio =
            num.round (if known then calculate_calmar_ratio annualised max_dd else nought) 4;
      }

  unfoldable pub compute_reconciliation : SimulationState F → F → AccountingReconciliation F
  unfolding last_or finite_profits
  compute_reconciliation s initial_cash =
      let final_value : F = last_or initial_cash (equity_values s.equity_curve) in
      let realized_pnl : F = roots.sum (finite_profits s) in
      record {
        total_commission = num.round s.total_commission 2;
        total_borrow_cost = num.round s.total_borrow_cost 2;
        total_funding = num.round s.total_funding 2;
        total_fees = num.round s.total_commission 2;
        total_slippage = num.round s.total_slippage 2;
        realized_pnl = num.round realized_pnl 2;
        cash = num.round s.cash 2;
        ending_position_size = s.position.size;
        reconciliation_error =
            num.round (final_value - initial_cash - realized_pnl + s.total_funding) 2;
      }
