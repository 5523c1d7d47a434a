-- ===== src/Simulation/Metrics.antt =====
-- simulation/metrics/backtest_metrics.py: the performance metrics of a backtest.
pub mod Drawdown
use finbar.Common.{
  ℕ, zero, suc, ◌-◌, Bool, true, false, ◌||◌, List, [], ◌∷◌, map, length, ltb, if◌then◌else◌,
}
use finbar.Common as Common
use finbar.Simulation.Number.{Number, ◌+◌, ◌*◌, ◌/◌, lt, le, eq, neg, nought, unity}
use finbar.Simulation.Number as Floats

-- The builtin `sum` (it rounds in its own way from Python 3.12 on), `math.sqrt`, `**` on floats,
-- `float("inf")` and the literal 1e-12. A division by an annualization factor of 0 raises; the ratios
-- are for a factor other than 0.
pub record Roots (F : Type 0) : Type 0 where
  pub sum : List F → F
  pub sqrt : F → F
  pub power : F → F → F
  pub infinity : F
  pub tiny : F

module _ {F : Type 0} ⦃num : Number F⦄ where
  -- The fall from a peak to a value, as a fraction of the peak.
  unfoldable pub drawdown : F → F → F
  drawdown peak value = if lt nought peak then num.sub peak value / peak else nought

  -- The loop over the equity values.
  unfoldable pub drawdown_loop : F → F → List F → F
  drawdown_loop peak max_dd [] = max_dd
  drawdown_loop peak max_dd (value ∷ values) =
      let peak' = if lt peak value then value else peak in
      let dd = drawdown peak' value in
      drawdown_loop peak' (if lt max_dd dd then dd else max_dd) values

  unfoldable pub calculate_max_drawdown : List F → F
  unfolding drawdown_loop drawdown
  calculate_max_drawdown [] = nought
  calculate_max_drawdown (value ∷ []) = nought
  calculate_max_drawdown (first ∷ second ∷ rest) =
      drawdown_loop first nought (first ∷ second ∷ rest)

  unfoldable pub calculate_calmar_ratio : F → F → F
  calculate_calmar_ratio annualised_return max_drawdown =
      if le max_drawdown nought then nought else annualised_return / max_drawdown

  unfoldable pub calculate_win_rate : ℕ → ℕ → F
  calculate_win_rate winning total =
      if ltb 0 total then num.of_nat winning / num.of_nat total else nought

  unfoldable pub calculate_total_return : F → F → F
  calculate_total_return initial final =
      if le initial nought then nought else num.sub final initial / initial

  -- The return from one value to the next.
  unfoldable pub return_of : F → F → F
  return_of before after = if lt nought before then num.sub after before / before else nought

  unfoldable pub calculate_daily_returns : List F → List F
  unfolding return_of
  calculate_daily_returns [] = []
  calculate_daily_returns (value ∷ []) = []
  calculate_daily_returns (before ∷ after ∷ rest) =
      return_of before after ∷ calculate_daily_returns (after ∷ rest)

  -- The returns below the risk-free rate, less that rate.
  unfoldable pub downside : F → List F → List F
  downside rate [] = []
  downside rate (r ∷ rs) =
      let rest = downside rate rs in if lt r rate then num.sub r rate ∷ rest else rest

module _ {F : Type 0} ⦃num : Number F⦄ ⦃roots : Roots F⦄ where
  abbrev pub root_of : F → F
  root_of variance = if lt nought variance then roots.sqrt variance else nought

  unfoldable pub squares : F → List F → List F
  squares mean [] = []
  squares mean (r ∷ rs) = roots.power (num.sub r mean) (num.of_nat 2) ∷ squares mean rs

  unfoldable pub calculate_sharpe : List F → F → F → F
  unfolding squares
  calculate_sharpe daily_returns risk_free_rate annualization_factor =
      let n = length daily_returns in
      let mean_all = roots.sum daily_returns / num.of_nat n in
      let mean_ret = num.sub mean_all (risk_free_rate / annualization_factor) in
      let variance = roots.sum (squares mean_all daily_returns) / num.of_nat (n - 1) in
      let std_ret = root_of variance in
      if ltb n 2
      then nought
      else if lt std_ret roots.tiny
      then nought
      else mean_ret / std_ret * roots.sqrt annualization_factor

  -- The ratio, once there are returns below the rate.
  unfoldable pub sortino_of : ℕ → F → F → List F → F
  sortino_of n mean_ret annualization_factor [] = nought
  sortino_of n mean_ret annualization_factor (r ∷ rs) =
      let downside_var =
        roots.sum (map (λ x. roots.power x (num.of_nat 2)) (r ∷ rs)) / num.of_nat (n - 1) in
      let downside_std = root_of downside_var in
      if eq downside_std nought
      then nought
      else mean_ret / downside_std * roots.sqrt annualization_factor

  unfoldable pub calculate_sortino : List F → F → F → F
  unfolding sortino_of downside
  calculate_sortino daily_returns risk_free_rate annualization_factor =
      let n = length daily_returns in
      let rate = risk_free_rate / annualization_factor in
      let mean_ret = num.sub (roots.sum daily_returns / num.of_nat n) rate in
      if ltb n 2
      then nought
      else sortino_of n mean_ret annualization_factor (downside rate daily_returns)

  unfoldable pub calculate_profit_factor : F → F → F
  calculate_profit_factor gross_profit gross_loss =
      if le gross_loss nought
      then (if lt nought gross_profit then roots.infinity else nought)
      else gross_profit / gross_loss

  unfoldable pub calculate_annualised_return : F → ℕ → F → F
  calculate_annualised_return total_return trading_days annualization_factor =
      let years = num.of_nat trading_days / annualization_factor in
      let base = unity + total_return in
      if ltb trading_days 1 || le annualization_factor nought
      then nought
      else if le years nought
      then nought
      else if le base nought
      then neg unity
      else num.sub (roots.power base (unity / years)) unity
