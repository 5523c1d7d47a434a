-- ===== src/Simulation/Executor.antt =====
-- PositionExecutor (simulation/position_executor.py), the facade that the bar loop calls.
use finbar.Common.{
  get_last?, suc, String, not, Option, none, some, List, [], ◌∷◌, ok, ◌>>=◌, if◌then◌else◌,
}
use finbar.Simulation.Number.{Number, ◌+◌, ◌-◌, ◌*◌, ◌/◌, abs, lt, le, eq, nought}
use finbar.Simulation.Types.{
  end_of_backtest, entry, RiskPriceBasis, signal_close, entry_fill, MarginMode, simplified, full,
  ExecutionConfig, SimulationState, EquityPoint, PendingEntry, MarginAccount, World, Fallible,
  ExitReason, margin_call, add_diagnostic,
}
use finbar.Simulation.Exits.{resolve}
use finbar.Simulation.Holding.{Clock}
use finbar.Simulation.Costs.{apply_slippage}
use finbar.Simulation.Margin.{open_account, sync_state_equity, apply_funding, check_margin_call}
use finbar.Simulation.Closer.{close, check_liquidation}
use finbar.Simulation.Sizer.{resolve_size}
use finbar.Simulation.Opener.{stop_valid, open_position}

-- The last point of the equity curve, replaced.
unfoldable pub replace_last :
    {F : Type 0} → EquityPoint F → List (EquityPoint F) → List (EquityPoint F)
replace_last p [] = []
replace_last p (x ∷ []) = p ∷ []
replace_last p (x ∷ y ∷ xs) = x ∷ replace_last p (y ∷ xs)

module _ {F : Type 0} ⦃num : Number F⦄ where
  setup_margin : MarginMode → F → Option (MarginAccount F)
  setup_margin simplified initial_cash = none
  setup_margin full initial_cash = some (open_account initial_cash)

  -- The executor's account before the first bar.
  unfoldable pub setup_full_margin : ExecutionConfig F → F → Option (MarginAccount F)
  unfolding setup_margin
  setup_full_margin c = setup_margin c.margin_mode

  unfoldable pub sync_margin_equity : World F → World F
  sync_margin_equity w = elim w.margin [
    | none ↦ w
    | some a ↦ record w { state = sync_state_equity a w.state }
  ]

  unfoldable pub fund : ExecutionConfig F → World F → World F
  fund c w = elim w.margin [
    | none ↦ w
    | some a ↦
        let s = w.state in
        let (payment, a') = apply_funding c s.position a in
        let funded : SimulationState F = record s {
          total_funding =
              if not (eq payment nought) then s.total_funding + payment else s.total_funding;
        } in
        record { state = sync_state_equity a' funded; margin = some a' }
  ]

  unfoldable pub portfolio_value : SimulationState F → F → F
  portfolio_value s close =
      if lt nought s.position.size
      then s.cash + s.position.size * close
      else if lt s.position.size nought
      then s.cash - abs s.position.size * close
      else s.cash

  unfoldable pub scale_price : F → F → F → F → F
  scale_price old_price base fill_price ratio =
      if le old_price nought then old_price else fill_price + (old_price - base) * ratio

  rebase_on : RiskPriceBasis → PendingEntry F → F → PendingEntry F
  rebase_on signal_close e fill_price = e
  rebase_on entry_fill e fill_price = if le e.signal_close nought then e else record e {
    stop_price = scale_price e.stop_price e.signal_close fill_price (fill_price / e.signal_close);
    target_price =
        scale_price e.target_price e.signal_close fill_price (fill_price / e.signal_close);
  }

  unfoldable pub rebase_risk_prices : ExecutionConfig F → PendingEntry F → F → PendingEntry F
  unfolding rebase_on scale_price
  rebase_risk_prices c = rebase_on c.risk_price_basis

  -- An entry whose stop has been validated.
  unfoldable pub fill_entry :
      ExecutionConfig F → World F → PendingEntry F → F → F → String → Fallible (World F)
  fill_entry c w e price fill_price date =
      let (size, s) =
        resolve_size c w.state e fill_price (portfolio_value w.state fill_price) date in
      if le size nought
      then ok (record w { state = add_diagnostic s "order_rejected" "entry_size_zero" date [] })
      else open_position c (record w { state = s }) e size price fill_price date

  unfoldable pub enter :
      ExecutionConfig F → World F → PendingEntry F → F → String → Fallible (World F)
  enter c w e price date = do
    let fill_price = apply_slippage price e.direction entry c.slippage_pct
    let e' = rebase_risk_prices c e fill_price
    valid ← stop_valid c e' fill_price
    if valid then fill_entry c w e' price fill_price date else ok w

  unfoldable pub hold_one_bar : World F → World F
  hold_one_bar w =
      let s = w.state in
      let p = s.position in
      record w { state = record s { position = record p { bars_held = suc p.bars_held } } }

  -- The recorded last point after the final liquidation.
  unfoldable pub restate : SimulationState F → F → SimulationState F
  unfolding replace_last
  restate s final_close = elim (get_last? s.equity_curve) [
    | none ↦ s
    | some last ↦
        let value : F = portfolio_value s final_close in
        let peak : F = if lt s.peak_value value then value else s.peak_value in
        let drawdown : F = if lt nought peak then (peak - value) / peak else nought in
        record s {
          peak_value = peak;
          equity_curve =
              replace_last (record last { value = value; position = nought; drawdown = drawdown })
                s.equity_curve;
        }
  ]

module _ {F : Type 0} ⦃num : Number F⦄ ⦃clock : Clock F⦄ where
  -- `exit_position` is `PositionCloser.close` with the executor's own account.
  unfoldable pub check_margin : ExecutionConfig F → World F → F → World F
  check_margin c w close_price = elim w.margin [
    | none ↦ w
    | some a ↦
        if check_margin_call c w.state.position close_price
        then close c w close_price "" margin_call
        else w
  ]

  unfoldable pub close_on_fill :
      ExecutionConfig F → World F → String → Option (F × ExitReason) → World F
  close_on_fill c w bar_date none = w
  close_on_fill c w bar_date (some (exit_price, reason)) = close c w exit_price bar_date reason

  unfoldable pub check_exit_conditions : ExecutionConfig F → World F → F → F → F → String → World F
  unfolding close_on_fill
  check_exit_conditions c w open_price high low bar_date =
      let (w', liquidated) = check_liquidation c (hold_one_bar w) high low bar_date in
      if liquidated
      then w'
      else close_on_fill c w' bar_date (resolve w'.state.position open_price high low)

  unfoldable pub liquidate_open : ExecutionConfig F → World F → F → String → World F
  unfolding restate
  liquidate_open c w final_close final_date =
      if eq w.state.position.size nought
      then w
      else (let closed = close c w final_close final_date end_of_backtest in
          record closed { state = restate closed.state final_close })
