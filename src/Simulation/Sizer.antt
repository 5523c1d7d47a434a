-- ===== src/Simulation/Sizer.antt =====
-- PositionSizer (simulation/position_sizer.py): the size of an entry, capped by buying power. A
-- method that appends diagnostics returns the state beside the size.
pub mod Cap
use finbar.Common.{String, not, ◌||◌, ◌&&◌, ltb, [], ◌∷◌, if◌then◌else◌}
use finbar.Simulation.Number.{Number, ◌+◌, ◌-◌, ◌*◌, ◌/◌, abs, lt, le, nought, unity, max, min}
use finbar.Simulation.Types.{
  RiskMode, fixed_equity_risk, leverage_scaled_risk, ExecutionConfig, SimulationState, PendingEntry,
  add_diagnostic,
}

module _ {F : Type 0} ⦃num : Number F⦄ where
  multiplier_for : F → RiskMode → F
  multiplier_for leverage leverage_scaled_risk = max leverage unity
  multiplier_for leverage fixed_equity_risk = unity

  unfoldable pub risk_budget_multiplier : ExecutionConfig F → F
  unfolding multiplier_for
  risk_budget_multiplier c = multiplier_for c.leverage_multiplier c.risk_mode

  -- `_DEFAULT_POSITION_SIZE`
  abbrev pub default_position_size : F
  default_position_size = num.of_nat 100

  -- The size that risks `risk_amount` over the distance to the stop.
  risk_size : F → F → SimulationState F → String → F × SimulationState F
  risk_size risk_amount risk_per_share s date =
      if lt (num.thousandths 1) risk_per_share then (risk_amount / risk_per_share, s) else (
        default_position_size,
        add_diagnostic s "warning" "stop_distance_too_small" date
            (("risk_per_share", risk_per_share) ∷ []),
      )

  unfoldable pub raw_size :
      ExecutionConfig F
      → PendingEntry F
      → F
      → F
      → SimulationState F
      → String
      → F × SimulationState F
  unfolding risk_budget_multiplier risk_size
  raw_size c e portfolio_value entry_price s date =
      if e.explicit_size && ltb 0 e.position_size
      then (num.of_nat e.position_size, s)
      else if lt nought e.stop_price
      then risk_size (portfolio_value * e.risk_per_trade * risk_budget_multiplier c)
          (abs (entry_price - e.stop_price)) s date
      else (default_position_size, s)

  unfoldable pub max_affordable_size : ExecutionConfig F → F → F → F
  max_affordable_size c cash fill_price =
      let effective_price : F = fill_price * (unity + max c.commission_pct nought) in
      if le fill_price nought
      then nought
      else if le effective_price nought
      then nought
      else max nought (cash * c.leverage_multiplier / effective_price)

  -- The size when the cap, already positive, is known.
  unfoldable pub cap_size :
      ExecutionConfig F
      → SimulationState F
      → PendingEntry F
      → F
      → F
      → String
      → F × SimulationState F
  cap_size c s e size cap date =
      let capped : F = min size cap in
      if le size capped
      then (capped, s)
      else if e.explicit_size && c.reject_oversized_explicit_orders
      then (
        nought,
        add_diagnostic s "order_rejected" "explicit_size_rejected" date
            (("requested_size", size) ∷ ("max_affordable_size", cap) ∷ []),
      )
      else if e.explicit_size && not c.cap_explicit_size
      then (size, s)
      else (
        capped,
        add_diagnostic s "order_resized" "affordability_cap" date
            (("requested_size", size) ∷ ("filled_size", capped) ∷ []),
      )

  unfoldable pub apply_affordability_cap :
      ExecutionConfig F
      → SimulationState F
      → PendingEntry F
      → F
      → F
      → String
      → F × SimulationState F
  unfolding cap_size
  apply_affordability_cap c s e size price date =
      if le price nought || c.allow_negative_cash
      then (size, s)
      else if le (max_affordable_size c s.cash price) nought
      then (nought, add_diagnostic s "order_rejected" "insufficient_cash" date [])
      else cap_size c s e size (max_affordable_size c s.cash price) date

  unfoldable pub resolve_size :
      ExecutionConfig F
      → SimulationState F
      → PendingEntry F
      → F
      → F
      → String
      → F × SimulationState F
  resolve_size c s e entry_price portfolio_value date =
      let (size, s') = raw_size c e portfolio_value entry_price s date in
      if le size nought then (nought, s') else apply_affordability_cap c s' e size entry_price date
