-- ===== src/Simulation/Leverage.antt =====
-- LeverageConfig (simulation/leverage_config.py).
use finbar.Common.{Bool, true, false, ok, err, ◌>>=◌, if◌then◌else◌}
use finbar.Simulation.Number.{Number, ◌+◌, ◌-◌, ◌*◌, ◌/◌, lt, le, nought, unity}
use finbar.Simulation.Types.{
  Direction, long, short, other, ExecutionConfig, unknown_direction, bad_multiplier, Fallible,
}

pub record LeverageConfig (F : Type 0) : Type 0 where
  pub multiplier : F
  pub maintenance_margin_pct : F

module _ {F : Type 0} ⦃num : Number F⦄ where
  -- The leverage settings that the opener, the sizer and the closer take from the configuration.
  unfoldable pub leverage_of : ExecutionConfig F → LeverageConfig F
  leverage_of c = record {
    multiplier = c.leverage_multiplier;
    maintenance_margin_pct = c.maintenance_margin_pct;
  }

  unfoldable pub is_spot : LeverageConfig F → Bool
  is_spot l = le l.multiplier unity

  liquidation_from : LeverageConfig F → F → Direction → Fallible F
  liquidation_from l entry_price long =
      ok (entry_price * (unity - unity / l.multiplier + l.maintenance_margin_pct))
  liquidation_from l entry_price short =
      ok (entry_price * (unity + unity / l.multiplier - l.maintenance_margin_pct))
  liquidation_from l entry_price (other d) = err (unknown_direction d)

  unfoldable pub liquidation_price : LeverageConfig F → F → Direction → Fallible F
  unfolding liquidation_from
  liquidation_price l entry_price d =
      if le l.multiplier unity then ok entry_price else liquidation_from l entry_price d

  unfoldable max_affordable : LeverageConfig F → F → F → F
  max_affordable l cash price = if le price nought then nought else (cash * l.multiplier) / price

  unfoldable pub margin_required : LeverageConfig F → F → Fallible F
  margin_required l position_value =
      if le l.multiplier nought then err bad_multiplier else ok (position_value / l.multiplier)

  inside_liquidation : F → F → Direction → Bool
  inside_liquidation stop_price liq long = lt liq stop_price
  inside_liquidation stop_price liq short = lt stop_price liq
  inside_liquidation stop_price liq (other d) = false

  -- `liquidation_price` has raised on any other direction before the last test is reached.
  unfoldable pub validate_stop : LeverageConfig F → F → F → Direction → Fallible Bool
  unfolding inside_liquidation liquidation_price
  validate_stop l stop_price entry_price d =
      if is_spot l
      then ok true
      else do liq ← liquidation_price l entry_price d; ok (inside_liquidation stop_price liq d)
