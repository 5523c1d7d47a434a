-- ===== src/Simulation/Costs.antt =====
-- The cost helpers at the end of simulation/position_closer.py.
use finbar.Common.{Option, none, some, if◌then◌else◌}
use finbar.Simulation.Number.{Number, ◌+◌, ◌*◌, neg, abs, le, nought, unity}
use finbar.Simulation.Types.{Direction, long, short, other, Side, entry, exit}

module _ {F : Type 0} ⦃num : Number F⦄ where
  -- `_SLIPPAGE_SIGN.get((direction, side), 0)`; `none` is the default 0.
  unfoldable pub slippage_sign : Direction → Side → Option F
  slippage_sign long entry = some unity
  slippage_sign long exit = some (neg unity)
  slippage_sign short entry = some (neg unity)
  slippage_sign short exit = some unity
  slippage_sign (other d) _ = none

  slipped : F → F → Option F → F
  slipped price slippage_pct none = price
  slipped price slippage_pct (some sign) = price * (unity + sign * slippage_pct)

  unfoldable pub apply_slippage : F → Direction → Side → F → F
  unfolding slipped
  apply_slippage price direction side slippage_pct =
      if le slippage_pct nought
      then price
      else slipped price slippage_pct (slippage_sign direction side)

  unfoldable pub commission : F → F → F
  commission gross commission_pct =
      if le commission_pct nought then nought else abs gross * commission_pct
