-- ===== src/Simulation/MarginCall.antt =====
-- The margin call of position_executor.py after the intrabar checks of the same bar.
use finbar.Common.{String, ◌≡◌, true, false, arith}
use finbar.Simulation.Number.{Number, IsOrdered, nought, eq, le}
use finbar.Simulation.Types.{ExecutionConfig, World, flat}
use finbar.Simulation.Holding.{Clock}
use finbar.Simulation.Leverage.{is_spot, leverage_of}
use finbar.Simulation.Margin.{check_margin_call}
use finbar.Simulation.Closer.{check_liquidation}
use finbar.Simulation.Executor.{check_exit_conditions, check_margin, hold_one_bar}
use finbar.Simulation.Frame.{close-Closed}

module _ {F : Type 0} ⦃num : Number F⦄ where
  flat-no_call :
      (c : ExecutionConfig F) (price : F)
      → eq {F = F} nought nought ≡ true
      → check_margin_call c flat price ≡ false
  unfolding check_margin_call flat
  flat-no_call c price z = ground arith

module _ {F : Type 0} ⦃num : Number F⦄ ⦃clock : Clock F⦄ (laws : IsOrdered F) where
  open laws use {le_trans}

  -- A bar that does not liquidate a position does not call its margin at the close either.
  spared-no_call :
      (c : ExecutionConfig F) (w : World F) (h l price : F) (date : String)
      → le l price ≡ true
      → le price h ≡ true
      → (check_liquidation c w h l date).1 ≡ false
      → check_margin_call c w.state.position price ≡ false
  unfolding check_liquidation check_margin_call is_spot leverage_of
  spared-no_call c w h l price date low high spared =
      let p = w.state.position in
      ground (arith, le_trans l price p.liquidation_price, le_trans p.liquidation_price price h)

  no_call :
      (c : ExecutionConfig F) (w : World F) (o h l price : F) (date : String)
      → eq {F = F} nought nought ≡ true
      → le l price ≡ true
      → le price h ≡ true
      → check_margin_call c (check_exit_conditions c w o h l date).state.position price ≡ false
  unfolding check_exit_conditions check_liquidation
  no_call c w o h l price date z low high = grind (
    arith,
    flat-no_call c price z,
    close-Closed,
    spared-no_call c (hold_one_bar w) h l price date low high,
  )

  -- On a bar whose close lies between its low and its high, the margin check after the intrabar
  -- checks does nothing: a position that the close would call has been liquidated within the bar.
  -- (Floats are ordered by <=, and 0.0 == 0.0.)
  pub check_margin-redundant :
      (c : ExecutionConfig F) (w : World F) (o h l price : F) (date : String)
      → eq {F = F} nought nought ≡ true
      → le l price ≡ true
      → le price h ≡ true
      → let held = check_exit_conditions c w o h l date in check_margin c held price ≡ held
  unfolding check_margin
  check_margin-redundant c w o h l price date z low high =
      ground (arith, no_call c w o h l price date z low high)
