-- ===== src/Simulation/Exits.antt =====
-- IntrabarExitResolver (simulation/intrabar_exit_resolver.py): which exit a bar triggers.
pub mod Range
use finbar.Common.{Bool, ◌&&◌, Option, none, some, if◌then◌else◌}
use finbar.Simulation.Number.{Number, lt, le, nought}
use finbar.Simulation.Types.{
  SimulatedPosition, ExitReason, stop_loss_gap, take_profit_gap, stop_loss, take_profit,
}

module _ {F : Type 0} ⦃num : Number F⦄ where
  unfoldable pub resolve_long : F → F → F → F → F → Option (F × ExitReason)
  resolve_long open_price high low stop target =
      if lt nought stop && le open_price stop
      then some (open_price, stop_loss_gap)
      else if lt nought target && le target open_price
      then some (open_price, take_profit_gap)
      else if lt nought stop && le low stop
      then some (stop, stop_loss)
      else if lt nought target && le target high
      then some (target, take_profit)
      else none

  unfoldable pub resolve_short : F → F → F → F → F → Option (F × ExitReason)
  resolve_short open_price high low stop target =
      if lt nought stop && le stop open_price
      then some (open_price, stop_loss_gap)
      else if lt nought target && le open_price target
      then some (open_price, take_profit_gap)
      else if lt nought stop && le stop high
      then some (stop, stop_loss)
      else if lt nought target && le low target
      then some (target, take_profit)
      else none

  unfoldable pub resolve : SimulatedPosition F → F → F → F → Option (F × ExitReason)
  unfolding resolve_long resolve_short
  resolve position open_price high low =
      if lt nought position.size
      then resolve_long open_price high low position.stop_price position.target_price
      else if lt position.size nought
      then resolve_short open_price high low position.stop_price position.target_price
      else none
