-- ===== src/Simulation/Opener.antt =====
-- PositionOpener (simulation/position_opener.py): entry validation and position creation.
pub mod Stops
use finbar.Common.{String, Bool, true, false, Option, ok, ◌>>=◌, if◌then◌else◌}
use mathlib.Core.Option
use finbar.Simulation.Number.{Number, ◌+◌, ◌-◌, ◌*◌, neg, abs, le, nought}
use finbar.Simulation.Types.{
  Direction, long, short, other, ExecutionConfig, SimulatedPosition, SimulationState, PendingEntry,
  MarginAccount, World, Fallible, flat,
}
use finbar.Simulation.Leverage.{leverage_of, liquidation_price, margin_required, validate_stop}
use finbar.Simulation.Costs.{commission}
use finbar.Simulation.Margin.{lock_entry_margin, credit_entry_short}

module _ {F : Type 0} ⦃num : Number F⦄ where
  -- The stop is on the wrong side of the price.
  unfoldable pub stop_misplaced : Direction → F → F → Bool
  stop_misplaced long stop_price price = le price stop_price
  stop_misplaced short stop_price price = le stop_price price
  stop_misplaced (other d) stop_price price = false

  unfoldable pub stop_valid : ExecutionConfig F → PendingEntry F → F → Fallible Bool
  unfolding stop_misplaced
  stop_valid c e price =
      if le e.stop_price nought
      then ok true
      else if stop_misplaced e.direction e.stop_price price
      then ok false
      else validate_stop (leverage_of c) e.stop_price price e.direction

  -- The fields that `open` sets after the two directions meet. The liquidation price and the margin
  -- requirement may raise.
  unfoldable pub place :
      ExecutionConfig F
      → PendingEntry F
      → F
      → F
      → F
      → F
      → String
      → SimulatedPosition F
      → World F
      → Fallible (World F)
  place c e cost fee slippage fill_price date p w = do
    liq ← liquidation_price (leverage_of c) fill_price e.direction
    margin ← margin_required (leverage_of c) cost
    let s = w.state
    ok (record w {
      state = record s {
        used_margin = s.used_margin + margin;
        position = record p {
          entry_price = fill_price;
          entry_date = date;
          stop_price = e.stop_price;
          target_price = e.target_price;
          entry_commission = fee;
          entry_slippage = slippage;
          liquidation_price = liq;
        };
      };
    })

  open_in :
      Direction
      → ExecutionConfig F
      → PendingEntry F
      → F
      → F
      → F
      → F
      → F
      → String
      → SimulationState F
      → Option (MarginAccount F)
      → Fallible (World F)
  open_in long c e size cost fee slippage fill_price date s a =
      let s' : SimulationState F = record s { cash = s.cash - (cost + fee) } in
      place c e cost fee slippage fill_price date (record flat { size = size; direction = long })
        (record { state = s'; margin = Option.map (lock_entry_margin c s' cost fee) a })
  open_in short c e size cost fee slippage fill_price date s a =
      let s' : SimulationState F = record s { cash = s.cash + (cost - fee) } in
      place c e cost fee slippage fill_price date
        (record flat { size = neg size; direction = short })
        (record { state = s'; margin = Option.map (credit_entry_short s' cost fee) a })
  open_in (other d) c e size cost fee slippage fill_price date s a =
      ok (record { state = s; margin = a })

  unfoldable pub open_position :
      ExecutionConfig F → World F → PendingEntry F → F → F → F → String → Fallible (World F)
  unfolding open_in place
  open_position c w e size raw_price fill_price date =
      let cost : F = size * fill_price in
      let fee : F = commission cost c.commission_pct in
      let slippage : F = abs (fill_price - raw_price) * size in
      let s = w.state in
      let charged : SimulationState F = record s {
        total_commission = s.total_commission + fee;
        total_slippage = s.total_slippage + slippage;
      } in
      open_in e.direction c e size cost fee slippage fill_price date charged w.margin
