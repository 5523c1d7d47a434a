-- ===== src/Simulation/Opener/Stops.antt =====
-- The stop of every position that the executor opens.
use finbar.Common.{String, Bool, true, false, not, ◌&&◌, ◌||◌, ◌≡◌, ◌⊎◌, arith, ok}
use finbar.Simulation.Number.{Number, lt, le, nought}
use finbar.Simulation.Types.{
  Direction, long, short, other, ExecutionConfig, SimulatedPosition, World, PendingEntry,
  add_diagnostic,
}
use finbar.Simulation.Leverage.{is_spot, leverage_of, validate_stop}
use finbar.Simulation.Frame.{resolve_size-SameBook}
use finbar.Simulation.Opener.{stop_misplaced, stop_valid, open_position}
use finbar.Simulation.Executor.{enter, fill_entry}

module _ {F : Type 0} ⦃num : Number F⦄ where
  -- The stop is disabled, or lies on the losing side of the entry and, with leverage, is reached
  -- before the liquidation price.
  abbrev before_liquidation : SimulatedPosition F → Direction → Bool
  before_liquidation p long = lt p.liquidation_price p.stop_price
  before_liquidation p short = lt p.stop_price p.liquidation_price
  before_liquidation p (other d) = false

  abbrev pub protects : ExecutionConfig F → SimulatedPosition F → Bool
  protects c p =
      le p.stop_price nought
      || (not (stop_misplaced p.direction p.stop_price p.entry_price)
          && (is_spot (leverage_of c) || before_liquidation p p.direction))

  open_position-protects :
      (c : ExecutionConfig F) (w : World F) (e : PendingEntry F) (size raw fill : F) (date : String)
      {w' : World F}
      → stop_valid c e fill ≡ ok true
      → open_position c w e size raw fill date ≡ ok w'
      → (w'.state.position ≡ w.state.position) ⊎ (protects c w'.state.position ≡ true)
  unfolding open_position stop_valid validate_stop stop_misplaced
  open_position-protects c w e size raw fill date valid opened = ground arith

  fill_entry-protects :
      (c : ExecutionConfig F) (w : World F) (e : PendingEntry F) (price fill : F) (date : String)
      {w' : World F}
      → stop_valid c e fill ≡ ok true
      → fill_entry c w e price fill date ≡ ok w'
      → (w'.state.position ≡ w.state.position) ⊎ (protects c w'.state.position ≡ true)
  unfolding fill_entry add_diagnostic
  fill_entry-protects c w e price fill date valid filled =
      grind (arith, open_position-protects, resolve_size-SameBook)

  -- An `enter` that raises nothing either leaves the position as it is, or opens one whose stop is disabled or
  -- sound: on the losing side of the fill and, with leverage, met before the liquidation price.
  pub enter-protects :
      (c : ExecutionConfig F) (w : World F) (e : PendingEntry F) (price : F) (date : String)
      {w' : World F}
      → enter c w e price date ≡ ok w'
      → (w'.state.position ≡ w.state.position) ⊎ (protects c w'.state.position ≡ true)
  unfolding enter
  enter-protects c w e price date entered = grind (arith, fill_entry-protects)
