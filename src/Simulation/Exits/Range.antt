-- ===== src/Simulation/Exits/Range.antt =====
-- The intrabar resolver against what a bar's range says.
use finbar.Common.{Bool, true, false, ◌&&◌, ◌||◌, Option, none, some, ◌≡◌, arith, if◌then◌else◌}
use finbar.Simulation.Number.{Number, lt, le, nought, IsNumber, IsOrdered}
use finbar.Simulation.Types.{SimulatedPosition, ExitReason, stop_loss_gap, stop_loss}
use finbar.Simulation.Exits.{resolve}

-- The reason is one of the two of the stop.
abbrev is_stop : ExitReason → Bool
is_stop stop_loss_gap = true
is_stop stop_loss = true
is_stop _ = false

module _ {F : Type 0} ⦃num : Number F⦄ where
  -- The exit, if there is one, is filled inside the bar.
  abbrev pub Within : F → F → Option (F × ExitReason) → Type 0
  Within low high none = Unit
  Within low high (some (price, reason)) = (le low price ≡ true) × (le price high ≡ true)

  abbrev pub exits : Option (F × ExitReason) → Bool
  exits none = false
  exits (some fill) = true

  abbrev stops : Option (F × ExitReason) → Bool
  stops none = false
  stops (some (price, reason)) = is_stop reason

  -- A bar whose prices are numbers, in order.
  pub record IsBar (open_price high low : F) : Type 0 where
    pub low_open : le low open_price ≡ true
    pub open_high : le open_price high ≡ true
    pub open_number : IsNumber open_price

  -- Some enabled level of a long or a short position lies in the bar's range, on its far side.
  abbrev pub stop_touched : SimulatedPosition F → F → F → Bool
  stop_touched p high low =
      lt nought p.stop_price
      && (if lt nought p.size then le low p.stop_price else le p.stop_price high)

  abbrev pub target_touched : SimulatedPosition F → F → F → Bool
  target_touched p high low =
      lt nought p.target_price
      && (if lt nought p.size then le p.target_price high else le low p.target_price)

  -- The open is already at or past the target.
  abbrev opens_past_target : SimulatedPosition F → F → Bool
  opens_past_target p open_price =
      lt nought p.target_price
      && (if lt nought p.size then le p.target_price open_price else le open_price p.target_price)

  module _ (laws : IsOrdered F) where
    open laws use {le_trans, le_total}

    -- On a bar whose open lies between its low and its high, and with levels that are not NaN, an exit
    -- that `resolve` finds is filled at a price inside the bar. (Floats are ordered by <=.)
    pub resolve-Within :
        (p : SimulatedPosition F) (o h l : F)
        → IsBar o h l
        → IsNumber p.stop_price
        → IsNumber p.target_price
        → Within l h (resolve p o h l)
    unfolding resolve
    resolve-Within p o h l b ns nt = ground (
      arith,
      le_total o p.stop_price b.open_number ns,
      le_total o p.target_price b.open_number nt,
      le_trans p.stop_price o h,
      le_trans l o p.stop_price,
      le_trans p.target_price o h,
      le_trans l o p.target_price,
      le_trans l o h,
    )

    -- On a bar whose open lies between its low and its high, an open position exits exactly when the
    -- bar touches its stop or its target, a level that is not above 0 being off. (Floats are ordered
    -- by <=.)
    pub resolve-iff-touched :
        (p : SimulatedPosition F) (o h l : F)
        → IsBar o h l
        → (lt nought p.size || lt p.size nought) ≡ true
        → exits (resolve p o h l) ≡ (stop_touched p h l || target_touched p h l)
    unfolding resolve
    resolve-iff-touched p o h l b open_position = ground (
      arith,
      le_trans l o p.stop_price,
      le_trans p.target_price o h,
      le_trans p.stop_price o h,
      le_trans l o p.target_price,
    )

    -- On a bar whose open lies between its low and its high, an open position whose stop is touched
    -- exits by its stop, even where the bar touches the target too, unless the bar opens at or past
    -- the target. (Floats are ordered by <=.)
    touched_stop-wins :
        (p : SimulatedPosition F) (o h l : F)
        → IsBar o h l
        → (lt nought p.size || lt p.size nought) ≡ true
        → stop_touched p h l ≡ true
        → opens_past_target p o ≡ false
        → stops (resolve p o h l) ≡ true
    unfolding resolve
    touched_stop-wins p o h l b open_position touched ahead = ground arith
