-- ===== src/Profile/Area.antt =====
-- expand_value_area (finbar_strategy_runtime/domain/services/_profile_utils.py).
pub mod Bounds
use finbar.Common.{ℕ, zero, suc, Bool, true, false, ◌&&◌, ◌||◌, List, ltb, length, if◌then◌else◌}
use mathlib.Core.Option.{Option, none, some, bind}
use finbar.Simulation.Number.{Number, ◌+◌, ◌*◌, lt, max, nought, unity, neg}
use finbar.Profile.Numpy.{Numpy, item}

-- The inclusive bounds of a value area, and what it has accumulated.
pub record ValueArea (F : Type 0) : Type 0 where
  pub lower_idx : ℕ
  pub upper_idx : ℕ
  pub accumulated : F

module _ {F : Type 0} ⦃num : Number F⦄ where
  -- Where `lower_idx` is 0 already, Python would go on from the index -1, the last bucket: `none`.
  unfoldable pub down : List F → ValueArea F → ℕ → Option (ValueArea F)
  down profile a zero = none
  down profile a (suc below) =
      some (record a { lower_idx = below; accumulated = a.accumulated + item profile below })

  unfoldable pub up : List F → ValueArea F → ValueArea F
  up profile a = record a {
    upper_idx = suc a.upper_idx;
    accumulated = a.accumulated + item profile (suc a.upper_idx);
  }

  unfoldable pub val_below : List F → ℕ → F
  val_below profile zero = neg unity
  val_below profile (suc below) = item profile below

  -- `upper_idx < num_buckets - 1`
  abbrev pub has_above : List F → ValueArea F → Bool
  has_above profile a = ltb (suc a.upper_idx) (length profile)

  unfoldable pub val_above : List F → ValueArea F → F
  val_above profile a = if has_above profile a then item profile (suc a.upper_idx) else neg unity

  -- The condition of the loop.
  unfoldable pub goes_on : F → List F → ValueArea F → Bool
  goes_on target profile a = lt a.accumulated target && (ltb 0 a.lower_idx || has_above profile a)

  -- One round of the loop. The `break`, where nothing is left on either side, is not reached, as the
  -- condition of the loop shows.
  unfoldable pub widen : F → List F → ValueArea F → Option (ValueArea F)
  unfolding down up val_below val_above
  widen tol profile a =
      if lt (val_above profile a + tol) (val_below profile a.lower_idx)
      then down profile a a.lower_idx
      else if has_above profile a
      then some (up profile a)
      else if ltb 0 a.lower_idx
      then down profile a a.lower_idx
      else some a

  -- The loop, for a number of rounds.
  unfoldable pub expand : ℕ → F → F → List F → ValueArea F → Option (ValueArea F)
  expand zero target tol profile a = some a
  expand (suc rounds) target tol profile a =
      let wider = bind (widen tol profile a) (expand rounds target tol profile) in
      if goes_on target profile a then wider else some a

module _ {F : Type 0} ⦃num : Number F⦄ ⦃np : Numpy F⦄ where
  -- There are fewer rounds than buckets.
  unfoldable pub expand_value_area : List F → ℕ → F → F → Option (ValueArea F)
  unfolding expand goes_on widen
  expand_value_area profile poc_idx total target_fraction =
      expand (length profile) (total * target_fraction) (max total nought * np.billionths 1) profile
        (record { lower_idx = poc_idx; upper_idx = poc_idx; accumulated = item profile poc_idx })
