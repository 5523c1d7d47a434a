-- ===== src/Simulation/Sizer/Cap.antt =====
-- The affordability cap of the sizer.
use finbar.Common.{Bool, not, ◌&&◌}
use finbar.Simulation.Number.{Number}
use finbar.Simulation.Types.{ExecutionConfig, PendingEntry}

module _ {F : Type 0} ⦃num : Number F⦄ where
  -- An explicit order that the configuration lets through whole.
  abbrev uncapped : ExecutionConfig F → PendingEntry F → Bool
  uncapped c e =
      e.explicit_size && (not c.reject_oversized_explicit_orders && not c.cap_explicit_size)
