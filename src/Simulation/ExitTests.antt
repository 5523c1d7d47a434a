-- ===== src/Simulation/ExitTests.antt =====
-- The intrabar exits of a bar that touches both levels, on whole numbers.
use finbar.Common.{◌≡◌, refl, ◌||◌, pos, ℤ}
use finbar.Simulation.Types.{SimulatedPosition, long}
use finbar.Simulation.Exits.{resolve}
use finbar.Simulation.Exits.Range.{
  resolve-iff-touched, resolve-Within, IsBar, Within, exits, stop_touched, target_touched,
}
use finbar.Simulation.Sample.{whole, ℤ-IsOrdered}

abbrev ten_long : SimulatedPosition ℤ
ten_long = record {
  size = pos 10;
  direction = long;
  entry_price = pos 100;
  entry_date = "2024-01-02";
  stop_price = pos 80;
  target_price = pos 130;
  liquidation_price = pos 100;
  bars_held = 1;
  entry_commission = pos 0;
  entry_slippage = pos 0;
}

crash : IsBar (pos 95) (pos 135) (pos 70)
crash = record { low_open = refl; open_high = refl; open_number = refl }

resolve-Within_example : Within (pos 70) (pos 135) (resolve ten_long (pos 95) (pos 135) (pos 70))
resolve-Within_example =
    resolve-Within ℤ-IsOrdered ten_long (pos 95) (pos 135) (pos 70) crash refl refl

resolve-iff-touched_example :
    exits (resolve ten_long (pos 95) (pos 135) (pos 70))
    ≡ (stop_touched ten_long (pos 135) (pos 70) || target_touched ten_long (pos 135) (pos 70))
resolve-iff-touched_example =
    resolve-iff-touched ℤ-IsOrdered ten_long (pos 95) (pos 135) (pos 70) crash refl
