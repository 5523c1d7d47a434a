-- ===== src/Simulation/ReportTests.antt =====
-- The report on a run, on whole numbers.
use finbar.Common.{◌≡◌, refl, true, false, List, [], ◌∷◌, All, map, arith, ℤ, pos, ◌+ℤ◌, ◌-ℤ◌, ok}
use finbar.Simulation.Types.{ExecutionConfig, TradeRecord, World, full, simplified}
use finbar.Simulation.Closer.{to_dict}
use finbar.Simulation.Metrics.{Roots}
use finbar.Simulation.Ledger.{IsNet, with_profits}
use finbar.Simulation.Ledger.Run.{run_loop-reconciles}
use finbar.Simulation.Report.{Finite, compute_reconciliation, equity_values, last_or}
use finbar.Simulation.Report.Reconciliation.{IsSummable, compute_reconciliation-balances}
use finbar.Simulation.Runner.{run_loop}
use finbar.Simulation.ModeParity.{in_mode, strip_ok}
use finbar.Simulation.ModeParity.Run.{run_loop-modes}
use finbar.Simulation.Sample.{ℤ-IsOrdered, config, whole, no_clock}
use finbar.Simulation.Tests.{scripted, bars, script}
use finbar.Simulation.WholeRing.{whole-IsExact}

abbrev sum_ℤ : List ℤ → ℤ
sum_ℤ [] = pos 0
sum_ℤ (x ∷ xs) = x +ℤ sum_ℤ xs

instance abbrev whole_roots : Roots ℤ
whole_roots = record {
  sum = sum_ℤ;
  sqrt = λ x. x;
  power = λ x y. x;
  infinity = pos 9999;
  tiny = pos 0;
}

instance abbrev whole_finite : Finite ℤ
whole_finite = record { isfinite = λ x. true }

whole-IsSummable : IsSummable ℤ
whole-IsSummable = record {
  exact = whole-IsExact;
  all_finite = λ x. refl;
  sum_nil = refl;
  sum_cons = λ x xs. refl;
  add-nought = λ x. ground arith;
  sub-self = λ x. ground arith;
}

-- A commission of the whole turnover, and funding of the whole position at every bar.
abbrev costly : ExecutionConfig ℤ
costly = record config { commission_pct = pos 1; funding_rate = pos 1 }

run_loop-reconciles_example :
    (w : World ℤ) × (run_loop scripted costly (pos 1000) (pos 1) 1 bars script ≡ ok w)
    × (trades : List (TradeRecord ℤ)) × (w.state.trades ≡ map to_dict trades)
    × All IsNet trades
    × (w.state.cash ≡ with_profits (pos 1000) trades -ℤ w.state.total_funding)
run_loop-reconciles_example =
    run_loop-reconciles whole-IsExact scripted costly (pos 1000) (pos 1) 1 bars script refl

compute_reconciliation-balances_example :
    (w : World ℤ) × (run_loop scripted costly (pos 1000) (pos 1) 1 bars script ≡ ok w)
    × (trades : List (TradeRecord ℤ)) × (w.state.trades ≡ map to_dict trades)
    × All IsNet trades
    × (last_or (pos 1000) (equity_values w.state.equity_curve)
        ≡ (pos 1000 +ℤ sum_ℤ (map (λ t. t.net_pnl) trades)) -ℤ w.state.total_funding)
    × ((compute_reconciliation w.state (pos 1000)).reconciliation_error
        ≡ whole.round
            (sum_ℤ (map (λ t. t.net_pnl) trades)
              -ℤ sum_ℤ (map (λ t. whole.round t.net_pnl 2) trades))
            2)
compute_reconciliation-balances_example =
    compute_reconciliation-balances whole-IsSummable scripted costly (pos 1000) (pos 1) 1 bars
      script refl

-- A commission of the whole turnover on twice the equity, without funding.
abbrev leveraged : ExecutionConfig ℤ
leveraged = record config {
  commission_pct = pos 1;
  leverage_multiplier = pos 2;
  enable_funding = false;
}

run_loop-modes_example :
    run_loop scripted (in_mode simplified leveraged) (pos 1000) (pos 1) 1 bars script
    ≡ strip_ok (run_loop scripted (in_mode full leveraged) (pos 1000) (pos 1) 1 bars script)
run_loop-modes_example =
    run_loop-modes scripted leveraged (pos 1000) (pos 1) 1 bars script ℤ-IsOrdered refl refl
      ((refl, refl), ((refl, refl), ((refl, refl), ((refl, refl), tt))))
