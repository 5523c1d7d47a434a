-- ===== src/Simulation/MetricTests.antt =====
-- The metrics of backtest_metrics.py, on fixed-point numbers.
use finbar.Common.{neg_ℤ, ℤ, pos, refl, ◌≡◌, true, ◌⊎◌, inl, inr, List, [], ◌∷◌, arith}
use finbar.Simulation.Number.{IsOrdered, le, nought}
use finbar.Profile.Sample.{fixed_point, IsSamplePrice}
use finbar.Simulation.Metrics.{drawdown, calculate_max_drawdown, calculate_daily_returns}
use finbar.Simulation.Metrics.Drawdown.{
  IsScale, AllPairs, SomePair, calculate_max_drawdown-greatest,
}

sample-IsOrdered : IsOrdered ℤ ⦃num = fixed_point⦄
sample-IsOrdered = record {
  le_trans = λ x y z p q. ground arith;
  lt-eq-not-le = λ x y p q. refl;
  le_total = λ x y p q. ground arith;
}

sample_number : (x : ℤ) → IsSamplePrice x → le ⦃num = fixed_point⦄ x x ≡ true
sample_number x p = ground arith

sample_drawdown_number :
    (x z : ℤ)
    → IsSamplePrice x
    → IsSamplePrice z
    → le ⦃num = fixed_point⦄ (drawdown ⦃num = fixed_point⦄ x z) (drawdown ⦃num = fixed_point⦄ x z)
      ≡ true
unfolding drawdown
sample_drawdown_number x z (inl p) (inl q) = rw (p, q) refl
sample_drawdown_number x z (inl p) (inr q) = rw (p, q) refl
sample_drawdown_number x z (inr p) (inl q) = rw (p, q) refl
sample_drawdown_number x z (inr p) (inr q) = rw (p, q) refl

sample_drawdown_mono :
    (x y z : ℤ)
    → IsSamplePrice x
    → IsSamplePrice y
    → IsSamplePrice z
    → le ⦃num = fixed_point⦄ x y ≡ true
    → le ⦃num = fixed_point⦄ (drawdown ⦃num = fixed_point⦄ x z) (drawdown ⦃num = fixed_point⦄ y z)
      ≡ true
unfolding drawdown
sample_drawdown_mono x y z (inl p) (inl q) (inl r) up = rw (p, q, r) refl
sample_drawdown_mono x y z (inl p) (inl q) (inr r) up = rw (p, q, r) refl
sample_drawdown_mono x y z (inl p) (inr q) (inl r) up = rw (p, q, r) refl
sample_drawdown_mono x y z (inl p) (inr q) (inr r) up = rw (p, q, r) refl
sample_drawdown_mono x y z (inr p) (inl q) r up = ground arith
sample_drawdown_mono x y z (inr p) (inr q) (inl r) up = rw (p, q, r) refl
sample_drawdown_mono x y z (inr p) (inr q) (inr r) up = rw (p, q, r) refl

sample-IsScale : IsScale ℤ ⦃num = fixed_point⦄ IsSamplePrice
sample-IsScale = record {
  ordered = sample-IsOrdered;
  equity_number = sample_number;
  drawdown_number = sample_drawdown_number;
  nought_number = refl;
  drawdown_mono = sample_drawdown_mono;
}

abbrev curve : List ℤ
curve = pos 10000 ∷ pos 30000 ∷ pos 10000 ∷ pos 30000 ∷ []

-- From 30 to 10: two thirds.
two_thirds : calculate_max_drawdown ⦃num = fixed_point⦄ curve ≡ pos 666
unfolding calculate_max_drawdown
two_thirds = refl

-- Equity below 0: the drawdown is above 1.
more_than_all :
    calculate_max_drawdown ⦃num = fixed_point⦄ (pos 10000 ∷ neg_ℤ (pos 10000) ∷ []) ≡ pos 2000
unfolding calculate_max_drawdown
more_than_all = refl

returns :
    calculate_daily_returns ⦃num = fixed_point⦄ curve ≡ pos 2000 ∷ neg_ℤ (pos 666) ∷ pos 2000 ∷ []
unfolding calculate_daily_returns
returns = refl

calculate_max_drawdown-greatest_example :
    AllPairs
      (λ x z.
        le ⦃num = fixed_point⦄
          (drawdown ⦃num = fixed_point⦄ x z)
          (calculate_max_drawdown ⦃num = fixed_point⦄ curve)
        ≡ true)
      curve
    × ((calculate_max_drawdown ⦃num = fixed_point⦄ curve ≡ nought ⦃num = fixed_point⦄)
        ⊎ SomePair
            (λ x z.
              calculate_max_drawdown ⦃num = fixed_point⦄ curve ≡ drawdown ⦃num = fixed_point⦄ x z)
            curve)
calculate_max_drawdown-greatest_example =
    calculate_max_drawdown-greatest sample-IsScale (pos 10000) (pos 30000)
      (pos 10000 ∷ pos 30000 ∷ []) (inl refl, (inr refl, (inl refl, (inr refl, tt))))
