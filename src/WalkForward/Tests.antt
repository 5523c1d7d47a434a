-- ===== src/WalkForward/Tests.antt =====
-- Folds of small frames.
use finbar.Common.{ℕ, ◌≡◌, refl, [], ◌∷◌, map, All, ◌*◌, ◌/◌, arith}
use finbar.WalkForward.{
  at_most, with_extra, folds_from, rolling_fold, extra_fold, anchored_fold, compute_fold_indices,
  anchored, rolling, FoldIndices,
}
use finbar.WalkForward.Folds.{
  Tiles, compute_fold_indices-Tiles, IsFold, compute_fold_indices-IsFold,
}

-- A training ratio of 0.7 on whole numbers.
abbrev seven_tenths : ℕ → ℕ
seven_tenths n = n * 7 / 10

abbrev bounds : FoldIndices → ℕ × ℕ × ℕ
bounds f = (f.train_start, f.test_start, f.test_end)

-- 100 bars in 4 folds. The extra fold ends before the last 9 bars.
rolling_test :
    map bounds (compute_fold_indices 100 4 seven_tenths rolling)
    ≡ (0, 17, 42) ∷ (12, 29, 54) ∷ (24, 41, 66) ∷ (16, 41, 91) ∷ []
unfolding compute_fold_indices with_extra folds_from rolling_fold extra_fold
rolling_test = refl

-- The last anchored fold has no test bar where the count of folds divides the bars.
anchored_test :
    map bounds (compute_fold_indices 100 4 seven_tenths anchored)
    ≡ (0, 25, 50) ∷ (0, 50, 75) ∷ (0, 75, 100) ∷ (0, 100, 100) ∷ []
unfolding compute_fold_indices folds_from anchored_fold
anchored_test = refl

compute_fold_indices-IsFold_example :
    All (IsFold 100) (compute_fold_indices 100 4 seven_tenths rolling)
compute_fold_indices-IsFold_example =
    compute_fold_indices-IsFold 100 4 seven_tenths rolling (omega arith)

compute_fold_indices-Tiles_example : Tiles 25 103 (compute_fold_indices 103 4 seven_tenths anchored)
unfolding at_most
compute_fold_indices-Tiles_example =
    compute_fold_indices-Tiles 103 4 seven_tenths (omega arith) (omega arith)
