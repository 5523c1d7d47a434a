-- ===== src/WalkForward.antt =====
-- The fold indices of a walk-forward run
-- (compute_fold_indices of finbar/infrastructure/services/walk_forward_fold_helpers.py). Counts of
-- bars are ℕ, where `-` stops at 0 as the source's `max(0, ...)` does. `int(fold_size *
-- train_ratio)`, a product of floats rounded down, is the argument `train_size`.
pub mod Folds
mod Tests
use finbar.Common.{
  ℕ, zero, suc, ◌+◌, ◌-◌, ◌*◌, ◌/◌, Bool, List, [], ◌∷◌, ◌++◌, Option, none, some, ltb, ◌||◌,
  if◌then◌else◌, get_last?,
}

-- `min(m, n)`
unfoldable pub at_most : ℕ → ℕ → ℕ
at_most m n = if ltb n m then n else m

pub data Anchor : Type 0 where
  anchored : Anchor
  rolling : Anchor

pub record FoldIndices : Type 0 where
  pub train_start : ℕ
  pub train_end : ℕ
  pub test_start : ℕ
  pub test_end : ℕ
  pub train_count : ℕ
  pub test_count : ℕ
  pub min_test : ℕ

unfoldable pub anchored_fold : ℕ → ℕ → ℕ → FoldIndices
unfolding at_most
anchored_fold total_bars fold_size i =
    let train_end : ℕ = suc i * fold_size in
    let test_end : ℕ = at_most (train_end + fold_size) total_bars in
    record {
      train_start = 0;
      train_end = train_end;
      test_start = train_end;
      test_end = test_end;
      train_count = train_end;
      test_count = test_end - train_end;
      min_test = 1;
    }

unfoldable pub rolling_fold : ℕ → ℕ → ℕ → ℕ → FoldIndices
unfolding at_most
rolling_fold total_bars fold_size train_size i =
    let train_start : ℕ = i * (fold_size / 2) in
    let test_start : ℕ = train_start + train_size in
    let test_end : ℕ = at_most (test_start + fold_size) total_bars in
    record {
      train_start = train_start;
      train_end = test_start;
      test_start = test_start;
      test_end = test_end;
      train_count = test_start - train_start;
      test_count = test_end - test_start;
      min_test = 1;
    }

-- The loop `for i in range(...)`: `count` folds from the `i`-th on.
unfoldable pub folds_from : (ℕ → FoldIndices) → ℕ → ℕ → List FoldIndices
folds_from fold i zero = []
folds_from fold i (suc count) = fold i ∷ folds_from fold (suc i) count

-- The fold that follows the last rolling one if bars are left.
unfoldable pub extra_fold : ℕ → ℕ → FoldIndices → FoldIndices
unfolding at_most
extra_fold total_bars fold_size last =
    let test_end : ℕ = at_most total_bars (last.test_end + fold_size) in
    let train_start : ℕ = last.test_start - fold_size in
    record {
      train_start = train_start;
      train_end = last.test_start;
      test_start = last.test_start;
      test_end = test_end;
      train_count = last.test_start - train_start;
      test_count = test_end - last.test_start;
      min_test = 1;
    }

unfoldable pub with_extra : ℕ → ℕ → Option FoldIndices → List FoldIndices → List FoldIndices
with_extra total_bars fold_size none indices = indices
with_extra total_bars fold_size (some last) indices =
    if ltb last.test_end total_bars
    then indices ++ extra_fold total_bars fold_size last ∷ []
    else indices

-- The folds of each kind, for a positive count of folds.
unfoldable pub indices_of : Anchor → ℕ → ℕ → ℕ → ℕ → List FoldIndices
indices_of anchored total_bars folds fold_size train_size =
    folds_from (anchored_fold total_bars fold_size) 0 folds
indices_of rolling total_bars folds fold_size train_size =
    let indices = folds_from (rolling_fold total_bars fold_size train_size) 0 (folds - 1) in
    with_extra total_bars fold_size (get_last? indices) indices

unfoldable pub compute_fold_indices : ℕ → ℕ → (ℕ → ℕ) → Anchor → List FoldIndices
unfolding indices_of
compute_fold_indices total_bars folds train_size anchor =
    if ltb total_bars 3 || ltb folds 2
    then []
    else (let fold_size : ℕ = total_bars / folds in
        indices_of anchor total_bars folds fold_size (train_size fold_size))
