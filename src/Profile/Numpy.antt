-- ===== src/Profile/Numpy.antt =====
-- What volume_profile.py takes from `math`, numpy and pandas beside the arithmetic of floats. Arrays
-- and the columns of a frame are lists.
use finbar.Common.{ℕ, zero, suc, List, [], ◌∷◌}
use finbar.Simulation.Number.{Number, ◌+◌, nought}

pub record Numpy (F : Type 0) : Type 0 where
  pub log : F → F
  pub sqrt : F → F
  pub exp : F → F
  pub pi : F
  pub nan : F
  -- `billionths n` is the literal n * 1e-9.
  pub billionths : ℕ → F
  -- `np.linspace(start, stop, num)`, `np.argmax`, `np.argmin` and `ndarray.sum`.
  pub linspace : F → F → ℕ → List F
  pub argmax : List F → ℕ
  pub argmin : List F → ℕ
  pub array_sum : List F → F
  -- `Series.max` and `Series.min`.
  pub series_max : List F → F
  pub series_min : List F → F

module _ {F : Type 0} ⦃num : Number F⦄ where
  -- `np.zeros(n)`
  unfoldable pub zeros : ℕ → List F
  zeros zero = []
  zeros (suc n) = nought ∷ zeros n

  -- `xs += ys`, on arrays of one length.
  unfoldable pub add_arrays : List F → List F → List F
  add_arrays [] ys = []
  add_arrays (x ∷ xs) [] = x ∷ xs
  add_arrays (x ∷ xs) (y ∷ ys) = (x + y) ∷ add_arrays xs ys

  -- `xs[i]`, at an index in range.
  unfoldable pub item : List F → ℕ → F
  item [] i = nought
  item (x ∷ xs) zero = x
  item (x ∷ xs) (suc i) = item xs i

  -- `xs[i] = x`, at an index in range.
  unfoldable pub set_item : List F → ℕ → F → List F
  set_item [] i y = []
  set_item (x ∷ xs) zero y = y ∷ xs
  set_item (x ∷ xs) (suc i) y = x ∷ set_item xs i y
