-- ===== src/WalkForward/Folds.antt =====
-- The folds of compute_fold_indices as slices of the frame.
use native.Mathlib.Nat.{mul-le-mul_right, div-mul-le_self, mul-le-mul}
use finbar.Common.{
  ℕ, zero, suc, ◌+◌, ◌-◌, ◌*◌, ◌/◌, ◌≤◌, ◌<◌, ◌≡◌, List, [], ◌∷◌, Option, none, some, All,
  All-append, arith, Bool-cases, inl, inr, ltb, false, get_last?, ◌||◌, refl, ap, sym,
}
use mathlib.Core.Path.{subst}
use finbar.WalkForward.{
  FoldIndices, Anchor, anchored, rolling, anchored_fold, rolling_fold, folds_from, extra_fold,
  with_extra, indices_of, compute_fold_indices, at_most,
}

-- The training slice ends where the test slice begins, and both lie in the frame. The counts are the
-- lengths of the slices.
pub record IsFold (total_bars : ℕ) (f : FoldIndices) : Type 0 where
  pub train_ordered : f.train_start ≤ f.train_end
  pub adjacent : f.test_start ≡ f.train_end
  pub test_ordered : f.test_start ≤ f.test_end
  pub in_frame : f.test_end ≤ total_bars
  pub train_counted : f.train_start + f.train_count ≡ f.train_end
  pub test_counted : f.test_start + f.test_count ≡ f.test_end

anchored_fold-IsFold : (total q i : ℕ) → suc i * q ≤ total → IsFold total (anchored_fold total q i)
unfolding anchored_fold at_most
anchored_fold-IsFold total q i h = ground arith

rolling_fold-IsFold :
    (total q t i : ℕ) → i * (q / 2) + t ≤ total → IsFold total (rolling_fold total q t i)
unfolding rolling_fold at_most
rolling_fold-IsFold total q t i h = ground arith

extra_fold-IsFold :
    (total q : ℕ) (f : FoldIndices) → IsFold total f → IsFold total (extra_fold total q f)
unfolding extra_fold at_most
extra_fold-IsFold total q f h = ground arith

-- A loop yields folds where every index below its end does.
folds_from-All :
    (P : FoldIndices → Type 0) (fold : ℕ → FoldIndices) (i count : ℕ)
    → ((j : ℕ) → j < i + count → P (fold j))
    → All P (folds_from fold i count)
unfolding folds_from
folds_from-All P fold i zero h = tt
folds_from-All P fold i (suc count) h =
    (h i (omega arith), folds_from-All P fold (suc i) count (λ j below. h j (omega arith)))

get_last?-All :
    {A : Type 0} (P : A → Type 0) (xs : List A) {x : A} → All P xs → get_last? xs ≡ some x → P x
get_last?-All P [] a e = cc
get_last?-All P (y ∷ []) a e = ground arith
get_last?-All P (y ∷ z ∷ zs) a e = get_last?-All P (z ∷ zs) a.1 e

with_extra-IsFold :
    (total q : ℕ) (last : Option FoldIndices) (fs : List FoldIndices)
    → get_last? fs ≡ last
    → All (IsFold total) fs
    → All (IsFold total) (with_extra total q last fs)
unfolding with_extra
with_extra-IsFold total q none fs e a = a
with_extra-IsFold total q (some f) fs e a = elim (Bool-cases (ltb f.test_end total)) [
  | inl left ↦ rw left (
      All-append (IsFold total) fs (extra_fold total q f ∷ []) a
        (extra_fold-IsFold total q f (get_last?-All (IsFold total) fs a e), tt))
  | inr done ↦ rw done a
]

-- The slices of the `j`-th fold of `folds` end inside the frame.
anchored_bound : (total folds j : ℕ) → j < folds → suc j * (total / folds) ≤ total
anchored_bound total folds j below =
    let fits = div-mul-le_self total folds in
    let step = mul-le-mul_right {m = suc j} {n = folds} (total / folds) (omega arith) in omega arith

rolling_bound :
    (total folds t j : ℕ) → suc j < folds → t ≤ total / folds → j * (total / folds / 2) + t ≤ total
rolling_bound total folds t j below small =
    let q = total / folds in
    let half = mul-le-mul {n₁ = j} {m₁ = q / 2} {n₂ = j} {m₂ = q} (omega arith) (omega arith) in
    let fits = anchored_bound total folds j (omega arith) in omega arith

indices_of-IsFold :
    (anchor : Anchor) (total folds t : ℕ)
    → 1 < folds
    → t ≤ total / folds
    → All (IsFold total) (indices_of anchor total folds (total / folds) t)
unfolding indices_of
indices_of-IsFold anchored total folds t many small =
    folds_from-All (IsFold total) (anchored_fold total (total / folds)) 0 folds (λ j below.
      anchored_fold-IsFold total (total / folds) j (anchored_bound total folds j (omega arith)))
indices_of-IsFold rolling total folds t many small =
    with_extra-IsFold total (total / folds) _ _ refl (
      folds_from-All (IsFold total) (rolling_fold total (total / folds) t) 0 (folds - 1) (λ j below.
        rolling_fold-IsFold total (total / folds) t j
          (rolling_bound total folds t j (omega arith) small)))

-- Where the training size is at most the fold size, every fold that is computed, anchored or
-- rolling, is a training slice and the test slice right after it, both inside the frame, and
-- its counts are their lengths: no test bar has been trained on in the same fold.
pub compute_fold_indices-IsFold :
    (total_bars folds : ℕ) (train_size : ℕ → ℕ) (anchor : Anchor)
    → train_size (total_bars / folds) ≤ total_bars / folds
    → All (IsFold total_bars) (compute_fold_indices total_bars folds train_size anchor)
unfolding compute_fold_indices
compute_fold_indices-IsFold total folds train_size anchor small =
    elim (Bool-cases (ltb total 3 || ltb folds 2)) [
      | inl few ↦ rw few tt
      | inr enough ↦
          rw enough
            (indices_of-IsFold anchor total folds (train_size (total / folds)) (ground arith) small)
    ]

-- The test slices cover the bars from `first` to before `last`, each one from where the one before it
-- ends.
abbrev pub Tiles : ℕ → ℕ → List FoldIndices → Type 0
Tiles first last [] = first ≡ last
Tiles first last (f ∷ fs) = (f.test_start ≡ first) × Tiles f.test_end last fs

anchored_fold-adjacent :
    (total q i : ℕ) → suc (suc i) * q ≤ total → (anchored_fold total q i).test_end ≡ suc (suc i) * q
unfolding anchored_fold at_most
anchored_fold-adjacent total q i h = ground arith

anchored_fold-last :
    (total q i folds : ℕ)
    → suc i ≡ folds
    → (anchored_fold total q i).test_end ≡ at_most (suc folds * q) total
unfolding anchored_fold
anchored_fold-last total q i folds same =
    ap (λ x. at_most x total) (ground (arith, ap (λ x. x * q) same))

anchored-Tiles :
    (total folds i count : ℕ)
    → i + suc count ≡ folds
    → let q = total / folds in
      Tiles
        (suc i * q)
        (at_most (suc folds * q) total)
        (folds_from (anchored_fold total q) i (suc count))
unfolding folds_from anchored_fold
anchored-Tiles total folds i zero h =
    (refl, anchored_fold-last total (total / folds) i folds (omega arith))
anchored-Tiles total folds i (suc count) h =
    let q = total / folds in
    let next =
      anchored_fold-adjacent total q i (anchored_bound total folds (suc i) (omega arith)) in
    (
      refl,
      subst
          (λ x.
            Tiles x (at_most (suc folds * q) total)
              (folds_from (anchored_fold total q) (suc i) (suc count)))
          (sym next) (anchored-Tiles total folds (suc i) count (omega arith)),
    )

-- With 3 bars and 2 folds at least, the test slices of anchored folds begin at the end of the first
-- training slice, each begins where the one before it ends, and they end at `folds + 1` fold sizes or at
-- the end of the frame, whichever comes first. So no bar in between is skipped or tested twice; bars
-- after that, which there are if the division leaves more than a fold size over, are not tested.
pub compute_fold_indices-Tiles :
    (total_bars folds : ℕ) (train_size : ℕ → ℕ)
    → 3 ≤ total_bars
    → 2 ≤ folds
    → let fold_size = total_bars / folds in
      Tiles fold_size
        (at_most (suc folds * fold_size) total_bars)
        (compute_fold_indices total_bars folds train_size anchored)
unfolding compute_fold_indices indices_of
compute_fold_indices-Tiles total zero train_size enough several = absurd (omega arith)
compute_fold_indices-Tiles total (suc folds) train_size enough several =
    let many : (ltb total 3 || ltb (suc folds) 2) ≡ false = ground arith in
    rw many (ground (arith, anchored-Tiles total (suc folds) 0 folds (omega arith)))
