-- ===== src/Profile/Rolling/Exact.antt =====
-- The arrays and numbers that compute_rolling_window_vp adds and subtracts, without rounding.
use finbar.Common.{ℕ, zero, suc, ◌≡◌, refl, List, [], ◌∷◌, length, ap, arith}
use finbar.Simulation.Number.{Number, nought}
use finbar.Profile.Numpy.{zeros, add_arrays}
use finbar.Profile.Rolling.Ring.{IsAdditive}
use finbar.Profile.Rolling.{sub_arrays}

-- Addition and subtraction without rounding.
pub record IsExact (F : Type 0) ⦃num : Number F⦄ : Type 0 where
  pub add_assoc : (x y z : F) → num.add (num.add x y) z ≡ num.add x (num.add y z)
  pub nought-add : (x : F) → num.add nought x ≡ x
  pub add-nought : (x : F) → num.add x nought ≡ x
  pub sub-add : (x y : F) → num.sub (num.add x y) x ≡ y

module _ (F : Type 0) ⦃num : Number F⦄ where
  pub length-zeros : (n : ℕ) → length (zeros {F = F} n) ≡ n
  unfolding zeros
  length-zeros zero = refl
  length-zeros (suc n) = ap suc (length-zeros n)

module _ {F : Type 0} ⦃num : Number F⦄ where
  length-add_arrays :
      (n : ℕ) (xs ys : List F) → length xs ≡ n → length ys ≡ n → length (add_arrays xs ys) ≡ n
  unfolding add_arrays
  length-add_arrays n [] ys h k = h
  length-add_arrays n (x ∷ xs) [] h k = h
  length-add_arrays zero (x ∷ xs) (y ∷ ys) h k = absurd (omega arith)
  length-add_arrays (suc n) (x ∷ xs) (y ∷ ys) h k =
      ap suc (length-add_arrays n xs ys (omega arith) (omega arith))

module _ {F : Type 0} ⦃num : Number F⦄ (exact : IsExact F) where
  add_arrays_assoc :
      (n : ℕ) (xs ys zs : List F)
      → length xs ≡ n
      → length ys ≡ n
      → length zs ≡ n
      → add_arrays (add_arrays xs ys) zs ≡ add_arrays xs (add_arrays ys zs)
  unfolding add_arrays
  add_arrays_assoc n [] ys zs h k l = refl
  add_arrays_assoc zero (x ∷ xs) ys zs h k l = absurd (omega arith)
  add_arrays_assoc (suc n) (x ∷ xs) [] zs h k l = absurd (omega arith)
  add_arrays_assoc (suc n) (x ∷ xs) (y ∷ ys) [] h k l = refl
  add_arrays_assoc (suc n) (x ∷ xs) (y ∷ ys) (z ∷ zs) h k l =
      let rest = add_arrays_assoc n xs ys zs (omega arith) (omega arith) (omega arith) in
      let first = exact.add_assoc x y z in cc

  zeros-add_arrays : (n : ℕ) (xs : List F) → length xs ≡ n → add_arrays (zeros n) xs ≡ xs
  unfolding add_arrays zeros
  zeros-add_arrays zero [] h = refl
  zeros-add_arrays zero (x ∷ xs) h = absurd (omega arith)
  zeros-add_arrays (suc n) [] h = absurd (omega arith)
  zeros-add_arrays (suc n) (x ∷ xs) h =
      let rest = zeros-add_arrays n xs (omega arith) in let first = exact.nought-add x in cc

  add_arrays-zeros : (n : ℕ) (xs : List F) → length xs ≡ n → add_arrays xs (zeros n) ≡ xs
  unfolding add_arrays zeros
  add_arrays-zeros n [] h = refl
  add_arrays-zeros zero (x ∷ xs) h = refl
  add_arrays-zeros (suc n) (x ∷ xs) h =
      let rest = add_arrays-zeros n xs (omega arith) in let first = exact.add-nought x in cc

  sub_arrays-add_arrays :
      (n : ℕ) (xs ys : List F)
      → length xs ≡ n
      → length ys ≡ n
      → sub_arrays (add_arrays xs ys) xs ≡ ys
  unfolding add_arrays sub_arrays
  sub_arrays-add_arrays n [] [] h k = refl
  sub_arrays-add_arrays n [] (y ∷ ys) h k = absurd (omega arith)
  sub_arrays-add_arrays n (x ∷ xs) [] h k = absurd (omega arith)
  sub_arrays-add_arrays zero (x ∷ xs) (y ∷ ys) h k = absurd (omega arith)
  sub_arrays-add_arrays (suc n) (x ∷ xs) (y ∷ ys) h k =
      let rest = sub_arrays-add_arrays n xs ys (omega arith) (omega arith) in
      let first = exact.sub-add x y in cc

  pub arrays-IsAdditive :
      (n : ℕ) → IsAdditive add_arrays sub_arrays (zeros n) (λ (xs : List F). length xs ≡ n)
  arrays-IsAdditive n = record {
    add_assoc = λ xs ys zs h k l. add_arrays_assoc n xs ys zs h k l;
    nothing-add = λ xs h. zeros-add_arrays n xs h;
    add-nothing = λ xs h. add_arrays-zeros n xs h;
    sub-add = λ xs ys h k. sub_arrays-add_arrays n xs ys h k;
    add-Fits = λ xs ys h k. length-add_arrays n xs ys h k;
    nothing-Fits = length-zeros F n;
  }

  pub numbers-IsAdditive : IsAdditive num.add num.sub nought (λ (x : F). Unit {0})
  numbers-IsAdditive = record {
    add_assoc = λ x y z h k l. exact.add_assoc x y z;
    nothing-add = λ x h. exact.nought-add x;
    add-nothing = λ x h. exact.add-nought x;
    sub-add = λ x y h k. exact.sub-add x y;
    add-Fits = λ x y h k. tt;
    nothing-Fits = tt;
  }
