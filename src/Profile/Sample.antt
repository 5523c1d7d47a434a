-- ===== src/Profile/Sample.antt =====
-- Fixed-point numbers with three decimals in the place of floats, to run the volume profiles.
use finbar.Common.{
  arith, ℕ, zero, suc, ◌+◌, ◌≡◌, refl, ◌⊎◌, inl, inr, not, ◌&&◌, List, [], ◌∷◌, length,
  if◌then◌else◌, ℤ, pos, neg_ℤ, ◌+ℤ◌, ◌-ℤ◌, ◌*ℤ◌, leb_ℤ, to_ℕ, neg_part, ap,
}
use finbar.Simulation.Number.{Number, max, min}
use finbar.Simulation.Sample.{div_ℤ}
use finbar.Profile.Numpy.{Numpy}
use finbar.Profile.Rolling.Exact.{IsExact}
use finbar.Profile.Session.{Grid, session_bucket_grid}
use finbar.Profile.Streaming.Batch.{fold, IsDocumented}

instance abbrev pub fixed_point : Number ℤ
fixed_point = record {
  of_nat = λ n. pos n *ℤ pos 1000;
  thousandths = pos;
  add = ◌+ℤ◌;
  sub = ◌-ℤ◌;
  mul = λ a b. div_ℤ (a *ℤ b) (pos 1000);
  div = λ a b. div_ℤ (a *ℤ pos 1000) b;
  neg = neg_ℤ;
  abs = λ a. pos (to_ℕ a + neg_part a);
  lt = λ a b. not (leb_ℤ b a);
  le = leb_ℤ;
  eq = λ a b. leb_ℤ a b && leb_ℤ b a;
  round = λ a digits. a;
  isclose = λ a b. leb_ℤ a b && leb_ℤ b a;
}

abbrev points : ℤ → ℤ → ℕ → List ℤ
points start step zero = []
points start step (suc n) = start ∷ points (start +ℤ step) step n

length-points : (start step : ℤ) (n : ℕ) → length (points start step n) ≡ n
length-points start step zero = refl
length-points start step (suc n) = ap suc (length-points (start +ℤ step) step n)

-- The index of the first of the greatest, where `best` at `at` is the greatest so far.
abbrev first_max : ℕ → ℕ → ℤ → List ℤ → ℕ
first_max at i best [] = at
first_max at i best (x ∷ xs) =
    first_max (if leb_ℤ x best then at else i) (suc i) (if leb_ℤ x best then best else x) xs

abbrev negated : List ℤ → List ℤ
negated [] = []
negated (x ∷ xs) = neg_ℤ x ∷ negated xs

abbrev argmax_ℤ : List ℤ → ℕ
argmax_ℤ [] = 0
argmax_ℤ (x ∷ xs) = first_max 0 1 x xs

abbrev extreme : (ℤ → ℤ → ℤ) → List ℤ → ℤ
extreme f [] = pos 0
extreme f (x ∷ xs) = fold f x xs

-- A bar's density is flat here: `exp` is 1.
instance abbrev pub flat_density : Numpy ℤ
flat_density = record {
  log = λ x. x;
  sqrt = λ x. x;
  exp = λ x. pos 1000;
  pi = pos 3142;
  nan = pos 0;
  billionths = λ n. pos 0;
  linspace = λ start stop n. points start (div_ℤ (stop -ℤ start) (pos n -ℤ pos 1)) n;
  argmax = argmax_ℤ;
  argmin = λ xs. argmax_ℤ (negated xs);
  array_sum = fold ◌+ℤ◌ (pos 0);
  series_max = extreme max;
  series_min = extreme min;
}

-- The prices of the tests: 10 and 30.
abbrev pub IsSamplePrice : ℤ → Type 0
IsSamplePrice x = (x ≡ pos 10000) ⊎ (x ≡ pos 30000)

sample_grid :
    (high low : ℤ)
    → IsSamplePrice high
    → IsSamplePrice low
    → leb_ℤ (session_bucket_grid high low 100).1 (pos 0) ≡ leb_ℤ high low
unfolding session_bucket_grid
sample_grid high low (inl h) (inl l) = rw (h, l) refl
sample_grid high low (inl h) (inr l) = rw (h, l) refl
sample_grid high low (inr h) (inl l) = rw (h, l) refl
sample_grid high low (inr h) (inr l) = rw (h, l) refl

pub flat_density-IsDocumented : IsDocumented ℤ IsSamplePrice
flat_density-IsDocumented = record {
  series_max_lem = λ x xs prices. refl;
  series_min_lem = λ x xs prices. refl;
  length-linspace = λ start stop n. length-points start _ n;
  grid_size = sample_grid;
  nought-le = refl;
}

+ℤ_assoc : (a b c : ℤ) → (a +ℤ b) +ℤ c ≡ a +ℤ (b +ℤ c)
+ℤ_assoc a b c = ground arith

pub fixed_point-IsExact : IsExact ℤ
fixed_point-IsExact = record {
  add_assoc = +ℤ_assoc;
  nought-add = λ x. ground arith;
  add-nought = λ x. ground arith;
  sub-add = λ x y. ground arith;
}

abbrev pub four_buckets : Grid ℤ
four_buckets = (pos 12200 ∷ pos 17400 ∷ pos 22600 ∷ pos 27800 ∷ [], pos 5200)
