-- ===== src/Artifacts/Cover.antt =====
-- The pages of an artifact, one after the other.
use native.Mathlib.Nat.{mod-lt, div-add-mod'}
use finbar.Common.{
  ℕ, zero, suc, ◌+◌, ◌-◌, ◌*◌, ◌≤◌, String, Option, List, [], ◌∷◌, ◌++◌, map, ◌≡◌, refl, sym, ◌∙◌,
  arith, ◌==◌, ℤ, pos, length, take, drop, Bool-cases, inl, inr,
}
use finbar.Common.Dict.{Dict}
use finbar.Strategy.Values.{Json, Texts}
use finbar.Artifacts.{clamp_size, project_bar, filter_bars, total_pages_of, page_bars}
use finbar.Artifacts.Pages.{shown_columns, page_bars-filter_bars}

module _ {ℓ κ} {A : Type ℓ} {B : Type κ} where
  map-append : (f : A → B) (xs ys : List A) → map f (xs ++ ys) ≡ map f xs ++ map f ys
  map-append f [] ys = refl
  map-append f (x ∷ xs) ys = rw (map-append f xs ys) refl

module _ {ℓ} {A : Type ℓ} where
  take-nil : (n : ℕ) → ◌≡◌ {A = List A} (take n []) []
  take-nil zero = refl
  take-nil (suc n) = refl

  take-add : (n m : ℕ) (xs : List A) → take (n + m) xs ≡ take n xs ++ take m (drop n xs)
  take-add zero m xs = let e : 0 + m ≡ m = omega arith in rw e refl
  take-add (suc n) m [] = take-nil (suc n + m) ∙ sym (take-nil m)
  take-add (suc n) m (x ∷ xs) =
      let e : suc n + m ≡ suc (n + m) = omega arith in rw (e, take-add n m xs) refl

  take-all : (n : ℕ) (xs : List A) → length xs ≤ n → take n xs ≡ xs
  take-all zero [] h = refl
  take-all zero (x ∷ xs) h = absurd (omega (arith, h))
  take-all (suc n) [] h = refl
  take-all (suc n) (x ∷ xs) h = rw (take-all n xs (omega (arith, h))) refl

clamp_size-positive : (page_size : ℤ) → 1 ≤ clamp_size page_size
unfolding clamp_size
clamp_size-positive page_size = ground arith

total_pages_of-enough : (total size : ℕ) → 1 ≤ size → total ≤ total_pages_of total size * size
unfolding total_pages_of
total_pages_of-enough total size positive =
    let split = div-add-mod' (total + size - 1) size in
    let below = mod-lt (total + size - 1) {m = size} (omega (arith, positive)) in
    elim (Bool-cases (total == 0)) [
      | inl empty ↦ ground arith
      | inr filled ↦ rw filled (omega (arith, split, below, positive))
    ]

module _ {F : Type 0} ⦃texts : Texts F⦄ (start_date end_date : Option String)
    (bars : List (Dict (Json F))) (columns : List String) (page_size : ℤ) where
  -- The rows of the first `k` pages.
  abbrev pub rows_of_pages : ℕ → List (Dict (Json F))
  rows_of_pages zero = []
  rows_of_pages (suc k) =
      rows_of_pages k ++ (page_bars start_date end_date bars columns (pos k) page_size).rows

  rows_of_pages-take :
      (k : ℕ)
      → rows_of_pages k
        ≡ map
            (λ (bar : Dict (Json F)).
              project_bar bar (shown_columns start_date end_date columns bars))
            (take (k * clamp_size page_size) (filter_bars start_date end_date bars))
  rows_of_pages-take zero = let e : 0 * clamp_size page_size ≡ 0 = omega arith in rw e refl
  rows_of_pages-take (suc k) =
      let size = clamp_size page_size in
      let matching = filter_bars start_date end_date bars in
      let next : suc k * size ≡ k * size + size = omega arith in
      rw
        (
          rows_of_pages-take k,
          (page_bars-filter_bars start_date end_date bars columns k page_size).0,
          next,
          take-add (k * size) size matching,
          map-append
              (λ (bar : Dict (Json F)).
                project_bar bar (shown_columns start_date end_date columns bars))
              (take (k * size) matching) (take size (drop (k * size) matching)),
        )
        refl

  total_pages-total_pages_of :
      (p : ℕ)
      → (page_bars start_date end_date bars columns (pos p) page_size).total_pages
        ≡ total_pages_of
            (page_bars start_date end_date bars columns (pos p) page_size).total
            (clamp_size page_size)
  unfolding page_bars
  total_pages-total_pages_of p = refl

  -- Reading the pages from the first to the last that is announced gives every matching bar, once,
  -- in order, and cut to the columns.
  pub rows_of_pages-all :
      (p : ℕ)
      → rows_of_pages (page_bars start_date end_date bars columns (pos p) page_size).total_pages
        ≡ map
            (λ (bar : Dict (Json F)).
              project_bar bar (shown_columns start_date end_date columns bars))
            (filter_bars start_date end_date bars)
  rows_of_pages-all p =
      let size = clamp_size page_size in
      let matching = filter_bars start_date end_date bars in
      let pages = total_pages_of (length matching) size in
      let counted = (page_bars-filter_bars start_date end_date bars columns p page_size).1 in
      let enough = total_pages_of-enough (length matching) size (clamp_size-positive page_size) in
      rw
        (
          total_pages-total_pages_of p,
          counted,
          rows_of_pages-take pages,
          take-all (pages * size) matching enough,
        )
        refl
