-- ===== src/Artifacts/Pages.antt =====
-- Which bars a page of an artifact has.
use finbar.Common.{
  ℕ, zero, suc, ◌+◌, ◌-◌, ◌*◌, String, Bool, true, false, ◌&&◌, Bool-cases, Option, none, some,
  List, [], ◌∷◌, map, ◌≡◌, refl, arith, if◌then◌else◌, ℤ, pos, leb, ltb, length, take, drop, inl,
  inr,
}
use finbar.Common.Dict.{Dict}
use finbar.Strategy.Values.{Json, Texts}
use finbar.Artifacts.{
  clamp_size, in_page, given_columns, columns_or, keys_of, project_bar, is_excluded, filter_bars,
  page_loop, page_bars,
}

in_page-pos :
    (p size total : ℕ)
    → in_page (pos p) size total ≡ (leb (p * size) total && ltb total (p * size + size))
unfolding in_page
in_page-pos p size total = ground arith

module _ {ℓ} {A : Type ℓ} where
  -- The part of a list whose elements have a number from `start` up to `start + size`, where the
  -- first has the number `total`.
  abbrev window : ℕ → ℕ → ℕ → List A → List A
  window start size total xs =
      take (start + size - total - (start - total)) (drop (start - total) xs)

  skip-cons :
      (skip keep skip' keep' : ℕ) (x : A) (xs : List A)
      → skip ≡ suc skip'
      → keep ≡ keep'
      → take keep (drop skip (x ∷ xs)) ≡ take keep' (drop skip' xs)
  skip-cons skip keep skip' keep' x xs e e' = rw (e, e') refl

  keep-cons :
      (skip keep skip' keep' : ℕ) (x : A) (xs : List A)
      → skip ≡ 0
      → skip' ≡ 0
      → keep ≡ suc keep'
      → take keep (drop skip (x ∷ xs)) ≡ x ∷ take keep' (drop skip' xs)
  keep-cons skip keep skip' keep' x xs e e' e'' = rw (e, e', e'') refl

  stop-cons :
      (skip keep skip' keep' : ℕ) (x : A) (xs : List A)
      → keep ≡ 0
      → keep' ≡ 0
      → take keep (drop skip (x ∷ xs)) ≡ take keep' (drop skip' xs)
  stop-cons skip keep skip' keep' x xs e e' = rw (e, e') refl

  window-cons :
      (start size total : ℕ) (x : A) (xs : List A)
      → window start size total (x ∷ xs) ≡ (
          if leb start total && ltb total (start + size)
          then x ∷ window start size (total + 1) xs
          else window start size (total + 1) xs)
  window-cons start size total x xs =
      let skip = start - total in
      let keep = start + size - total - skip in
      let skip' = start - (total + 1) in
      let keep' = start + size - (total + 1) - skip' in
      elim (Bool-cases (leb start total)) [
        | inr early ↦ rw early (skip-cons skip keep skip' keep' x xs (ground arith) (ground arith))
        | inl reached ↦ elim (Bool-cases (ltb total (start + size))) [
          | inl inside ↦
              rw (reached, inside)
                (keep-cons skip keep skip' keep' x xs (ground arith) (ground arith) (ground arith))
          | inr past ↦
              rw (reached, past)
                (stop-cons skip keep skip' keep' x xs (ground arith) (ground arith))
        ]
      ]

  window-nil : (start size total : ℕ) → ◌≡◌ {A = List A} (window start size total []) []
  window-nil start size total = by_counts (start + size - total - (start - total)) (start - total)
    where
      by_counts : (keep skip : ℕ) → ◌≡◌ {A = List A} (take keep (drop skip [])) []
      by_counts zero zero = refl
      by_counts (suc keep) zero = refl
      by_counts zero (suc skip) = refl
      by_counts (suc keep) (suc skip) = refl

module _ {ℓ κ} {A : Type ℓ} {B : Type κ} where
  if-map :
      (test : Bool) (f : A → B) (x : A) (xs : List A)
      → (if test then f x ∷ map f xs else map f xs) ≡ map f (if test then x ∷ xs else xs)
  if-map true f x xs = refl
  if-map false f x xs = refl

module _ {F : Type 0} ⦃texts : Texts F⦄ (start_date end_date : Option String) where
  -- The columns after the loop has met the given matching bars.
  abbrev columns_after : Option (List String) → List (Dict (Json F)) → Option (List String)
  columns_after (some columns) matching = some columns
  columns_after none [] = none
  columns_after none (bar ∷ bars) = some (keys_of bar)

  columns_after-cons :
      (chosen : Option (List String)) (bar : Dict (Json F)) (matching : List (Dict (Json F)))
      → columns_after chosen (bar ∷ matching) ≡ some (columns_or chosen (keys_of bar))
  columns_after-cons none bar matching = refl
  columns_after-cons (some columns) bar matching = refl

  page_loop-filter_bars :
      (p size total : ℕ) (selected : Option (List String)) (bars : List (Dict (Json F)))
      → page_loop start_date end_date (pos p) size selected total bars ≡ (
        map
            (λ (bar : Dict (Json F)).
              project_bar bar
                (columns_or (columns_after selected (filter_bars start_date end_date bars)) []))
            (window (p * size) size total (filter_bars start_date end_date bars)),
        total + length (filter_bars start_date end_date bars),
        columns_after selected (filter_bars start_date end_date bars),
      )
  unfolding page_loop filter_bars
  page_loop-filter_bars p size total none [] =
      let same : total + 0 ≡ total = omega arith in
      rw (window-nil {A = Dict (Json F)} (p * size) size total, same) refl
  page_loop-filter_bars p size total (some columns) [] =
      let same : total + 0 ≡ total = omega arith in
      rw (window-nil {A = Dict (Json F)} (p * size) size total, same) refl
  page_loop-filter_bars p size total selected (bar ∷ bars) =
      elim (Bool-cases (is_excluded start_date end_date bar)) [
        | inl excluded ↦ rw excluded (page_loop-filter_bars p size total selected bars)
        | inr kept ↦
            let columns = columns_or selected (keys_of bar) in
            rw (kept, page_loop-filter_bars p size (total + 1) (some columns) bars)
              (kept_bar (filter_bars start_date end_date bars) selected)
      ]
    where
      kept_bar :
          (matching : List (Dict (Json F))) (chosen : Option (List String))
          → ◌≡◌ {A = List (Dict (Json F)) × ℕ × Option (List String)}
              (
                (if in_page (pos p) size total
                    then project_bar bar (columns_or chosen (keys_of bar))
                      ∷ map
                          (λ (row : Dict (Json F)).
                            project_bar row (columns_or chosen (keys_of bar)))
                          (window (p * size) size (total + 1) matching)
                    else map
                        (λ (row : Dict (Json F)). project_bar row (columns_or chosen (keys_of bar)))
                        (window (p * size) size (total + 1) matching)),
                total + 1 + length matching,
                some (columns_or chosen (keys_of bar)),
              )
              (
                map
                    (λ (row : Dict (Json F)).
                      project_bar row (columns_or (columns_after chosen (bar ∷ matching)) []))
                    (window (p * size) size total (bar ∷ matching)),
                total + suc (length matching),
                columns_after chosen (bar ∷ matching),
              )
      kept_bar matching chosen =
          let count : total + 1 + length matching ≡ total + suc (length matching) = omega arith in
          rw
            (
              columns_after-cons chosen bar matching,
              window-cons (p * size) size total bar matching,
              ← in_page-pos p size total,
              ← count,
              if-map (in_page (pos p) size total)
                  (λ (row : Dict (Json F)). project_bar row (columns_or chosen (keys_of bar))) bar
                  (window (p * size) size (total + 1) matching),
            )
            refl

  -- The columns of the rows: the ones asked for, else those of the first matching bar.
  abbrev pub shown_columns : List String → List (Dict (Json F)) → List String
  shown_columns columns bars =
      columns_or (columns_after (given_columns columns) (filter_bars start_date end_date bars)) []

  -- The loop over all bars finds what `_filter_bars` and a slice would: page `p` has the matching
  -- bars from `p * size` up to `(p + 1) * size`, each cut to the columns, and `total` counts all
  -- the matching bars.
  pub page_bars-filter_bars :
      (bars : List (Dict (Json F))) (columns : List String) (p : ℕ) (page_size : ℤ)
      → ((page_bars start_date end_date bars columns (pos p) page_size).rows
          ≡ map
              (λ (bar : Dict (Json F)). project_bar bar (shown_columns columns bars))
              (take
                (clamp_size page_size)
                (drop (p * clamp_size page_size) (filter_bars start_date end_date bars))))
        × ((page_bars start_date end_date bars columns (pos p) page_size).total
            ≡ length (filter_bars start_date end_date bars))
        × ((page_bars start_date end_date bars columns (pos p) page_size).columns
            ≡ shown_columns columns bars)
  unfolding page_bars
  page_bars-filter_bars bars columns p page_size =
      let size = clamp_size page_size in
      let found = page_loop-filter_bars p size 0 (given_columns columns) bars in
      let keep : p * size + size - 0 - (p * size - 0) ≡ size = omega arith in
      let skip : p * size - 0 ≡ p * size = omega arith in
      let counted : 0 + length (filter_bars start_date end_date bars)
          ≡ length (filter_bars start_date end_date bars) =
        omega arith in
      (rw (found, keep, skip) refl, rw (found, counted) refl, rw found refl)
