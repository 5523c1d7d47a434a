-- ===== src/ResultStore/Keys.antt =====
-- The dict of results: keys, entries and times.
use finbar.Common.{
  ℕ, suc, ◌≡◌, ◌≤◌, ◌⊎◌, refl, true, false, [], ◌∷◌, some, none, Option, length, arith, ◌==◌,
  Bool-cases, inl, inr, ap, sym, ◌∙◌, if◌then◌else◌,
}
use mathlib.Core.Path.{subst}
use finbar.Common.Table.{Table, lookup, insert, erase, lookup-insert, lookup-erase}
use finbar.ResultStore.{ResultRecord, has_result}

module _ {R : Type 0} where
  -- Each record stands under its own id, and no id is held twice.
  abbrev pub IsKeyed : Table (ResultRecord R) → Type 0
  IsKeyed [] = Unit
  IsKeyed ((k, r) ∷ d) = (r.result_id ≡ k) × ((has_result k d ≡ false) × IsKeyed d)

  abbrev pub NoneAfter : ℕ → Table (ResultRecord R) → Type 0
  NoneAfter now [] = Unit
  NoneAfter now ((k, r) ∷ d) = (r.created_at ≤ now) × NoneAfter now d

  pub has-insert :
      (i k : ℕ) (r : ResultRecord R) (d : Table (ResultRecord R))
      → has_result i (insert k r d) ≡ (if k == i then true else has_result i d)
  unfolding has_result insert
  has-insert i k r [] = ground arith
  has-insert i k r ((j, s) ∷ d) = ground (arith, has-insert i k r d)

  has-erase :
      (i k : ℕ) (d : Table (ResultRecord R))
      → has_result i d ≡ false
      → has_result i (erase k d) ≡ false
  unfolding has_result erase
  has-erase i k [] h = refl
  has-erase i k ((j, s) ∷ d) h = ground (arith, has-erase i k d)

  erase-absent : (k : ℕ) (d : Table (ResultRecord R)) → has_result k d ≡ false → erase k d ≡ d
  unfolding has_result erase
  erase-absent k [] h = refl
  erase-absent k ((j, s) ∷ d) h = ground (arith, erase-absent k d)

  pub length-insert :
      (k : ℕ) (r : ResultRecord R) (d : Table (ResultRecord R))
      → has_result k d ≡ false
      → length (insert k r d) ≡ suc (length d)
  unfolding has_result insert
  length-insert k r [] h = refl
  length-insert k r ((j, s) ∷ d) h = ground (arith, length-insert k r d)

  pub length-erase :
      (k : ℕ) (d : Table (ResultRecord R))
      → IsKeyed d
      → has_result k d ≡ true
      → suc (length (erase k d)) ≡ length d
  unfolding has_result erase
  length-erase k [] keyed h = ground arith
  length-erase k ((j, s) ∷ d) keyed h = ground (arith, length-erase k d keyed.1.1, erase-absent k d)

  pub insert-IsKeyed :
      (k : ℕ) (r : ResultRecord R) (d : Table (ResultRecord R))
      → r.result_id ≡ k
      → IsKeyed d
      → IsKeyed (insert k r d)
  unfolding has_result insert
  insert-IsKeyed k r [] own keyed = (own, (refl, tt))
  insert-IsKeyed k r ((j, s) ∷ d) own keyed =
      ground (arith, insert-IsKeyed k r d own keyed.1.1, has-insert j k r d)

  pub erase-IsKeyed : (k : ℕ) (d : Table (ResultRecord R)) → IsKeyed d → IsKeyed (erase k d)
  unfolding erase
  erase-IsKeyed k [] keyed = tt
  erase-IsKeyed k ((j, s) ∷ d) keyed = ground (arith, erase-IsKeyed k d keyed.1.1, has-erase j k d)

  -- Every record of the second table is what the first has under its key.
  abbrev Entries : Table (ResultRecord R) → Table (ResultRecord R) → Type 0
  Entries whole [] = Unit
  Entries whole ((k, s) ∷ d) = (lookup k whole ≡ some s) × Entries whole d

  Entries-skip :
      (j : ℕ) (r : ResultRecord R) (whole d : Table (ResultRecord R))
      → has_result j d ≡ false
      → Entries whole d
      → Entries ((j, r) ∷ whole) d
  unfolding has_result lookup
  Entries-skip j r whole [] fresh e = tt
  Entries-skip j r whole ((k, s) ∷ d) fresh e =
      (ground (arith, e.0), Entries-skip j r whole d (ground arith) e.1)

  pub Entries-self : (d : Table (ResultRecord R)) → IsKeyed d → Entries d d
  unfolding lookup
  Entries-self [] keyed = tt
  Entries-self ((j, r) ∷ d) keyed =
      (ground arith, Entries-skip j r d d keyed.1.0 (Entries-self d keyed.1.1))

  pub Entries-insert :
      (k : ℕ) (r : ResultRecord R) (whole d : Table (ResultRecord R))
      → has_result k d ≡ false
      → Entries whole d
      → Entries (insert k r whole) d
  unfolding has_result
  Entries-insert k r whole [] fresh e = tt
  Entries-insert k r whole ((j, s) ∷ d) fresh e = (
    ground (arith, lookup-insert k j r whole, e.0),
    Entries-insert k r whole d (ground arith) e.1,
  )

  abbrev pub NoneBefore : ℕ → Table (ResultRecord R) → Type 0
  NoneBefore t [] = Unit
  NoneBefore t ((k, r) ∷ d) = (t ≤ r.created_at) × NoneBefore t d

  NoneBefore-erase :
      (t k : ℕ) (d : Table (ResultRecord R)) → NoneBefore t d → NoneBefore t (erase k d)
  unfolding erase
  NoneBefore-erase t k [] low = tt
  NoneBefore-erase t k ((j, s) ∷ d) low = ground (arith, NoneBefore-erase t k d low.1)

  -- Every record of the second table stands in the first, or is no newer than any there.
  abbrev pub Kept : Table (ResultRecord R) → Table (ResultRecord R) → Type 0
  Kept left [] = Unit
  Kept left ((k, s) ∷ d) = ((lookup k left ≡ some s) ⊎ NoneBefore s.created_at left) × Kept left d

  pub Kept-all : (left d : Table (ResultRecord R)) → Entries left d → Kept left d
  Kept-all left [] e = tt
  Kept-all left ((k, s) ∷ d) e = (inl e.0, Kept-all left d e.1)

  created : Option (ResultRecord R) → ℕ
  created none = 0
  created (some r) = r.created_at

  pub Kept-erase :
      (x : ResultRecord R) (whole d : Table (ResultRecord R))
      → lookup x.result_id whole ≡ some x
      → NoneBefore x.created_at whole
      → Entries whole d
      → Kept (erase x.result_id whole) d
  unfolding created
  Kept-erase x whole [] own low e = tt
  Kept-erase x whole ((k, s) ∷ d) own low e = (
    elim (Bool-cases (x.result_id == k)) [
      | inl same ↦
          let id : x.result_id ≡ k = ground arith in
          let time : x.created_at ≡ s.created_at =
            ap created (sym own ∙ (ap (λ n. lookup n whole) id ∙ e.0)) in
          inr (
            subst (λ t. NoneBefore t (erase x.result_id whole)) time
              (NoneBefore-erase x.created_at x.result_id whole low))
      | inr other ↦ inl (ground (arith, lookup-erase x.result_id k whole, e.0))
    ],
    Kept-erase x whole d own low e.1,
  )
