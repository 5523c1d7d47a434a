-- ===== src/ResultStore/Oldest.antt =====
-- The first of the records sorted by time.
use finbar.Common.{
  ap, sym, ◌∙◌, false≢true, some, ℕ, ◌≡◌, ◌≢◌, ◌≤◌, true, false, List, [], ◌∷◌, arith, leb, ◌==◌,
  Bool-cases, inl, inr,
}
use finbar.Common.Table.{lookup, Table, insert}
use finbar.ResultStore.Keys.{IsKeyed, NoneAfter, has-insert, NoneBefore}
use finbar.ResultStore.{ResultRecord, has_result, record_values, insort_record, oldest_first}

module _ {R : Type 0} where
  -- The oldest of the records, when a new one no older than the others has joined them, is not the new
  -- one, and it is held under its id.
  abbrev pub IsOther : ℕ → ResultRecord R → Table (ResultRecord R) → List (ResultRecord R) → Type 0
  IsOther k new d [] = ⊥
  IsOther k new d (x ∷ xs) =
      (x.result_id ≢ k)
      × ((has_result x.result_id (insert k new d) ≡ true)
          × (lookup x.result_id (insert k new d) ≡ some x))

  IsOther-insort_record :
      (k : ℕ) (new r : ResultRecord R) (j : ℕ) (d : Table (ResultRecord R))
      (xs : List (ResultRecord R))
      → r.result_id ≡ j
      → (k == j) ≡ false
      → has_result j (insert k new d) ≡ false
      → IsOther k new d xs
      → IsOther k new ((j, r) ∷ d) (insort_record r xs)
  unfolding insort_record has_result insert lookup
  IsOther-insort_record k new r j d [] own other once h = absurd h
  IsOther-insort_record k new r j d (x ∷ xs) own other once h =
      let apart : (j == x.result_id) ≡ false = elim (Bool-cases (j == x.result_id)) [
        | inl same ↦
            let id : x.result_id ≡ j = ground arith in
            absurd
              (false≢true (sym once ∙ (ap (λ n. has_result n (insert k new d)) (sym id) ∙ h.1.0)))
        | inr differ ↦ differ
      ] in
      elim (Bool-cases (leb r.created_at x.created_at)) [
        | inl first ↦ rw first (ground arith, (ground arith, ground arith))
        | inr later ↦ rw later (h.0, (ground arith, ground (arith, h.1.1)))
      ]

  pub oldest_first-IsOther :
      (k : ℕ) (new : ResultRecord R) (j : ℕ) (r : ResultRecord R) (d : Table (ResultRecord R))
      → IsKeyed ((j, r) ∷ d)
      → NoneAfter new.created_at ((j, r) ∷ d)
      → has_result k ((j, r) ∷ d) ≡ false
      → IsOther k new ((j, r) ∷ d) (oldest_first (record_values (insert k new ((j, r) ∷ d))))
  unfolding oldest_first has_result insert insort_record lookup
  oldest_first-IsOther k new j r [] keyed older fresh = ground arith
  oldest_first-IsOther k new j r ((i, s) ∷ d) keyed older fresh =
      let differ : (j == k) ≡ false = ground arith in
      let rest : has_result k ((i, s) ∷ d) ≡ false = ground arith in
      let once : has_result j (insert k new ((i, s) ∷ d)) ≡ false =
        ground (arith, has-insert j k new ((i, s) ∷ d), keyed.1.0) in
      rw differ (
        IsOther-insort_record k new r j ((i, s) ∷ d) _ keyed.0 (ground arith) once
          (oldest_first-IsOther k new i s d keyed.1.1 older.1 rest))

  -- The first of the sorted records is no newer than any.
  abbrev IsFloor : ℕ → List (ResultRecord R) → Type 0
  IsFloor t [] = Unit
  IsFloor t (x ∷ xs) = (t ≤ x.created_at) × IsFloor t xs

  abbrev StartsLow : List (ResultRecord R) → Type 0
  StartsLow [] = Unit
  StartsLow (x ∷ xs) = IsFloor x.created_at xs

  IsFloor-below : (t u : ℕ) (xs : List (ResultRecord R)) → t ≤ u → IsFloor u xs → IsFloor t xs
  IsFloor-below t u [] below low = tt
  IsFloor-below t u (x ∷ xs) below low = (ground arith, IsFloor-below t u xs below low.1)

  IsFloor-insort_record :
      (t : ℕ) (r : ResultRecord R) (xs : List (ResultRecord R))
      → t ≤ r.created_at
      → IsFloor t xs
      → IsFloor t (insort_record r xs)
  unfolding insort_record
  IsFloor-insort_record t r [] below low = (below, tt)
  IsFloor-insort_record t r (x ∷ xs) below low =
      ground (arith, IsFloor-insort_record t r xs below low.1)

  insort_record-IsFloor :
      (t : ℕ) (r : ResultRecord R) (xs : List (ResultRecord R))
      → IsFloor t (insort_record r xs)
      → (t ≤ r.created_at) × IsFloor t xs
  unfolding insort_record
  insort_record-IsFloor t r [] low = low
  insort_record-IsFloor t r (x ∷ xs) low = elim (Bool-cases (leb r.created_at x.created_at)) [
    | inl first ↦ rw first at low
    | inr later ↦
        let low' : (t ≤ x.created_at) × IsFloor t (insort_record r xs) = rw later at low in
        let (own, rest) = insort_record-IsFloor t r xs low'.1 in (own, (low'.0, rest))
  ]

  insort_record-StartsLow :
      (r : ResultRecord R) (xs : List (ResultRecord R))
      → StartsLow xs
      → StartsLow (insort_record r xs)
  unfolding insort_record
  insort_record-StartsLow r [] low = tt
  insort_record-StartsLow r (x ∷ xs) low = elim (Bool-cases (leb r.created_at x.created_at)) [
    | inl first ↦
        rw first (ground arith, IsFloor-below r.created_at x.created_at xs (ground arith) low)
    | inr later ↦ rw later (IsFloor-insort_record x.created_at r xs (ground arith) low)
  ]

  oldest_first-StartsLow : (xs : List (ResultRecord R)) → StartsLow (oldest_first xs)
  unfolding oldest_first
  oldest_first-StartsLow [] = tt
  oldest_first-StartsLow (x ∷ xs) =
      insort_record-StartsLow x (oldest_first xs) (oldest_first-StartsLow xs)

  oldest_first-NoneBefore :
      (t : ℕ) (d : Table (ResultRecord R))
      → IsFloor t (oldest_first (record_values d))
      → NoneBefore t d
  unfolding oldest_first
  oldest_first-NoneBefore t [] low = tt
  oldest_first-NoneBefore t ((k, r) ∷ d) low =
      let (own, rest) = insort_record-IsFloor t r (oldest_first (record_values d)) low in
      (own, oldest_first-NoneBefore t d rest)

  abbrev pub Floors : Table (ResultRecord R) → List (ResultRecord R) → Type 0
  Floors d [] = Unit
  Floors d (x ∷ xs) = NoneBefore x.created_at d

  sorted-Floors :
      (d : Table (ResultRecord R)) (xs : List (ResultRecord R))
      → StartsLow xs
      → ((t : ℕ) → IsFloor t xs → NoneBefore t d)
      → Floors d xs
  sorted-Floors d [] starts low = tt
  sorted-Floors d (x ∷ xs) starts low = low x.created_at (ground arith, starts)

  pub oldest_first-Floors : (d : Table (ResultRecord R)) → Floors d (oldest_first (record_values d))
  oldest_first-Floors d =
      sorted-Floors d (oldest_first (record_values d)) (oldest_first-StartsLow (record_values d))
        (λ t low. oldest_first-NoneBefore t d low)
