-- ===== src/ResultStore/Fresh.antt =====
-- A result that was just saved, after the eviction over the limit.
use finbar.Common.{
  some, ℕ, ◌≡◌, ◌≤◌, refl, true, false, List, [], ◌∷◌, length, arith, leb, Bool-cases, inl, inr,
}
use finbar.Common.Table.{lookup-erase, lookup-insert, lookup, Table, insert, erase}
use finbar.ResultStore.Keys.{
  IsKeyed, NoneAfter, length-insert, length-erase, insert-IsKeyed, erase-IsKeyed, Entries-self,
  Entries-insert, Kept, Kept-all, Kept-erase,
}
use finbar.ResultStore.Oldest.{IsOther, Floors, oldest_first-IsOther, oldest_first-Floors}
use finbar.ResultStore.{
  found_or_loaded, record_from_result, get, ResultStore, save, Repository, enforce_max_results,
  evict_oldest, Fields, ResultRecord, has_result, record_values, oldest_first,
}

module _ {R : Type 0} where
  evict_oldest-fits :
      (n : ℕ) (xs : List (ResultRecord R)) (d : Table (ResultRecord R))
      → leb (length d) n ≡ true
      → evict_oldest n xs d ≡ d
  unfolding evict_oldest
  evict_oldest-fits n [] d fits = refl
  evict_oldest-fits n (x ∷ xs) d fits = ground arith

  -- A table that is within the limit, holds the record under its id, and lacks of the others at most
  -- such as are no newer than those it holds.
  abbrev pub Holds :
      ℕ → ℕ → ResultRecord R → Table (ResultRecord R) → Table (ResultRecord R) → Type 0
  Holds n k new others d = (length d ≤ n) × (IsKeyed d × ((lookup k d ≡ some new) × Kept d others))

  joined-Holds :
      (n k : ℕ) (new : ResultRecord R) (d : Table (ResultRecord R))
      → IsKeyed d
      → new.result_id ≡ k
      → has_result k d ≡ false
      → leb (length (insert k new d)) n ≡ true
      → Holds n k new d (insert k new d)
  joined-Holds n k new d keyed own fresh fits = (
    ground arith,
    (
      insert-IsKeyed k new d own keyed,
      (
        ground (arith, lookup-insert k k new d),
        Kept-all (insert k new d) d (Entries-insert k new d d fresh (Entries-self d keyed)),
      ),
    ),
  )

  evict_oldest-Holds :
      (n k : ℕ) (new : ResultRecord R) (d : Table (ResultRecord R)) (xs : List (ResultRecord R))
      → length d ≤ n
      → IsKeyed d
      → new.result_id ≡ k
      → has_result k d ≡ false
      → IsOther k new d xs
      → Floors (insert k new d) xs
      → Holds n k new d (evict_oldest n xs (insert k new d))
  unfolding evict_oldest
  evict_oldest-Holds n k new d [] small keyed own fresh other low = absurd other
  evict_oldest-Holds n k new d (x ∷ xs) small keyed own fresh other low =
      let joined = insert-IsKeyed k new d own keyed in
      let held = lookup-insert k k new d in
      let shorter = length-erase x.result_id (insert k new d) joined other.1.0 in
      elim (Bool-cases (leb (length (insert k new d)) n)) [
        | inl fits ↦ rw fits (joined-Holds n k new d keyed own fresh fits)
        | inr full ↦
            let left = erase x.result_id (insert k new d) in
            let fits : leb (length left) n ≡ true = ground (arith, length-insert k new d fresh) in
            rw (full, evict_oldest-fits n xs left fits)
              (
                ground arith,
                (
                  erase-IsKeyed x.result_id (insert k new d) joined,
                  (
                    ground (arith, lookup-erase x.result_id k (insert k new d)),
                    Kept-erase x (insert k new d) d other.1.1 low
                        (Entries-insert k new d d fresh (Entries-self d keyed)),
                  ),
                ),
              )
      ]

  overfull :
      (n k : ℕ) (new : ResultRecord R) (d : Table (ResultRecord R))
      → 1 ≤ n
      → length d ≤ n
      → IsKeyed d
      → NoneAfter new.created_at d
      → new.result_id ≡ k
      → has_result k d ≡ false
      → leb (length (insert k new d)) n ≡ false
      → Holds n k new d
          (evict_oldest n (oldest_first (record_values (insert k new d))) (insert k new d))
  unfolding insert
  overfull n k new [] room small keyed older own fresh full = ground arith
  overfull n k new ((j, r) ∷ d) room small keyed older own fresh full =
      evict_oldest-Holds n k new ((j, r) ∷ d) _ small keyed own fresh
        (oldest_first-IsOther k new j r d keyed older fresh)
        (oldest_first-Floors (insert k new ((j, r) ∷ d)))

  enforce-Holds :
      (n k : ℕ) (new : ResultRecord R) (d : Table (ResultRecord R))
      → 1 ≤ n
      → length d ≤ n
      → IsKeyed d
      → NoneAfter new.created_at d
      → new.result_id ≡ k
      → has_result k d ≡ false
      → Holds n k new d (enforce_max_results n (insert k new d))
  unfolding enforce_max_results
  enforce-Holds n k new d room small keyed older own fresh =
      elim (Bool-cases (leb (length (insert k new d)) n)) [
        | inl fits ↦ rw fits (joined-Holds n k new d keyed own fresh fits)
        | inr full ↦ rw full (overfull n k new d room small keyed older own fresh full)
      ]

module _ {R D : Type 0} ⦃fields : Fields R⦄ ⦃repo : Repository R D⦄ where
  abbrev pub IsWithin : ResultStore R D → Type 0
  IsWithin store =
      (1 ≤ store.max_results) × ((length store.records ≤ store.max_results) × IsKeyed store.records)

  -- In a store of at most `max_results` records, 1 at least, each under its own id, which holds
  -- neither the new id nor a record later than now: after a save the result is what `get` returns
  -- under its id; the store is again within its limit with each record under its own id; and a record
  -- that was there before is there still, or is no newer than any that is.
  pub save-get :
      (store : ResultStore R D) (result_id now : ℕ) (result : R)
      → IsWithin store
      → NoneAfter now store.records
      → has_result result_id store.records ≡ false
      → let after = save store result_id now result in
        (get after result_id ≡ some result) × (IsWithin after × Kept after.records store.records)
  unfolding save get record_from_result found_or_loaded
  save-get store result_id now result (room, (small, keyed)) older fresh =
      let new = record_from_result result_id now result in
      let (short, (own, (found, kept))) =
        enforce-Holds store.max_results result_id new store.records room small keyed older refl
          fresh in
      (rw found refl, ((room, (short, own)), kept))
