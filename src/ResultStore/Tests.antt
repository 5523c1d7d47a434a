-- ===== src/ResultStore/Tests.antt =====
-- Runs of the result store: a result is a text, and the database a dict.
use finbar.Common.{String, ◌≡◌, ◌≤◌, refl, true, false, [], ◌∷◌, some, none, arith, pos, neg_ℤ}
use finbar.Common.Table.{Table, lookup, insert, erase}
use finbar.ResultStore.{
  Fields, Repository, ResultStore, has_result, record_from_result, new_store, save, get, delete,
}
use finbar.ResultStore.Keys.{Kept}
use finbar.ResultStore.Fresh.{IsWithin, save-get}

instance abbrev same_text : Fields String
same_text = record { text = λ key result. result }

instance abbrev dict : Repository String (Table String)
dict = record { save = insert; get = lookup; delete = λ i d. (erase i d, true) }

abbrev two_results : ResultStore String (Table String)
two_results = record {
  max_results = 2;
  database = some [];
  records = (7, record_from_result 7 20 "later") ∷ (8, record_from_result 8 10 "earlier") ∷ [];
}

-- The oldest record makes room; its result was never persisted.
oldest_gone : get (save two_results 9 20 "new") 8 ≡ none
unfolding save get lookup insert erase
oldest_gone = refl

later_kept : get (save two_results 9 20 "new") 7 ≡ some "later"
unfolding save get lookup insert erase
later_kept = refl

-- An id that is gone from memory is loaded from the database.
reloaded :
    get (save (save (save two_results 9 20 "new") 10 30 "newer") 11 40 "newest") 9 ≡ some "new"
unfolding save get lookup insert erase
reloaded = refl

deleted : (delete two_results 7).1 ≡ true
unfolding delete
deleted = refl

least_limit : (new_store {R = String} {D = Table String} (neg_ℤ (pos 5)) none).max_results ≡ 1
unfolding new_store finbar.Jobs.Fetch.at_least_one
least_limit = refl

two_results-IsWithin : IsWithin two_results
unfolding has_result record_from_result
two_results-IsWithin = (ground arith, (ground arith, (refl, (refl, (refl, (refl, tt))))))

unused : has_result 9 two_results.records ≡ false
unfolding has_result
unused = refl

none_later : (20 ≤ 20) × ((10 ≤ 20) × Unit {0})
none_later = ground arith

save-get_example :
    (get (save two_results 9 20 "new") 9 ≡ some "new")
    × (IsWithin (save two_results 9 20 "new")
        × Kept (save two_results 9 20 "new").records two_results.records)
unfolding record_from_result
save-get_example = save-get two_results 9 20 "new" two_results-IsWithin none_later unused
