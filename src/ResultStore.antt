-- ===== src/ResultStore.antt =====
-- InMemoryBacktestResultStore (finbar/infrastructure/services/in_memory_backtest_result_store.py). `R`
-- is a result, of which Fields gives the texts; the summary, a function of the result, is left out of
-- a record. A result id, a fresh UUID text, is a number, and so is the ISO text of a time. `D` is the
-- database behind the session factory, through the interface Repository; `none` is a store without
-- one. `list_results` is not modelled.
pub mod Keys
pub mod Oldest
pub mod Fresh
mod Tests
use finbar.Common.{
  ℕ, String, Bool, true, false, ◌||◌, leb, ◌==◌, length, List, [], ◌∷◌, Option, none, some,
  if◌then◌else◌, ℤ,
}
use finbar.Common.Table.{Table, lookup, insert, erase}
use finbar.Jobs.Fetch.{at_least_one}

-- `str(result.get(key, ""))`
pub record Fields (R : Type 0) : Type 0 where
  pub text : String → R → String

-- SqlBacktestResultRepository, on an open session.
pub record Repository (R D : Type 0) : Type 0 where
  pub save : ℕ → R → D → D
  pub get : ℕ → D → Option R
  pub delete : ℕ → D → D × Bool

pub record ResultRecord (R : Type 0) : Type 0 where
  pub result_id : ℕ
  pub created_at : ℕ
  pub strategy_name : String
  pub symbol : String
  pub interval : String
  pub start_date : String
  pub end_date : String
  pub result : R

pub record ResultStore (R D : Type 0) : Type 0 where
  pub max_results : ℕ
  pub database : Option D
  pub records : Table (ResultRecord R)

module _ {R : Type 0} where
  unfoldable pub has_result : ℕ → Table (ResultRecord R) → Bool
  has_result i [] = false
  has_result i ((k, r) ∷ d) = (k == i) || has_result i d

  abbrev pub record_values : Table (ResultRecord R) → List (ResultRecord R)
  record_values [] = []
  record_values ((k, r) ∷ d) = r ∷ record_values d

  -- `sorted(records, key=created_at)`, which is stable.
  unfoldable pub insort_record : ResultRecord R → List (ResultRecord R) → List (ResultRecord R)
  insort_record r [] = r ∷ []
  insort_record r (s ∷ ss) =
      if leb r.created_at s.created_at then r ∷ s ∷ ss else s ∷ insort_record r ss

  unfoldable pub oldest_first : List (ResultRecord R) → List (ResultRecord R)
  unfolding insort_record
  oldest_first [] = []
  oldest_first (r ∷ rs) = insort_record r (oldest_first rs)

  -- The loop over the records from the oldest on.
  unfoldable pub evict_oldest :
      ℕ → List (ResultRecord R) → Table (ResultRecord R) → Table (ResultRecord R)
  evict_oldest max_results [] records = records
  evict_oldest max_results (r ∷ rs) records =
      let popped = evict_oldest max_results rs (erase r.result_id records) in
      if leb (length records) max_results then records else popped

  unfoldable pub enforce_max_results : ℕ → Table (ResultRecord R) → Table (ResultRecord R)
  unfolding evict_oldest oldest_first
  enforce_max_results max_results records =
      if leb (length records) max_results
      then records
      else evict_oldest max_results (oldest_first (record_values records)) records

module _ {R : Type 0} ⦃fields : Fields R⦄ where
  unfoldable pub record_from_result : ℕ → ℕ → R → ResultRecord R
  record_from_result result_id now result = record {
    result_id = result_id;
    created_at = now;
    strategy_name = fields.text "strategy_name" result;
    symbol = fields.text "symbol" result;
    interval = fields.text "interval" result;
    start_date = fields.text "start_date" result;
    end_date = fields.text "end_date" result;
    result = result;
  }

module _ {R D : Type 0} where
  unfoldable pub new_store : ℤ → Option D → ResultStore R D
  new_store max_results database = record {
    max_results = at_least_one max_results;
    database = database;
    records = [];
  }

-- The database after the deletion, and whether the result was there or in memory.
unfoldable pub delete_persisted :
    (R : Type 0) {D : Type 0} → ⦃repo : Repository R D⦄ → ℕ → Bool → Option D → Option D × Bool
delete_persisted R result_id existed none = (none, existed)
delete_persisted R ⦃repo = repo⦄ result_id existed (some db) =
    let (db', deleted) = repo.delete result_id db in (some db', deleted || existed)

module _ {R D : Type 0} ⦃fields : Fields R⦄ ⦃repo : Repository R D⦄ where
  unfoldable pub persist : ℕ → R → Option D → Option D
  persist result_id result none = none
  persist result_id result (some db) = some (repo.save result_id result db)

  unfoldable pub save : ResultStore R D → ℕ → ℕ → R → ResultStore R D
  unfolding record_from_result enforce_max_results persist
  save store result_id now result =
      let r = record_from_result result_id now result in
      record store {
        records = enforce_max_results store.max_results (insert result_id r store.records);
        database = persist result_id result store.database;
      }

  unfoldable pub load_from_sql : ℕ → Option D → Option R
  load_from_sql result_id none = none
  load_from_sql result_id (some db) = repo.get result_id db

  unfoldable pub found_or_loaded : ℕ → Option D → Option (ResultRecord R) → Option R
  unfolding load_from_sql
  found_or_loaded result_id database (some r) = some r.result
  found_or_loaded result_id database none = load_from_sql result_id database

  unfoldable pub get : ResultStore R D → ℕ → Option R
  unfolding found_or_loaded
  get store result_id = found_or_loaded result_id store.database (lookup result_id store.records)

  unfoldable pub delete : ResultStore R D → ℕ → ResultStore R D × Bool
  unfolding delete_persisted has_result
  delete store result_id =
      let existed = has_result result_id store.records in
      let (database, removed) = delete_persisted R result_id existed store.database in
      (record store { records = erase result_id store.records; database = database }, removed)
