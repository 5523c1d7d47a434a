-- ===== src/Artifacts.antt =====
-- The pages and the metadata of indicator artifacts, the functions at the end of
-- finbar/infrastructure/services/in_memory_indicator_job_manager.py. Bars are dicts of JSON values.
pub mod Pages
pub mod Cover
pub mod Metadata
mod Tests
use finbar.Common.{
  ℕ, suc, ◌+◌, ◌-◌, ◌/◌, String, Bool, true, false, not, ◌&&◌, ◌||◌, Option, none, some, List, [],
  ◌∷◌, if◌then◌else◌, ℤ, pos, negsuc, ◌+ℤ◌, ◌*ℤ◌, leb_ℤ, leb, ◌==◌,
}
use finbar.Common.Dict.{Dict, get_key, set_key, str_eq, str_lt}
use finbar.Strategy.Values.{Json, Texts, read}

-- What `_page_bars` returns.
pub record BarPage (F : Type 0) : Type 0 where
  pub rows : List (Dict (Json F))
  pub page : ℕ
  pub page_size : ℕ
  pub total_pages : ℕ
  pub total : ℕ
  pub columns : List String

-- `max(1, min(page_size, 1000))`
unfoldable pub clamp_size : ℤ → ℕ
clamp_size (pos n) = if n == 0 then 1 else if leb n 1000 then n else 1000
clamp_size (negsuc n) = 1

-- `total >= start_idx and total < end_idx`
unfoldable pub in_page : ℤ → ℕ → ℕ → Bool
in_page page page_size total =
    let start_idx = page *ℤ pos page_size in
    leb_ℤ start_idx (pos total) && not (leb_ℤ (start_idx +ℤ pos page_size) (pos total))

-- `start_date and timestamp < start_date`
unfoldable pub is_before : Option String → String → Bool
is_before none timestamp = false
is_before (some start) timestamp = not (str_eq start "") && str_lt timestamp start

-- `end_date and timestamp > end_date`
unfoldable pub is_after : Option String → String → Bool
is_after none timestamp = false
is_after (some end) timestamp = not (str_eq end "") && str_lt end timestamp

unfoldable pub total_pages_of : ℕ → ℕ → ℕ
total_pages_of total page_size = if total == 0 then 0 else (total + page_size - 1) / page_size

-- `max(0, min(page, total_pages - 1)) if total_pages else 0`
unfoldable pub clamp_page : ℤ → ℕ → ℕ
clamp_page (pos p) total_pages = if leb p (total_pages - 1) then p else total_pages - 1
clamp_page (negsuc p) total_pages = 0

-- `if columns: selected_columns = list(columns)`
unfoldable pub given_columns : List String → Option (List String)
given_columns [] = none
given_columns (c ∷ cs) = some (c ∷ cs)

abbrev pub columns_or : Option (List String) → List String → List String
columns_or none other = other
columns_or (some columns) other = columns

module _ {F : Type 0} where
  unfoldable pub keys_of : Dict (Json F) → List String
  keys_of [] = []
  keys_of ((k, v) ∷ bar) = k ∷ keys_of bar

  project_onto : Dict (Json F) → List String → Dict (Json F) → Dict (Json F)
  project_onto bar [] row = row
  project_onto bar (c ∷ cs) row = project_onto bar cs (set_key c (read bar c) row)

  unfoldable pub project_bar : Dict (Json F) → List String → Dict (Json F)
  unfolding project_onto
  project_bar bar columns = project_onto bar columns []

module _ {F : Type 0} ⦃texts : Texts F⦄ where
  -- `str(bar.get("timestamp", ""))`
  unfoldable pub timestamp_of : Dict (Json F) → String
  timestamp_of bar = elim (get_key "timestamp" bar) [ none ↦ "" | some v ↦ texts.show v ]

module _ {F : Type 0} ⦃texts : Texts F⦄ (start_date end_date : Option String) where
  unfoldable pub is_excluded : Dict (Json F) → Bool
  unfolding timestamp_of
  is_excluded bar = is_before start_date (timestamp_of bar) || is_after end_date (timestamp_of bar)

  -- `_filter_bars`
  unfoldable pub filter_bars : List (Dict (Json F)) → List (Dict (Json F))
  filter_bars [] = []
  filter_bars (bar ∷ bars) =
      let rest = filter_bars bars in if is_excluded bar then rest else bar ∷ rest

  -- The loop of `_page_bars`, from given values of `selected_columns` and `total` on: the rows that it
  -- appends, and the values at its end.
  unfoldable pub page_loop :
      ℤ
      → ℕ
      → Option (List String)
      → ℕ
      → List (Dict (Json F))
      → List (Dict (Json F)) × ℕ × Option (List String)
  unfolding in_page
  page_loop page page_size selected total [] = ([], total, selected)
  page_loop page page_size selected total (bar ∷ bars) =
      let columns = columns_or selected (keys_of bar) in
      let skipped = page_loop page page_size selected total bars in
      let (rows, end_total, end_selected) =
        page_loop page page_size (some columns) (total + 1) bars in
      if is_excluded bar then skipped else (
        if in_page page page_size total then project_bar bar columns ∷ rows else rows,
        end_total,
        end_selected,
      )

  unfoldable pub page_bars : List (Dict (Json F)) → List String → ℤ → ℤ → BarPage F
  unfolding page_loop given_columns clamp_size total_pages_of clamp_page
  page_bars bars columns page page_size =
      let size = clamp_size page_size in
      let (rows, total, selected) = page_loop page size (given_columns columns) 0 bars in
      let total_pages = total_pages_of total size in
      record {
        rows = rows;
        page = if total_pages == 0 then 0 else clamp_page page total_pages;
        page_size = size;
        total_pages = total_pages;
        total = total;
        columns = columns_or selected [];
      }
