-- ===== src/Artifacts/Tests.antt =====
-- Pages of a small artifact, and the theorems at them.
use finbar.Common.{◌*◌, ℕ, none, some, List, [], ◌∷◌, ◌≡◌, ℤ, pos, map, take, drop, length, String}
use finbar.Common.Dict.{Dict}
use finbar.Strategy.Values.{Json, num, text}
use finbar.Strategy.Sample.{plain_texts}
use finbar.Artifacts.{project_bar, filter_bars, page_bars, clamp_size}
use finbar.Artifacts.Pages.{shown_columns, page_bars-filter_bars}
use finbar.Artifacts.Cover.{rows_of_pages, rows_of_pages-all}

abbrev bar_of : String → ℕ → Dict (Json ℤ)
bar_of timestamp close = ("timestamp", text timestamp) ∷ ("close", num (pos close)) ∷ []

abbrev bars : List (Dict (Json ℤ))
bars = bar_of "2024-01-01" 10 ∷ bar_of "2024-01-02" 11 ∷ bar_of "2024-01-03" 12 ∷ []

page_bars-filter_bars_example :
    ((page_bars (some "2024-01-02") none bars [] (pos 1) (pos 1)).rows
      ≡ map
          (λ (bar : Dict (Json ℤ)).
            project_bar bar (shown_columns (some "2024-01-02") none [] bars))
          (take
            (clamp_size (pos 1))
            (drop (1 * clamp_size (pos 1)) (filter_bars (some "2024-01-02") none bars))))
    × ((page_bars (some "2024-01-02") none bars [] (pos 1) (pos 1)).total
        ≡ length (filter_bars (some "2024-01-02") none bars))
    × ((page_bars (some "2024-01-02") none bars [] (pos 1) (pos 1)).columns
        ≡ shown_columns (some "2024-01-02") none [] bars)
page_bars-filter_bars_example = page_bars-filter_bars (some "2024-01-02") none bars [] 1 (pos 1)

rows_of_pages-all_example :
    rows_of_pages none none bars
      ("close" ∷ [])
      (pos 2)
      (page_bars none none bars ("close" ∷ []) (pos 0) (pos 2)).total_pages
    ≡ map
        (λ (bar : Dict (Json ℤ)). project_bar bar (shown_columns none none ("close" ∷ []) bars))
        (filter_bars none none bars)
rows_of_pages-all_example = rows_of_pages-all none none bars ("close" ∷ []) (pos 2) 0
