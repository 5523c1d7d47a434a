-- ===== src/Common/Names.antt =====
-- Distinct names in the order of their first appearance.
use Prim.Native.String.{String}
use mathlib.Core.Bool.{Bool, false, ◌||◌}
use mathlib.Core.List.{List, [], ◌∷◌}
use finbar.Common.Tests.{if◌then◌else◌}
use finbar.Common.Dict.{str_eq}

-- `column in columns`
unfoldable pub has_column : String → List String → Bool
has_column c [] = false
has_column c (d ∷ ds) = str_eq d c || has_column c ds

unfoldable pub append_column : String → List String → List String
append_column c [] = c ∷ []
append_column c (d ∷ ds) = d ∷ append_column c ds

unfoldable pub add_column : String → List String → List String
unfolding append_column has_column
add_column c columns = if has_column c columns then columns else append_column c columns

unfoldable pub add_columns : List String → List String → List String
add_columns [] columns = columns
add_columns (c ∷ cs) columns = add_columns cs (add_column c columns)
