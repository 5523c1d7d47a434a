-- ===== src/Common/Dict.antt =====
-- A Python dict keyed by texts, as an association list in insertion order.
use Prim.Native.String.{String, compare}
use mathlib.Core.Path.{◌≡◌, refl}
use mathlib.Core.Option.{Option, none, some}
use mathlib.Core.Bool.{Bool}
use mathlib.Core.List.{List, [], ◌∷◌}
use native.Mathlib.Omega.{arith}
pub use text.Mathlib.TextEquality.{eq_iff}
use finbar.Common.Tests.{if◌then◌else◌}
use text.Mathlib.Text.{is_lt}
unfoldable pub use text.Mathlib.Text.{◌==◌ as str_eq}

-- `s < t`
abbrev pub str_lt : String → String → Bool
str_lt s t = is_lt (compare s t)

abbrev pub Dict {ℓ} : Type ℓ → Type ℓ
Dict V = List (String × V)

module _ {ℓ} {V : Type ℓ} where
  -- `d.get(k)`
  unfoldable pub get_key : String → Dict V → Option V
  get_key k [] = none
  get_key k ((j, v) ∷ d) = if str_eq j k then some v else get_key k d

  -- `d[k] = v`
  unfoldable pub set_key : String → V → Dict V → Dict V
  set_key k v [] = (k, v) ∷ []
  set_key k v ((j, w) ∷ d) = if str_eq j k then (j, v) ∷ d else (j, w) ∷ set_key k v d

  -- `d.update(e)`. A new key may come in another place, which no lookup shows.
  unfoldable pub merge : Dict V → Dict V → Dict V
  merge d [] = d
  merge d ((k, v) ∷ e) = set_key k v (merge d e)

  pub get_key-set_key :
      (k j : String) (v : V) (d : Dict V)
      → get_key j (set_key k v d) ≡ (if str_eq k j then some v else get_key j d)
  unfolding get_key set_key
  get_key-set_key k j v [] = refl
  get_key-set_key k j v ((i, w) ∷ d) =
      ground (arith, eq_iff i k, eq_iff i j, eq_iff k j, get_key-set_key k j v d)

  pub get_key-merge :
      (k : String) (v : V) (d e : Dict V) → get_key k e ≡ some v → get_key k (merge d e) ≡ some v
  unfolding get_key merge
  get_key-merge k v d [] held = cc
  get_key-merge k v d ((i, w) ∷ e) held =
      ground (arith, get_key-set_key i k w (merge d e), get_key-merge k v d e)
