-- ===== src/Strategy/Parameters/Resolved.antt =====
-- What the values of the parameters of a strategy are once the overrides are applied.
use finbar.Common.{String, Bool-cases, Option, none, some, [], ◌∷◌, ◌≡◌, refl, arith, inl, inr}
use finbar.Common.Dict.{Dict, eq_iff, get_key, str_eq, get_key-set_key}
use finbar.Simulation.Number.{Number}
use finbar.Strategy.Values.{Json, null, flag, num, text, arr, obj, Texts}
use finbar.Strategy.Parser.{Location, Errors, make_error}
use finbar.Strategy.Parameters.{
  StrategyParameter, Builtins, value_matches_type, parse_parameters, defaults, override_errors,
  accept, apply_one, apply_each, apply_overrides,
}
use finbar.Strategy.Parameters.Declared.{
  Defaulted, IsTyped, IsWithin, parse_fields-IsTyped, parse_fields-IsWithin,
  validate_range-within_bounds,
}

module _ {F : Type 0} where
  -- A parameter and its value, both there or both missing, are in the relation.
  abbrev pub Related :
      (StrategyParameter F → Json F → Type 0)
      → Option (StrategyParameter F)
      → Option (Json F)
      → Type 0
  Related Q none none = Unit
  Related Q none (some v) = ⊥
  Related Q (some p) none = ⊥
  Related Q (some p) (some v) = Q p v

  defaults-Related :
      (Q : StrategyParameter F → Json F → Type 0) (n : String) (params : Dict (StrategyParameter F))
      → Defaulted Q (get_key n params)
      → Related Q (get_key n params) (get_key n (defaults params))
  unfolding get_key defaults
  defaults-Related Q n [] h = tt
  defaults-Related Q n ((m, p) ∷ params) h = elim (Bool-cases (str_eq m n)) [
    | inl same ↦ rw same (rw same at h)
    | inr differ ↦ rw differ (defaults-Related Q n params (rw differ at h))
  ]

module _ {F : Type 0} ⦃number : Number F⦄ ⦃texts : Texts F⦄ (builtins : Builtins F) where
  module _ (Q : StrategyParameter F → Json F → Type 0)
      (accepts : (p : StrategyParameter F) (v : Json F) (path : Location)
        → override_errors builtins p v path ≡ []
        → Q p v) where
    accept-Related :
        (n m : String) (p : StrategyParameter F) (v : Json F) (params : Dict (StrategyParameter F))
        (resolved : Dict (Json F)) (errors : Errors)
        → get_key m params ≡ some p
        → (errors ≡ [] → Q p v)
        → Related Q (get_key n params) (get_key n resolved)
        → Related Q (get_key n params) (get_key n (accept builtins errors m v resolved))
    unfolding accept
    accept-Related n m p v params resolved [] found good h = elim (Bool-cases (str_eq m n)) [
      | inl same ↦
          let e : m ≡ n = grind (arith, eq_iff) in
          rw (get_key-set_key m n v resolved, same, ← e, found) (good refl)
      | inr differ ↦ rw (get_key-set_key m n v resolved, differ) h
    ]
    accept-Related n m p v params resolved (e ∷ es) found good h = h

    apply_one-Related :
        (n m : String) (v : Json F) (params : Dict (StrategyParameter F)) (resolved : Dict (Json F))
        → Related Q (get_key n params) (get_key n resolved)
        → Related Q
            (get_key n params)
            (get_key n (apply_one builtins (get_key m params) m v resolved).0)
    unfolding apply_one
    apply_one-Related n m v params resolved h = by_parameter (get_key m params) refl
      where
        by_parameter :
            (p : Option (StrategyParameter F))
            → get_key m params ≡ p
            → Related Q (get_key n params) (get_key n (apply_one builtins p m v resolved).0)
        by_parameter none found = h
        by_parameter (some p) found =
            accept-Related n m p v params resolved (override_errors builtins p v _) found
              (accepts p v _) h

    apply_each-Related :
        (n : String) (params : Dict (StrategyParameter F)) (overrides resolved : Dict (Json F))
        → Related Q (get_key n params) (get_key n resolved)
        → Related Q (get_key n params) (get_key n (apply_each builtins params overrides resolved).0)
    unfolding apply_each
    apply_each-Related n params [] resolved h = h
    apply_each-Related n params ((m, v) ∷ overrides) resolved h =
        apply_each-Related n params overrides (apply_one builtins (get_key m params) m v resolved).0
          (apply_one-Related n m v params resolved h)

  override_errors-IsTyped :
      (p : StrategyParameter F) (v : Json F) (path : Location)
      → override_errors builtins p v path ≡ []
      → IsTyped builtins p v
  unfolding override_errors make_error
  override_errors-IsTyped p v path silent =
      elim (Bool-cases (value_matches_type builtins v p.parameter_type)) [
        | inl typed ↦ typed
        | inr differs ↦ cc
      ]

  override_errors-IsWithin :
      (p : StrategyParameter F) (v : Json F) (path : Location)
      → override_errors builtins p v path ≡ []
      → IsWithin builtins p v
  unfolding override_errors make_error
  override_errors-IsWithin p v path silent =
      elim (Bool-cases (value_matches_type builtins v p.parameter_type)) [
        | inl typed ↦ validate_range-within_bounds builtins p v path (rw typed at silent)
        | inr differs ↦ cc
      ]

  -- Whatever is declared and overridden, a name has a value exactly when it is a declared
  -- parameter, and the value is of the parameter's type.
  pub apply_overrides-IsTyped :
      (raw : Json F) (overrides : Dict (Json F)) (n : String)
      → Related
          (IsTyped builtins)
          (get_key n (parse_parameters builtins raw).0)
          (get_key n (apply_overrides builtins (parse_parameters builtins raw).0 overrides).0)
  unfolding apply_overrides parse_parameters get_key
  apply_overrides-IsTyped raw overrides n =
      apply_each-Related (IsTyped builtins) override_errors-IsTyped n
        (parse_parameters builtins raw).0 overrides (defaults (parse_parameters builtins raw).0)
        (defaults-Related (IsTyped builtins) n (parse_parameters builtins raw).0 (parsed raw))
    where
      parsed :
          (j : Json F) → Defaulted (IsTyped builtins) (get_key n (parse_parameters builtins j).0)
      parsed (obj fs) = parse_fields-IsTyped builtins n fs [] tt
      parsed null = tt
      parsed (flag b) = tt
      parsed (num x) = tt
      parsed (text s) = tt
      parsed (arr xs) = tt

  -- Where the declarations are read without an error, every value lies within the bounds of its
  -- parameter, whatever the overrides are: one that does not is refused.
  pub apply_overrides-IsWithin :
      (raw : Json F) (overrides : Dict (Json F)) (n : String)
      → (parse_parameters builtins raw).1 ≡ []
      → Related
          (IsWithin builtins)
          (get_key n (parse_parameters builtins raw).0)
          (get_key n (apply_overrides builtins (parse_parameters builtins raw).0 overrides).0)
  unfolding apply_overrides parse_parameters get_key
  apply_overrides-IsWithin raw overrides n silent =
      apply_each-Related (IsWithin builtins) override_errors-IsWithin n
        (parse_parameters builtins raw).0 overrides (defaults (parse_parameters builtins raw).0)
        (defaults-Related (IsWithin builtins) n (parse_parameters builtins raw).0
          (parsed raw silent))
    where
      parsed :
          (j : Json F)
          → (parse_parameters builtins j).1 ≡ []
          → Defaulted (IsWithin builtins) (get_key n (parse_parameters builtins j).0)
      parsed (obj fs) silent' = parse_fields-IsWithin builtins n fs [] silent' tt
      parsed null silent' = tt
      parsed (flag b) silent' = tt
      parsed (num x) silent' = tt
      parsed (text s) silent' = tt
      parsed (arr xs) silent' = tt
