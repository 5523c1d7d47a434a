-- ===== src/Strategy/Parameters/Declared.antt =====
-- What the declared parameters of a strategy have as their defaults.
use finbar.Common.{
  String, Bool, true, not, ◌&&◌, Bool-cases, Option, none, some, [], ◌∷◌, ◌++◌, ◌≡◌, refl, arith,
  inl, inr, ◌⊎◌,
}
use finbar.Common.Dict.{Dict, get_key, set_key, str_eq, get_key-set_key}
use finbar.Simulation.Number.{Number, lt}
use finbar.Strategy.Values.{Json, null, flag, num, text, arr, obj, Fields, end, member, Texts}
use finbar.Strategy.Parser.{Location, name, Errors, make_error, field_of, text_field}
use finbar.Strategy.Parameters.{
  ParameterType, StrategyParameter, Builtins, type_of, value_matches_type, validate_range,
  parse_bounded, parse_typed, parse_one, parse_fields, bounds_invalid, parse_bound, path_of,
}

++-eq-nil : (xs ys : Errors) → xs ++ ys ≡ [] → (xs ≡ []) × (ys ≡ [])
++-eq-nil [] ys h = (refl, h)
++-eq-nil (e ∷ es) ys h = cc

module _ {F : Type 0} where
  -- A parameter, if it is there, is in the relation with its default.
  abbrev pub Defaulted :
      (StrategyParameter F → Json F → Type 0) → Option (StrategyParameter F) → Type 0
  Defaulted Q none = Unit
  Defaulted Q (some p) = Q p p.default

  set_key-Defaulted :
      (Q : StrategyParameter F → Json F → Type 0) (n m : String) (p : StrategyParameter F)
      (params : Dict (StrategyParameter F))
      → Q p p.default
      → Defaulted Q (get_key n params)
      → Defaulted Q (get_key n (set_key m p params))
  set_key-Defaulted Q n m p params good h = elim (Bool-cases (str_eq m n)) [
    | inl same ↦ rw (get_key-set_key m n p params, same) good
    | inr differ ↦ rw (get_key-set_key m n p params, differ) h
  ]

  -- The value lies within the bounds, if it is a number.
  abbrev within_bounds : ⦃number : Number F⦄ → StrategyParameter F → Json F → Bool
  within_bounds p (num x) = not_below x p.minimum && not_above x p.maximum
    where
      not_below : F → Option F → Bool
      not_below x none = true
      not_below x (some low) = not (lt x low)

      not_above : F → Option F → Bool
      not_above x none = true
      not_above x (some high) = not (lt high x)
  within_bounds p _ = true

module _ {F : Type 0} ⦃number : Number F⦄ ⦃texts : Texts F⦄ (builtins : Builtins F) where
  pub validate_range-within_bounds :
      (p : StrategyParameter F) (v : Json F) (path : Location)
      → validate_range v p.minimum p.maximum path ≡ []
      → within_bounds p v ≡ true
  unfolding validate_range make_error
  validate_range-within_bounds p v path h = ground arith

  -- A declaration is refused, or adds a parameter whose default has its type, and lies within its
  -- bounds if no error is reported.
  abbrev Declared :
      String → Dict (StrategyParameter F) → Dict (StrategyParameter F) × Errors → Type 0
  Declared m params (held, errors) =
      (held ≡ params)
      ⊎ ((p : StrategyParameter F) × (held ≡ set_key m p params)
          × (value_matches_type builtins p.default p.parameter_type ≡ true)
          × (errors ≡ [] → within_bounds p p.default ≡ true))

  parse_bounded-Declared :
      (m : String) (type : ParameterType) (spec : Fields F) (params : Dict (StrategyParameter F))
      → value_matches_type builtins (field_of "default" spec) type ≡ true
      → Declared m params (parse_bounded builtins m type spec params)
  unfolding parse_bounded
  parse_bounded-Declared m type spec params typed =
      let (low, lows) =
        parse_bound builtins (field_of "minimum" spec) (name "minimum" ∷ path_of m) in
      let (high, highs) =
        parse_bound builtins (field_of "maximum" spec) (name "maximum" ∷ path_of m) in
      let p : StrategyParameter F = record {
        parameter_name = m;
        parameter_type = type;
        default = field_of "default" spec;
        minimum = low;
        maximum = high;
        description = text_field "description" spec;
      } in
      elim (Bool-cases (bounds_invalid low high)) [
        | inl crossed ↦ inl (rw crossed refl)
        | inr apart ↦ inr (
          p,
          rw apart refl,
          typed,
          λ silent.
              validate_range-within_bounds p p.default (name "default" ∷ path_of m)
                (++-eq-nil highs _ (++-eq-nil lows _ (rw apart at silent)).1).1,
        )
      ]

  parse_one-Declared :
      (m : String) (spec : Json F) (params : Dict (StrategyParameter F))
      → Declared m params (parse_one builtins m spec params)
  unfolding parse_one parse_typed
  parse_one-Declared m (obj spec) params =
      by_type (type_of (builtins.lower (text_field "type" spec)))
    where
      by_type :
          (type : Option ParameterType)
          → Declared m params (parse_typed builtins type m spec params)
      by_type none = inl refl
      by_type (some type) =
          elim (Bool-cases (value_matches_type builtins (field_of "default" spec) type)) [
            | inl typed ↦ rw typed (parse_bounded-Declared m type spec params typed)
            | inr differs ↦ inl (rw differs refl)
          ]
  parse_one-Declared m null params = inl refl
  parse_one-Declared m (flag b) params = inl refl
  parse_one-Declared m (num x) params = inl refl
  parse_one-Declared m (text s) params = inl refl
  parse_one-Declared m (arr xs) params = inl refl

  abbrev pub IsTyped : StrategyParameter F → Json F → Type 0
  IsTyped p v = value_matches_type builtins v p.parameter_type ≡ true

  abbrev pub IsWithin : StrategyParameter F → Json F → Type 0
  IsWithin p v = within_bounds p v ≡ true

  pub parse_fields-IsTyped :
      (n : String) (fs : Fields F) (params : Dict (StrategyParameter F))
      → Defaulted IsTyped (get_key n params)
      → Defaulted IsTyped (get_key n (parse_fields builtins fs params).0)
  unfolding parse_fields
  parse_fields-IsTyped n end params h = h
  parse_fields-IsTyped n (member m spec fs) params h =
      parse_fields-IsTyped n fs (parse_one builtins m spec params).0
        (elim (parse_one-Declared m spec params) [
          | inl same ↦ rw same h
          | inr (p, added, typed, within) ↦
              rw added (set_key-Defaulted IsTyped n m p params typed h)
        ])

  pub parse_fields-IsWithin :
      (n : String) (fs : Fields F) (params : Dict (StrategyParameter F))
      → (parse_fields builtins fs params).1 ≡ []
      → Defaulted IsWithin (get_key n params)
      → Defaulted IsWithin (get_key n (parse_fields builtins fs params).0)
  unfolding parse_fields
  parse_fields-IsWithin n end params silent h = h
  parse_fields-IsWithin n (member m spec fs) params silent h =
      let held = (parse_one builtins m spec params).0 in
      let (first, others) =
        ++-eq-nil (parse_one builtins m spec params).1 (parse_fields builtins fs held).1 silent in
      parse_fields-IsWithin n fs held others (elim (parse_one-Declared m spec params) [
        | inl same ↦ rw same h
        | inr (p, added, typed, within) ↦
            rw added (set_key-Defaulted IsWithin n m p params (within first) h)
      ])
