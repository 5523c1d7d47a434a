-- ===== src/Strategy/ParameterTests.antt =====
-- Parameters of a strategy, and the theorems at them.
use finbar.Common.{true, [], ◌∷◌, ◌≡◌, refl, ℤ, pos}
use finbar.Common.Dict.{Dict, get_key}
use finbar.Simulation.Sample.{whole}
use finbar.Strategy.Values.{Json, num, text, obj, end, member}
use finbar.Strategy.Parser.{field_of, text_field}
use finbar.Strategy.Parameters.{
  Builtins, type_of, value_matches_type, parse_bound, bounds_invalid, validate_range, parse_one,
  parse_parameters, apply_overrides,
}
use finbar.Strategy.Parameters.Declared.{IsTyped, IsWithin}
use finbar.Strategy.Parameters.Resolved.{Related, apply_overrides-IsTyped, apply_overrides-IsWithin}
use finbar.Strategy.Sample.{plain_texts}

abbrev plain_builtins : Builtins ℤ
plain_builtins = record { lower = λ s. s; is_int = λ x. true; as_float = λ x. x }

-- `{"period": {"type": "int", "default": 10, "minimum": 5, "maximum": 20}}`
abbrev declared : Json ℤ
declared = obj (
    member "period"
      (obj (
        member "type" (text "int") (
          member "default" (num (pos 10))
            (member "minimum" (num (pos 5)) (member "maximum" (num (pos 20)) end)))))
      end)

-- The second override is above the maximum.
abbrev overrides : Dict (Json ℤ)
overrides = ("period", num (pos 15)) ∷ ("period", num (pos 50)) ∷ []

declared_silent : (parse_parameters plain_builtins declared).1 ≡ []
unfolding parse_parameters parse_one type_of text_field value_matches_type field_of parse_bound
    bounds_invalid validate_range
declared_silent = refl

apply_overrides-IsTyped_example :
    Related
      (IsTyped plain_builtins)
      (get_key "period" (parse_parameters plain_builtins declared).0)
      (get_key "period"
        (apply_overrides plain_builtins (parse_parameters plain_builtins declared).0 overrides).0)
apply_overrides-IsTyped_example = apply_overrides-IsTyped plain_builtins declared overrides "period"

apply_overrides-IsWithin_example :
    Related
      (IsWithin plain_builtins)
      (get_key "period" (parse_parameters plain_builtins declared).0)
      (get_key "period"
        (apply_overrides plain_builtins (parse_parameters plain_builtins declared).0 overrides).0)
apply_overrides-IsWithin_example =
    apply_overrides-IsWithin plain_builtins declared overrides "period" declared_silent
