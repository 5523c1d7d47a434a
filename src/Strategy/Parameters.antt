-- ===== src/Strategy/Parameters.antt =====
-- StrategyParameterResolver (finbar_strategy_runtime/parser/strategy_parameter_resolver.py) and
-- StrategyParameter. The list of errors that the source appends to is returned.
pub mod Declared
pub mod Resolved
use finbar.Common.{
  String, Bool, true, false, Option, none, some, List, [], ◌∷◌, ◌++◌, if◌then◌else◌,
}
use finbar.Common.Dict.{Dict, get_key, set_key, str_eq}
use finbar.Simulation.Number.{Number, lt, le}
use finbar.Strategy.Values.{Json, null, flag, num, text, arr, obj, Fields, end, member, Texts}
use finbar.Strategy.Parser.{
  Location, name, Errors, make_error, not_an_object, parameters_not_an_object, unsupported_type,
  default_mismatch, bound_not_numeric, bounds_crossed, unknown_override, override_mismatch,
  below_minimum, above_maximum, field_of, text_field,
}

-- PARAMETER_TYPES
pub data ParameterType : Type 0 where
  int : ParameterType
  float : ParameterType
  bool : ParameterType
  string : ParameterType

pub record StrategyParameter (F : Type 0) : Type 0 where
  pub parameter_name : String
  pub parameter_type : ParameterType
  pub default : Json F
  pub minimum : Option F
  pub maximum : Option F
  pub description : String

-- `text.lower()`, and of a number `isinstance(x, int)` and `float(x)`.
pub record Builtins (F : Type 0) : Type 0 where
  pub lower : String → String
  pub is_int : F → Bool
  pub as_float : F → F

unfoldable pub type_of : String → Option ParameterType
type_of s =
    if str_eq s "int"
    then some int
    else if str_eq s "float"
    then some float
    else if str_eq s "bool"
    then some bool
    else if str_eq s "string"
    then some string
    else none

abbrev path_of : String → Location
path_of n = name n ∷ name "parameters" ∷ []

module _ {F : Type 0} where
  -- `{name: param.default for name, param in params.items()}`
  unfoldable pub defaults : Dict (StrategyParameter F) → Dict (Json F)
  defaults [] = []
  defaults ((n, p) ∷ params) = (n, p.default) ∷ defaults params

module _ {F : Type 0} ⦃number : Number F⦄ where
  -- `_bounds_invalid`
  unfoldable pub bounds_invalid : Option F → Option F → Bool
  bounds_invalid (some low) (some high) = if le low high then false else true
  bounds_invalid _ _ = false

  check_minimum : F → Option F → Location → Errors
  check_minimum x none path = []
  check_minimum x (some low) path = if lt x low then make_error path below_minimum else []

  check_maximum : F → Option F → Location → Errors
  check_maximum x none path = []
  check_maximum x (some high) path = if lt high x then make_error path above_maximum else []

  unfoldable pub validate_range : Json F → Option F → Option F → Location → Errors
  unfolding check_minimum check_maximum make_error
  validate_range (num x) low high path = check_minimum x low path ++ check_maximum x high path
  validate_range _ low high path = []

module _ {F : Type 0} ⦃number : Number F⦄ ⦃texts : Texts F⦄ (builtins : Builtins F) where
  unfoldable pub value_matches_type : Json F → ParameterType → Bool
  value_matches_type (flag b) bool = true
  value_matches_type (num x) int = builtins.is_int x
  value_matches_type (num x) float = true
  value_matches_type (text s) string = true
  value_matches_type _ _ = false

  -- `_parse_bound`
  unfoldable pub parse_bound : Json F → Location → Option F × Errors
  unfolding make_error
  parse_bound null path = (none, [])
  parse_bound (num x) path = (some (builtins.as_float x), [])
  parse_bound _ path = (none, make_error path bound_not_numeric)

  -- The parameter of a specification whose default has its type.
  parse_bounded :
      String
      → ParameterType
      → Fields F
      → Dict (StrategyParameter F)
      → Dict (StrategyParameter F) × Errors
  parse_bounded n type spec params =
      let default = field_of "default" spec in
      let (low, lows) = parse_bound (field_of "minimum" spec) (name "minimum" ∷ path_of n) in
      let (high, highs) = parse_bound (field_of "maximum" spec) (name "maximum" ∷ path_of n) in
      let ranges = validate_range default low high (name "default" ∷ path_of n) in
      let parameter : StrategyParameter F = record {
        parameter_name = n;
        parameter_type = type;
        default = default;
        minimum = low;
        maximum = high;
        description = text_field "description" spec;
      } in
      if bounds_invalid low high
      then (params, lows ++ (highs ++ make_error (path_of n) bounds_crossed))
      else (set_key n parameter params, lows ++ (highs ++ ranges))

  parse_typed :
      Option ParameterType
      → String
      → Fields F
      → Dict (StrategyParameter F)
      → Dict (StrategyParameter F) × Errors
  parse_typed none n spec params = (params, make_error (name "type" ∷ path_of n) unsupported_type)
  parse_typed (some type) n spec params =
      if value_matches_type (field_of "default" spec) type
      then parse_bounded n type spec params
      else (params, make_error (name "default" ∷ path_of n) default_mismatch)

  unfoldable pub parse_one :
      String → Json F → Dict (StrategyParameter F) → Dict (StrategyParameter F) × Errors
  unfolding parse_typed parse_bounded make_error validate_range
  parse_one n (obj spec) params =
      parse_typed (type_of (builtins.lower (text_field "type" spec))) n spec params
  parse_one n _ params = (params, make_error (path_of n) not_an_object)

  -- The loop over `raw.items()`.
  unfoldable pub parse_fields :
      Fields F → Dict (StrategyParameter F) → Dict (StrategyParameter F) × Errors
  parse_fields end params = (params, [])
  parse_fields (member n spec fs) params =
      let (held, first) = parse_one n spec params in
      let (all_held, others) = parse_fields fs held in (all_held, first ++ others)

  unfoldable pub parse_parameters : Json F → Dict (StrategyParameter F) × Errors
  unfolding parse_fields make_error
  parse_parameters (obj fs) = parse_fields fs []
  parse_parameters _ = ([], make_error (name "parameters" ∷ []) parameters_not_an_object)

  -- `_override_invalid`, by the errors that it appends: the override is invalid if there are any.
  unfoldable pub override_errors : StrategyParameter F → Json F → Location → Errors
  unfolding make_error
  override_errors p value path =
      if value_matches_type value p.parameter_type
      then validate_range value p.minimum p.maximum path
      else make_error path override_mismatch

  accept : Errors → String → Json F → Dict (Json F) → Dict (Json F)
  accept [] n value resolved = set_key n value resolved
  accept (e ∷ es) n value resolved = resolved

  apply_one :
      Option (StrategyParameter F) → String → Json F → Dict (Json F) → Dict (Json F) × Errors
  apply_one none n value resolved =
      (resolved, make_error (name n ∷ name "params" ∷ []) unknown_override)
  apply_one (some p) n value resolved =
      let errors = override_errors p value (name n ∷ name "params" ∷ []) in
      (accept errors n value resolved, errors)

  -- The loop over `overrides.items()`.
  unfoldable pub apply_each :
      Dict (StrategyParameter F) → Dict (Json F) → Dict (Json F) → Dict (Json F) × Errors
  unfolding apply_one accept make_error
  apply_each params [] resolved = (resolved, [])
  apply_each params ((n, value) ∷ overrides) resolved =
      let (held, first) = apply_one (get_key n params) n value resolved in
      let (all_held, others) = apply_each params overrides held in (all_held, first ++ others)

  unfoldable pub apply_overrides :
      Dict (StrategyParameter F) → Dict (Json F) → Dict (Json F) × Errors
  unfolding apply_each defaults
  apply_overrides params overrides = apply_each params overrides (defaults params)
