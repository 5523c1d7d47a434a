-- ===== src/Strategy/Parser/Operands.antt =====
-- StrategyOperandParser and the helpers of the parsers
-- (finbar_strategy_runtime/parser/{strategy_operand_parser,strategy_definition_parse_helpers}.py).
-- The list of errors that the source appends to is returned.
use finbar.Common.{ℕ, String, Bool, ◌||◌, Option, none, some, List, [], ◌∷◌, ◌++◌, if◌then◌else◌}
use finbar.Common.Dict.{Dict, get_key, str_eq}
use finbar.Simulation.Number.{Number, nought}
use finbar.Strategy.Values.{
  Json, null, flag, num, text, arr, obj, Items, nil, cons, Texts, Operand, OperandKind, price_field,
  indicator, feature, column, literal, GroupKind,
}

-- A part of a path such as `$.sides.long.entry.all[0].left`.
pub data Step : Type 0 where
  name : String → Step
  index : ℕ → Step

-- A path, its last part first.
abbrev pub Location : Type 0
Location = List Step

-- The StrategyValidationErrors, by their messages.
pub data Problem : Type 0 where
  not_an_object : Problem
  empty_array : GroupKind → Problem
  unsupported_operator : String → Problem
  operand_required : Problem
  unknown_operand : String → Problem
  unknown_parameter : String → Problem
  parameters_not_an_object : Problem
  unsupported_type : Problem
  default_mismatch : Problem
  bound_not_numeric : Problem
  bounds_crossed : Problem
  unknown_override : Problem
  override_mismatch : Problem
  below_minimum : Problem
  above_maximum : Problem

pub record StrategyValidationError : Type 0 where
  pub path : Location
  pub problem : Problem

abbrev pub Errors : Type 0
Errors = List StrategyValidationError

unfoldable pub make_error : Location → Problem → Errors
make_error path problem = record { path = path; problem = problem } ∷ []

-- `text.strip()`, the name in a reference `{{ name }}` that PARAM_RE matches, and the catalogue's
-- `supports_concrete`.
pub record Syntax : Type 0 where
  pub strip : String → String
  pub param_name : String → Option String
  pub supports_concrete : String → Bool

-- The names that operands may refer to.
pub record Scope (F : Type 0) : Type 0 where
  pub aliases : Dict String
  pub sources_map : Dict (List String)
  pub feature_aliases : Dict String
  pub params : Dict (Json F)

unfoldable pub is_ohlcv : String → Bool
is_ohlcv s =
    str_eq s "timestamp"
    || (str_eq s "open"
        || (str_eq s "high" || (str_eq s "low" || (str_eq s "close" || str_eq s "volume"))))

module _ {F : Type 0} ⦃number : Number F⦄ ⦃texts : Texts F⦄ (syntax : Syntax)
    (scope : Scope F) where
  param_value : Option (Json F) → String → Location → Json F × Errors
  param_value none p path = (null, make_error path (unknown_parameter p))
  param_value (some v) p path = (v, [])

  reference_or : Option String → Json F → Location → Json F × Errors
  reference_or none v path = (v, [])
  reference_or (some p) v path = param_value (get_key p scope.params) p path

  unfoldable mutual
    unfolding reference_or param_value make_error

    pub resolve_expression : Json F → Location → Json F × Errors
    resolve_expression (arr xs) path =
        let (items, errors) = resolve_items xs path in (arr items, errors)
    resolve_expression (text s) path = reference_or (syntax.param_name s) (text s) path
    resolve_expression v path = (v, [])

    pub resolve_items : Items F → Location → Items F × Errors
    resolve_items nil path = (nil, [])
    resolve_items (cons x xs) path =
        let (item, first) = resolve_expression x path in
        let (items, others) = resolve_items xs path in (cons item items, first ++ others)

  abbrev pub named : OperandKind → String → String → List String → Operand F
  named kind value label sources = record {
    kind = kind;
    value = text value;
    label = label;
    sources = sources;
  }

  abbrev pub literal_of : Json F → String → Operand F
  literal_of value label = record { kind = literal; value = value; label = label; sources = [] }

  fallback_of : Option (List String) → List String
  fallback_of none = []
  fallback_of (some sources) = sources

  parse_column : String → Location → Operand F × Errors
  parse_column value path =
      if is_ohlcv value
      then (named price_field value value [], [])
      else if syntax.supports_concrete value
      then (named column value value [], [])
      else (literal_of (num nought) value, make_error path (unknown_operand value))

  parse_feature : Option String → String → Location → Operand F × Errors
  parse_feature none value path = parse_column value path
  parse_feature (some resolved) value path = (named feature resolved value [], [])

  parse_alias : Option String → String → Location → Operand F × Errors
  parse_alias none value path = parse_feature (get_key value scope.feature_aliases) value path
  parse_alias (some resolved) value path =
      (named indicator resolved value (fallback_of (get_key resolved scope.sources_map)), [])

  unfoldable pub parse_named : String → Location → Operand F × Errors
  unfolding parse_alias parse_feature parse_column fallback_of is_ohlcv
  parse_named value = parse_alias (get_key value scope.aliases) value

  typed_operand : Json F → Json F → Location → Operand F × Errors
  typed_operand (num x) raw path = (literal_of (num x) (texts.show raw), [])
  typed_operand (flag b) raw path = (literal_of (flag b) (texts.show raw), [])
  typed_operand (arr xs) raw path = (literal_of (arr xs) (texts.show raw), [])
  typed_operand (text s) raw path = parse_named s path
  typed_operand null raw path =
      (literal_of (num nought) (texts.show raw), make_error path operand_required)
  typed_operand (obj fs) raw path =
      (literal_of (num nought) (texts.show raw), make_error path operand_required)

  unfoldable pub parse_operand : Json F → Location → Operand F × Errors
  unfolding resolve_expression typed_operand
  parse_operand raw path =
      let (value, errors) = resolve_expression raw path in
      let (operand, others) = typed_operand value raw path in (operand, errors ++ others)
