-- ===== src/Strategy/ParserTests.antt =====
-- Conditions that are read from JSON and written back, and the theorems at them.
use finbar.Common.{false, is_ok, none, some, [], ◌≡◌, refl, ℤ, pos, not, ok}
use finbar.Common.Dict.{get_key}
use finbar.Simulation.Sample.{whole}
use finbar.Strategy.Values.{
  Json, num, text, obj, end, member, Operand, price_field, literal, Condition, greater, all, leaf,
  ConditionGroup, group, none_left, child,
}
use finbar.Strategy.Parser.{is_ohlcv, Syntax, Scope, parse}
use finbar.Strategy.Parser.Shape.{IsShaped, parse-IsShaped}
use finbar.Strategy.Serializer.{serialize_group}
use finbar.Strategy.Serializer.Written.{serialize_group-parse, has_not}
use finbar.Strategy.Serializer.RoundTrip.{
  IsOwnName, plain_field, plain_number, IsCanonical, canonical_all, canonical_leaf, one_canonical,
  all_read, serialize_group-round_trip,
}
use finbar.Strategy.Sample.{plain_texts}

abbrev plain_syntax : Syntax
plain_syntax = record { strip = λ s. s; param_name = λ s. none; supports_concrete = λ s. false }

abbrev no_names : Scope ℤ
no_names = record { aliases = []; sources_map = []; feature_aliases = []; params = [] }

abbrev close_price : Operand ℤ
close_price = record { kind = price_field; value = text "close"; label = "close"; sources = [] }

abbrev ten : Operand ℤ
ten = record { kind = literal; value = num (pos 10); label = ""; sources = [] }

abbrev close_is_greater : Condition ℤ
close_is_greater = record { left = close_price; operator = greater; right = some ten }

abbrev rule : ConditionGroup ℤ
rule = group all (child (group leaf none_left (some close_is_greater)) none_left) none

-- `{"not": {"left": "close", "operator": ">", "right": 10}}`
abbrev negated : Json ℤ
negated = obj (
    member "not"
      (obj (
        member "left" (text "close")
          (member "operator" (text ">") (member "right" (num (pos 10)) end))))
      end)

close-IsOwnName : IsOwnName plain_syntax no_names "close"
unfolding get_key
close-IsOwnName = record { no_reference = refl; no_alias = refl; no_feature = refl }

rule-IsCanonical : IsCanonical plain_syntax no_names rule
unfolding is_ohlcv
rule-IsCanonical = canonical_all (
    one_canonical
      (canonical_leaf close_is_greater refl (plain_field "close" close-IsOwnName refl)
        (plain_number (pos 10)))
      all_read)

parse-IsShaped_example : IsShaped (parse plain_syntax no_names negated []).0
parse-IsShaped_example = parse-IsShaped plain_syntax no_names negated []

serialize_group-parse_example :
    is_ok (serialize_group (parse plain_syntax no_names negated []).0)
    ≡ not (has_not (parse plain_syntax no_names negated []).0)
serialize_group-parse_example = serialize_group-parse plain_syntax no_names negated []

serialize_group-round_trip_example :
    (j : Json ℤ) × (serialize_group rule ≡ ok j) × (parse plain_syntax no_names j [] ≡ (rule, []))
serialize_group-round_trip_example =
    serialize_group-round_trip plain_syntax no_names (λ o known. refl) (λ s. refl) []
      rule-IsCanonical

-- The "not" node makes the serializer raise.
negated_raises : is_ok (serialize_group (parse plain_syntax no_names negated []).0) ≡ false
unfolding parse
negated_raises = serialize_group-parse plain_syntax no_names negated []
