-- ===== src/Strategy/Parser.antt =====
-- StrategyConditionGroupParser (finbar_strategy_runtime/parser/strategy_condition_group_parser.py).
-- The list of errors that the source appends to is returned.
mod Operands
pub mod Shape
unfoldable pub use Operands.*
use finbar.Common.{
  ℕ, suc, String, Bool, true, false, ◌||◌, Option, none, some, List, [], ◌∷◌, ◌++◌, if◌then◌else◌,
}
use finbar.Common.Dict.{Dict, get_key, str_eq}
use finbar.Simulation.Number.{Number, nought}
use finbar.Strategy.Values.{
  Json, null, flag, num, text, arr, obj, Items, nil, cons, Fields, end, member, Texts, Operand,
  OperandKind, price_field, indicator, feature, column, literal, Operator, less, greater, at_most,
  at_least, equal, unequal, crosses_above, crosses_below, between, not_between, is_true, is_false,
  exists, missing, unknown, Condition, GroupKind, all, any, negation, leaf, ConditionGroup, group,
  Groups, none_left, child, kind_name,
}

unfoldable pub operator_of : String → Operator
operator_of s =
    if str_eq s "<"
    then less
    else if str_eq s ">"
    then greater
    else if str_eq s "<="
    then at_most
    else if str_eq s ">="
    then at_least
    else if str_eq s "=="
    then equal
    else if str_eq s "!="
    then unequal
    else if str_eq s "crosses_above"
    then crosses_above
    else if str_eq s "crosses_below"
    then crosses_below
    else if str_eq s "between"
    then between
    else if str_eq s "not_between"
    then not_between
    else if str_eq s "is_true"
    then is_true
    else if str_eq s "is_false"
    then is_false
    else if str_eq s "exists"
    then exists
    else if str_eq s "missing"
    then missing
    else unknown s

-- `operator in BINARY_OPERATORS`
abbrev pub is_binary : Operator → Bool
is_binary is_true = false
is_binary is_false = false
is_binary exists = false
is_binary missing = false
is_binary (unknown s) = false
is_binary _ = true

unfoldable pub check_operator : Operator → Location → Errors
unfolding make_error
check_operator (unknown s) path = make_error (name "operator" ∷ path) (unsupported_operator s)
check_operator _ path = []

module _ {F : Type 0} where
  -- `raw.get(key)`
  unfoldable pub field_of : String → Fields F → Json F
  field_of key end = null
  field_of key (member k v fs) = if str_eq k key then v else field_of key fs

-- `str(raw.get(key, ""))`
unfoldable pub text_field : {F : Type 0} ⦃texts : Texts F⦄ → String → Fields F → String
text_field key end = ""
text_field ⦃texts = texts⦄ key (member k v fs) =
    if str_eq k key then texts.show v else text_field key fs

module _ {F : Type 0} ⦃number : Number F⦄ ⦃texts : Texts F⦄ (syntax : Syntax)
    (scope : Scope F) where
  unfoldable pub parse_right : Bool → Fields F → Location → Option (Operand F) × Errors
  parse_right false fs path = (none, [])
  parse_right true fs path =
      let (operand, errors) =
        parse_operand syntax scope (field_of "right" fs) (name "right" ∷ path) in
      (some operand, errors)

  unfoldable pub parse_condition : Fields F → Location → Condition F × Errors
  unfolding parse_right text_field check_operator field_of
  parse_condition fs path =
      let operator = operator_of (syntax.strip (text_field "operator" fs)) in
      let (left, lefts) = parse_operand syntax scope (field_of "left" fs) (name "left" ∷ path) in
      let (right, rights) = parse_right (is_binary operator) fs path in
      (
        record { left = left; operator = operator; right = right },
        check_operator operator path ++ (lefts ++ rights),
      )

  as_negation : ConditionGroup F × Errors → ConditionGroup F × Errors
  as_negation (g, errors) = (group negation (child g none_left) none, errors)

  as_leaf : Condition F × Errors → ConditionGroup F × Errors
  as_leaf (c, errors) = (group leaf none_left (some c), errors)

  -- The first of "all", "any" and "not" that the object has, else an atomic condition.
  first_of :
      Option (ConditionGroup F × Errors)
      → Option (ConditionGroup F × Errors)
      → Option (ConditionGroup F × Errors)
      → Condition F × Errors
      → ConditionGroup F × Errors
  first_of (some g) b c d = g
  first_of none (some g) c d = g
  first_of none none (some g) d = as_negation g
  first_of none none none d = as_leaf d

  unfoldable mutual
    unfolding first_of as_negation as_leaf parse_condition make_error

    pub parse : Json F → Location → ConditionGroup F × Errors
    parse (obj fs) path =
        first_of (parse_member all fs path) (parse_member any fs path) (parse_not fs path)
          (parse_condition fs path)
    parse raw path = (group all none_left none, make_error path not_an_object)

    -- The group under a key, if the object has it.
    parse_member : GroupKind → Fields F → Location → Option (ConditionGroup F × Errors)
    parse_member kind end path = none
    parse_member kind (member k v fs) path =
        let rest = parse_member kind fs path in
        let found = parse_children kind v path in
        if str_eq k (kind_name kind) then some found else rest

    parse_not : Fields F → Location → Option (ConditionGroup F × Errors)
    parse_not end path = none
    parse_not (member k v fs) path =
        let rest = parse_not fs path in
        let found = parse v (name "not" ∷ path) in if str_eq k "not" then some found else rest

    parse_children : GroupKind → Json F → Location → ConditionGroup F × Errors
    parse_children kind (arr (cons x xs)) path =
        let (first, errors) = parse x (index 0 ∷ name (kind_name kind) ∷ path) in
        let (others, more) = parse_items kind 1 xs path in
        (group kind (child first others) none, errors ++ more)
    parse_children kind raw path =
        (group kind none_left none, make_error (name (kind_name kind) ∷ path) (empty_array kind))

    pub parse_items : GroupKind → ℕ → Items F → Location → Groups F × Errors
    parse_items kind i nil path = (none_left, [])
    parse_items kind i (cons x xs) path =
        let (first, errors) = parse x (index i ∷ name (kind_name kind) ∷ path) in
        let (others, more) = parse_items kind (suc i) xs path in
        (child first others, errors ++ more)
