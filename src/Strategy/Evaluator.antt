-- ===== src/Strategy/Evaluator.antt =====
-- ConditionEvaluator (finbar_strategy_runtime/evaluation/condition_evaluator.py). The dicts of
-- crossover values that the source mutates are passed along.
pub mod Truth
pub mod State
pub mod Same
use Prim.Native.String.{◌++◌}
use finbar.Common.{
  ℕ, String, Bool, true, false, not, ◌&&◌, Option, none, some, List, [], ◌∷◌, if◌then◌else◌,
}
use finbar.Common.Dict.{Dict, get_key, set_key, merge, str_eq}
use finbar.Simulation.Number.{Number, ◌-◌, ◌/◌, abs, lt, le, eq, nought, unity}
use finbar.Strategy.Values.{
  Json, null, flag, num, text, arr, obj, Items, nil, cons, Fields, end, member, Texts, Operand,
  OperandKind, price_field, indicator, feature, column, literal, Operator, less, greater, at_most,
  at_least, equal, unequal, crosses_above, crosses_below, between, not_between, is_true, is_false,
  exists, missing, unknown, name_of, Condition, GroupKind, all, any, negation, leaf, ConditionGroup,
  group, Groups, none_left, child, read,
}

-- The values of a crossover's operands on the last bar, by its key.
abbrev pub PrevValues : Type 0 → Type 0
PrevValues F = Dict (F × F)

abbrev pub is_column : OperandKind → Bool
is_column price_field = true
is_column indicator = true
is_column feature = true
is_column column = true
is_column literal = false

abbrev pub is_crossover : Operator → Bool
is_crossover crosses_above = true
is_crossover crosses_below = true
is_crossover _ = false

-- ASCII Unit Separator
abbrev pub separator : String
separator = "\u{1f}"

unfoldable pub crossover_key : String → String → String → String
crossover_key left_label right_label operator =
    left_label ++ (separator ++ (right_label ++ (separator ++ operator)))

module _ {F : Type 0} where
  -- `value is not None`
  abbrev pub is_present : Json F → Bool
  is_present null = false
  is_present _ = true

  abbrev right_label : Option (Operand F) → String
  right_label none = ""
  right_label (some o) = o.label

  unfoldable pub key_of : Condition F → String
  unfolding crossover_key
  key_of c = crossover_key c.left.label (right_label c.right) (name_of c.operator)

module _ {F : Type 0} ⦃number : Number F⦄ where
  -- `_is_nan`: a float that is not equal to itself.
  unfoldable pub is_nan : Json F → Bool
  is_nan (num x) = not (eq x x)
  is_nan _ = false

  -- `bool(value)`
  unfoldable pub truthy : Json F → Bool
  truthy null = false
  truthy (flag b) = b
  truthy (num x) = not (eq x nought)
  truthy (text s) = not (str_eq s "")
  truthy (arr nil) = false
  truthy (arr (cons x xs)) = true
  truthy (obj end) = false
  truthy (obj (member k v fs)) = true

  unfoldable pub usable : Json F → Bool
  unfolding is_nan
  usable v = is_present v && not (is_nan v)

  unfoldable pub first_source : List String → Dict (Json F) → Json F
  unfolding usable
  first_source [] bar = null
  first_source (s ∷ ss) bar =
      let rest : Json F = first_source ss bar in if usable (read bar s) then read bar s else rest

  unfoldable pub compare_values : F → Operator → F → Bool
  compare_values left less right = lt left right
  compare_values left greater right = lt right left
  compare_values left at_most right = le left right
  compare_values left at_least right = le right left
  compare_values left equal right = lt (abs (left - right)) (unity / number.of_nat 1_000_000_000)
  compare_values left unequal right = le (unity / number.of_nat 1_000_000_000) (abs (left - right))
  compare_values left _ right = false

  -- Whether a crossover fires, given the values of the bar before.
  unfoldable pub crosses : Operator → Option (F × F) → F → F → Bool
  crosses operator none left right = false
  crosses crosses_above (some (old_left, old_right)) left right =
      le old_left old_right && lt right left
  crosses crosses_below (some (old_left, old_right)) left right =
      le old_right old_left && lt left right
  crosses _ (some old) left right = false

module _ {F : Type 0} ⦃number : Number F⦄ ⦃texts : Texts F⦄ where
  unfoldable pub resolve_operand : Operand F → Dict (Json F) → Json F
  unfolding usable first_source
  resolve_operand o bar =
      let named : Json F = read bar (texts.show o.value) in
      if is_column o.kind
      then (if usable named then named else first_source o.sources bar)
      else o.value

  not_nan : Option F → Option F
  not_nan none = none
  not_nan (some x) = if eq x x then some x else none

  unfoldable pub to_float : Json F → Option F
  unfolding not_nan
  to_float (num x) = not_nan (some x)
  to_float (text s) = not_nan (texts.parse_float s)
  to_float _ = none

  -- `low <= left <= high` once the three are numbers.
  within : Option F → Option F → Option F → Bool
  within (some x) (some low) (some high) = le low x && le x high
  within _ _ _ = false

  unfoldable pub is_between : Json F → Json F → Bool
  unfolding within
  is_between left (arr (cons low (cons high nil))) =
      within (to_float left) (to_float low) (to_float high)
  is_between left _ = false

  both : Option F → Option F → Option (F × F)
  both (some x) (some y) = some (x, y)
  both _ _ = none

  -- The numbers that a condition with a right operand compares, if both are numbers.
  unfoldable pub numbers_of : Condition F → Dict (Json F) → Option (F × F)
  unfolding both
  numbers_of c bar = elim c.right [
    | none ↦ none
    | some r ↦ both (to_float (resolve_operand c.left bar)) (to_float (resolve_operand r bar))
  ]

  record_numbers : String → Option (F × F) → PrevValues F → PrevValues F
  record_numbers key none pending = pending
  record_numbers key (some v) pending = set_key key v pending

  -- Pass 1 at a leaf.
  unfoldable pub collect_crossover : Condition F → Dict (Json F) → PrevValues F → PrevValues F
  unfolding record_numbers
  collect_crossover c bar pending =
      if is_crossover c.operator
      then record_numbers (key_of c) (numbers_of c bar) pending
      else pending

  -- Pass 1.
  unfoldable mutual
    pub collect_state : ConditionGroup F → Dict (Json F) → PrevValues F → PrevValues F
    collect_state (group all gs c) bar pending = collect_children gs bar pending
    collect_state (group any gs c) bar pending = collect_children gs bar pending
    collect_state (group negation none_left c) bar pending = pending
    collect_state (group negation (child g gs) c) bar pending = collect_state g bar pending
    collect_state (group leaf gs none) bar pending = pending
    collect_state (group leaf gs (some c)) bar pending = collect_crossover c bar pending

    pub collect_children : Groups F → Dict (Json F) → PrevValues F → PrevValues F
    collect_children none_left bar pending = pending
    collect_children (child g gs) bar pending =
        collect_children gs bar (collect_state g bar pending)

  -- The comparison of two numbers. A crossover notes them once more.
  compare_numbers : Condition F → Option (F × F) → PrevValues F → PrevValues F → Bool × PrevValues F
  compare_numbers c none previous pending = (false, pending)
  compare_numbers c (some (x, y)) previous pending =
      if is_crossover c.operator
      then (crosses c.operator (get_key (key_of c) previous) x y, set_key (key_of c) (x, y) pending)
      else (compare_values x c.operator y, pending)

  -- The operators that `_evaluate_condition` tests first, then the others.
  dispatch :
      Operator → Condition F → Dict (Json F) → PrevValues F → PrevValues F → Bool × PrevValues F
  dispatch exists c bar previous pending = (is_present (resolve_operand c.left bar), pending)
  dispatch missing c bar previous pending = (not (is_present (resolve_operand c.left bar)), pending)
  dispatch is_true c bar previous pending = (truthy (resolve_operand c.left bar), pending)
  dispatch is_false c bar previous pending = (not (truthy (resolve_operand c.left bar)), pending)
  dispatch between c bar previous pending = elim c.right [
    | none ↦ (false, pending)
    | some r ↦ (is_between (resolve_operand c.left bar) (resolve_operand r bar), pending)
  ]
  dispatch not_between c bar previous pending = elim c.right [
    | none ↦ (false, pending)
    | some r ↦ (not (is_between (resolve_operand c.left bar) (resolve_operand r bar)), pending)
  ]
  dispatch _ c bar previous pending = compare_numbers c (numbers_of c bar) previous pending

  unfoldable pub evaluate_condition :
      Condition F → Dict (Json F) → PrevValues F → PrevValues F → Bool × PrevValues F
  unfolding dispatch compare_numbers
  evaluate_condition c = dispatch c.operator c

  -- Pass 2, which stops at the first child that decides.
  unfoldable mutual
    pub evaluate_bool :
        ConditionGroup F → Dict (Json F) → PrevValues F → PrevValues F → Bool × PrevValues F
    evaluate_bool (group all gs c) bar previous pending = evaluate_all gs bar previous pending
    evaluate_bool (group any gs c) bar previous pending = evaluate_any gs bar previous pending
    evaluate_bool (group negation none_left c) bar previous pending = (false, pending)
    evaluate_bool (group negation (child g gs) c) bar previous pending =
        let (result, noted) = evaluate_bool g bar previous pending in (not result, noted)
    evaluate_bool (group leaf gs none) bar previous pending = (false, pending)
    evaluate_bool (group leaf gs (some c)) bar previous pending =
        evaluate_condition c bar previous pending

    pub evaluate_all : Groups F → Dict (Json F) → PrevValues F → PrevValues F → Bool × PrevValues F
    evaluate_all none_left bar previous pending = (true, pending)
    evaluate_all (child g gs) bar previous pending =
        let (result, noted) = evaluate_bool g bar previous pending in
        let rest = evaluate_all gs bar previous noted in if result then rest else (false, noted)

    pub evaluate_any : Groups F → Dict (Json F) → PrevValues F → PrevValues F → Bool × PrevValues F
    evaluate_any none_left bar previous pending = (false, pending)
    evaluate_any (child g gs) bar previous pending =
        let (result, noted) = evaluate_bool g bar previous pending in
        let rest = evaluate_any gs bar previous noted in if result then (true, noted) else rest

  -- `evaluate` with the caller's dict of pending values, as the strategy calls it.
  unfoldable pub evaluate :
      ConditionGroup F → Dict (Json F) → PrevValues F → PrevValues F → Bool × PrevValues F
  unfolding collect_state evaluate_bool
  evaluate g bar previous pending = evaluate_bool g bar previous (collect_state g bar pending)
