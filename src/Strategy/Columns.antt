-- ===== src/Strategy/Columns.antt =====
-- RequiredColumnCollector (finbar_strategy_runtime/parser/required_column_collector.py): the columns
-- that a strategy needs of a bar. The names that formula features add are given in their order.

pub mod Collected
pub mod Enough
use finbar.Common.{
  String, Bool, true, false, not, ◌&&◌, ◌||◌, Option, none, some, List, [], ◌∷◌, if◌then◌else◌,
}
use finbar.Common.Dict.{Dict, str_eq}
use finbar.Common.Names.{has_column, append_column, add_column, add_columns}
use finbar.Strategy.Values.{
  Texts, Operand, Condition, ConditionGroup, group, Groups, none_left, child, SideRules,
}
use finbar.Strategy.Evaluator.{is_column}
use finbar.Strategy.Risk.{RiskSpec, StopType, atr_stop, TargetType, atr_target}
use finbar.Strategy.Rules.{StrategyDefinition}

-- _ENGINE_REQUIRED_COLUMNS
abbrev pub engine_required_columns : List String
engine_required_columns = "open" ∷ "high" ∷ "low" ∷ "close" ∷ []

abbrev pub is_atr_stop : StopType → Bool
is_atr_stop atr_stop = true
is_atr_stop _ = false

abbrev pub is_atr_target : TargetType → Bool
is_atr_target atr_target = true
is_atr_target _ = false

module _ {F : Type 0} where
  -- `_add_risk_columns`
  unfoldable pub add_risk_columns : Option (RiskSpec F) → List String → List String
  add_risk_columns none columns = columns
  add_risk_columns (some risk) columns =
      let stops =
        if is_atr_stop risk.stop_loss_type && not (str_eq risk.stop_indicator "")
        then add_column risk.stop_indicator columns
        else columns in
      if is_atr_target risk.take_profit_type && not (str_eq risk.take_profit_indicator "")
      then add_column risk.take_profit_indicator stops
      else stops

module _ {F : Type 0} ⦃texts : Texts F⦄ where
  unfoldable pub add_operand : Operand F → List String → List String
  add_operand o columns =
      if is_column o.kind then add_column (texts.show o.value) columns else columns

  add_right : Option (Operand F) → List String → List String
  add_right none columns = columns
  add_right (some o) columns = add_operand o columns

  -- `visit_condition`
  unfoldable pub add_condition : Condition F → List String → List String
  unfolding add_right add_operand
  add_condition c columns = add_right c.right (add_operand c.left columns)

  add_own : Option (Condition F) → List String → List String
  add_own none columns = columns
  add_own (some c) columns = add_condition c columns

  unfoldable mutual
    unfolding add_own add_condition

    pub collect_group : ConditionGroup F → List String → List String
    collect_group (group kind gs c) columns = collect_groups gs (add_own c columns)

    pub collect_groups : Groups F → List String → List String
    collect_groups none_left columns = columns
    collect_groups (child g gs) columns = collect_groups gs (collect_group g columns)

  collect_optional : Option (ConditionGroup F) → List String → List String
  collect_optional none columns = columns
  collect_optional (some g) columns = collect_group g columns

  unfoldable pub collect_rules : Dict (SideRules F) → List String → List String
  unfolding collect_optional collect_group
  collect_rules [] columns = columns
  collect_rules ((name, rules) ∷ sides) columns =
      collect_rules sides
        (collect_optional rules.exit_rule (collect_group rules.entry_rule columns))

  unfoldable pub collect : StrategyDefinition F → List String → List String
  unfolding add_columns collect_rules add_risk_columns
  collect d formula_columns =
      add_columns formula_columns
        (add_risk_columns d.risk (collect_rules d.sides (add_columns engine_required_columns [])))
