-- ===== src/Strategy/Columns/Collected.antt =====
-- What holds of every column that the collector finds holds of each operand's.
use finbar.Common.{
  String, Bool, true, false, not, ◌&&◌, Bool-cases, inl, inr, Option, none, some, List, [], ◌∷◌,
  ◌≡◌, arith, All, if◌then◌else◌,
}
use finbar.Common.Dict.{Dict, str_eq, eq_iff}
use finbar.Strategy.Values.{
  Texts, Operand, Condition, ConditionGroup, group, Groups, none_left, child, SideRules,
}
use finbar.Strategy.Evaluator.{is_column}
use finbar.Strategy.Evaluator.Same.{EachOperand, EachIn, InOwn}
use finbar.Strategy.Risk.{RiskSpec}
use finbar.Strategy.Rules.Same.{EachRule, EachOptional}
use finbar.Common.Names.{has_column, append_column, add_column, add_columns}
use finbar.Strategy.Columns.{
  is_atr_stop, is_atr_target, add_risk_columns, add_operand, add_right, add_condition, add_own,
  collect_group, collect_groups, collect_optional, collect_rules,
}

has_column-All :
    (P : String → Type 0) (c : String) (columns : List String)
    → has_column c columns ≡ true
    → All P columns
    → P c
unfolding has_column
has_column-All P c [] h each = cc
has_column-All P c (d ∷ ds) h each = elim (Bool-cases (str_eq d c)) [
  | inl same ↦ let e : d ≡ c = grind (arith, eq_iff) in rw (← e) each.0
  | inr differ ↦ has_column-All P c ds (rw differ at h) each.1
]

append_column-All :
    (P : String → Type 0) (c : String) (columns : List String)
    → All P (append_column c columns)
    → P c × All P columns
unfolding append_column
append_column-All P c [] each = (each.0, tt)
append_column-All P c (d ∷ ds) each =
    let (new, others) = append_column-All P c ds each.1 in (new, (each.0, others))

add_column-All :
    (P : String → Type 0) (c : String) (columns : List String)
    → All P (add_column c columns)
    → P c × All P columns
unfolding add_column
add_column-All P c columns each = elim (Bool-cases (has_column c columns)) [
  | inl held ↦
      let same : All P columns = rw held at each in (has_column-All P c columns held same, same)
  | inr new ↦ append_column-All P c columns (rw new at each)
]

pub add_columns-All :
    (P : String → Type 0) (cs columns : List String)
    → All P (add_columns cs columns)
    → All P cs × All P columns
unfolding add_columns
add_columns-All P [] columns each = (tt, each)
add_columns-All P (c ∷ cs) columns each =
    let (others, held) = add_columns-All P cs (add_column c columns) each in
    let (new, before) = add_column-All P c columns held in ((new, others), before)

add_if-All :
    (P : String → Type 0) (added : Bool) (c : String) (columns : List String)
    → All P (if added then add_column c columns else columns)
    → (added ≡ true → P c) × All P columns
add_if-All P true c columns each =
    let (new, before) = add_column-All P c columns each in (λ h. new, before)
add_if-All P false c columns each = (λ h. cc, each)

module _ {F : Type 0} ⦃texts : Texts F⦄ (P : String → Type 0) where
  -- The operand names no column, or a column with the property.
  abbrev pub Named : Operand F → Type 0
  Named o = is_column o.kind ≡ true → P (texts.show o.value)

  add_operand-All :
      (o : Operand F) (columns : List String)
      → All P (add_operand o columns)
      → Named o × All P columns
  unfolding add_operand
  add_operand-All o columns each = elim (Bool-cases (is_column o.kind)) [
    | inl column ↦
        let (new, before) = add_column-All P (texts.show o.value) columns (rw column at each) in
        (λ h. new, before)
    | inr other ↦ (λ h. cc, rw other at each)
  ]

  add_own-All :
      (c : Option (Condition F)) (columns : List String)
      → All P (add_own c columns)
      → InOwn Named c × All P columns
  unfolding add_own add_condition add_right
  add_own-All none columns each = (tt, each)
  add_own-All (some c) columns each = by_right c.right each
    where
      by_right :
          (r : Option (Operand F))
          → All P (add_right r (add_operand c.left columns))
          → InOwn Named (some (record c { right = r })) × All P columns
      by_right none h =
          let (left, before) = add_operand-All c.left columns h in ((left, tt), before)
      by_right (some o) h =
          let (right, lefts) = add_operand-All o (add_operand c.left columns) h in
          let (left, before) = add_operand-All c.left columns lefts in ((left, right), before)

  mutual
    unfolding collect_group

    collect_group-All :
        (g : ConditionGroup F) (columns : List String)
        → All P (collect_group g columns)
        → EachOperand Named g × All P columns
    collect_group-All (group kind gs c) columns each =
        let (children, owns) = collect_groups-All gs (add_own c columns) each in
        let (own, before) = add_own-All c columns owns in ((own, children), before)

    collect_groups-All :
        (gs : Groups F) (columns : List String)
        → All P (collect_groups gs columns)
        → EachIn Named gs × All P columns
    collect_groups-All none_left columns each = (tt, each)
    collect_groups-All (child g gs) columns each =
        let (others, firsts) = collect_groups-All gs (collect_group g columns) each in
        let (first, before) = collect_group-All g columns firsts in ((first, others), before)

  -- The indicator of a stop or target by ATR has the property, unless its name is empty.
  abbrev pub RiskNamed : Option (RiskSpec F) → Type 0
  RiskNamed none = Unit
  RiskNamed (some risk) =
      (is_atr_stop risk.stop_loss_type && not (str_eq risk.stop_indicator "") ≡ true
        → P risk.stop_indicator)
      × (is_atr_target risk.take_profit_type && not (str_eq risk.take_profit_indicator "") ≡ true
          → P risk.take_profit_indicator)

  pub add_risk_columns-All :
      (risk : Option (RiskSpec F)) (columns : List String)
      → All P (add_risk_columns risk columns)
      → RiskNamed risk × All P columns
  unfolding add_risk_columns
  add_risk_columns-All none columns each = (tt, each)
  add_risk_columns-All (some risk) columns each =
      let stops = is_atr_stop risk.stop_loss_type && not (str_eq risk.stop_indicator "") in
      let targets =
        is_atr_target risk.take_profit_type && not (str_eq risk.take_profit_indicator "") in
      let held = if stops then add_column risk.stop_indicator columns else columns in
      let (target, first) = add_if-All P targets risk.take_profit_indicator held each in
      let (stop, before) = add_if-All P stops risk.stop_indicator columns first in
      ((stop, target), before)

  collect_optional-All :
      (g : Option (ConditionGroup F)) (columns : List String)
      → All P (collect_optional g columns)
      → EachOptional Named g × All P columns
  unfolding collect_optional
  collect_optional-All none columns each = (tt, each)
  collect_optional-All (some g) columns each = collect_group-All g columns each

  pub collect_rules-All :
      (sides : Dict (SideRules F)) (columns : List String)
      → All P (collect_rules sides columns)
      → EachRule Named sides × All P columns
  unfolding collect_rules
  collect_rules-All [] columns each = (tt, each)
  collect_rules-All ((name, rules) ∷ sides) columns each =
      let entered = collect_group rules.entry_rule columns in
      let (others, exits) =
        collect_rules-All sides (collect_optional rules.exit_rule entered) each in
      let (exit, entries) = collect_optional-All rules.exit_rule entered exits in
      let (entry, before) = collect_group-All rules.entry_rule columns entries in
      ((entry, exit, others), before)
