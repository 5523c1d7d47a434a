-- ===== src/Strategy/Columns/Enough.antt =====
-- The columns that the collector finds are all that a bar is read for.
use finbar.Common.{
  String, Bool, true, not, ◌&&◌, Bool-cases, inl, inr, Option, none, some, List, [], ◌∷◌, ◌≡◌, refl,
  arith, All, Result, ok, err, ◌>>=◌,
}
use finbar.Common.Dict.{Dict, str_eq, eq_iff}
use finbar.Simulation.Number.{Number}
use finbar.Simulation.Types.{Direction, SimulatedPosition}
use finbar.Strategy.Values.{
  Json, Texts, Operand, Condition, ConditionGroup, group, Groups, none_left, child, SideRules, read,
}
use finbar.Strategy.Evaluator.{PrevValues, is_column, resolve_operand, first_source}
use finbar.Strategy.Evaluator.Same.{EachOperand, EachIn, InOwn, InRight, ResolvesSame}
use finbar.Strategy.Risk.{Raised, RiskSpec, calculate, calculate_stop, calculate_target, as_number}
use finbar.Strategy.Rules.{StrategyDefinition, on_bar}
use finbar.Strategy.Rules.Same.{EachRule, EachOptional, on_bar-same}
use finbar.Common.Names.{add_columns}
use finbar.Strategy.Columns.{
  engine_required_columns, is_atr_stop, is_atr_target, add_risk_columns, collect_rules, collect,
}
use finbar.Strategy.Columns.Collected.{
  Named, RiskNamed, add_columns-All, add_risk_columns-All, collect_rules-All,
}

module _ {F : Type 0} (P Q R : Operand F → Type 0)
    (combine : (o : Operand F) → P o → Q o → R o) where
  own-both : (c : Option (Condition F)) → InOwn P c → InOwn Q c → InOwn R c
  own-both none p q = tt
  own-both (some c) p q = (combine c.left p.0 q.0, by_right c.right p.1 q.1)
    where
      by_right : (r : Option (Operand F)) → InRight P r → InRight Q r → InRight R r
      by_right none h k = tt
      by_right (some o) h k = combine o h k

  mutual
    tree-both : (g : ConditionGroup F) → EachOperand P g → EachOperand Q g → EachOperand R g
    tree-both (group kind gs c) p q = (own-both c p.0 q.0, children-both gs p.1 q.1)

    children-both : (gs : Groups F) → EachIn P gs → EachIn Q gs → EachIn R gs
    children-both none_left p q = tt
    children-both (child g gs) p q = (tree-both g p.0 q.0, children-both gs p.1 q.1)

  optional-both :
      (g : Option (ConditionGroup F)) → EachOptional P g → EachOptional Q g → EachOptional R g
  optional-both none p q = tt
  optional-both (some g) p q = tree-both g p q

  rules-both : (sides : Dict (SideRules F)) → EachRule P sides → EachRule Q sides → EachRule R sides
  rules-both [] p q = tt
  rules-both ((name, rules) ∷ sides) p q = (
    tree-both rules.entry_rule p.0 q.0,
    optional-both rules.exit_rule p.1 q.1,
    rules-both sides p.2 q.2,
  )

module _ {F : Type 0} ⦃number : Number F⦄ ⦃texts : Texts F⦄ (bar bar' : Dict (Json F)) where
  -- The column reads the same on both bars.
  abbrev pub ReadsSame : String → Type 0
  ReadsSame c = read bar c ≡ read bar' c

  first_source-same :
      (sources : List String)
      → All ReadsSame sources
      → first_source sources bar ≡ first_source sources bar'
  unfolding first_source
  first_source-same [] each = refl
  first_source-same (s ∷ ss) each = rw (each.0, first_source-same ss each.1) refl

  resolve_operand-same :
      (o : Operand F) → Named ReadsSame o → All ReadsSame o.sources → ResolvesSame bar bar' o
  unfolding resolve_operand
  resolve_operand-same o named sources = elim (Bool-cases (is_column o.kind)) [
    | inl column ↦ rw (column, named column, first_source-same o.sources sources) refl
    | inr other ↦ rw other refl
  ]

  indicator-same :
      (used : Bool) (c : String)
      → (used && not (str_eq c "") ≡ true → ReadsSame c)
      → ReadsSame ""
      → used ≡ true
      → ReadsSame c
  indicator-same used c named empty is_used = elim (Bool-cases (str_eq c "")) [
    | inl same ↦ let e : c ≡ "" = grind (arith, eq_iff) in rw e empty
    | inr filled ↦ named (rw (is_used, filled) refl)
  ]

  calculate_stop-same :
      (risk : RiskSpec F) (price : F) (side : Direction)
      → (is_atr_stop risk.stop_loss_type ≡ true → ReadsSame risk.stop_indicator)
      → calculate_stop risk bar price side ≡ calculate_stop risk bar' price side
  unfolding calculate_stop
  calculate_stop-same risk price side same = ground arith

  calculate_target-same :
      (risk : RiskSpec F) (price : F) (side : Direction) (stop : F)
      → (is_atr_target risk.take_profit_type ≡ true → ReadsSame risk.take_profit_indicator)
      → calculate_target risk bar price side stop ≡ calculate_target risk bar' price side stop
  unfolding calculate_target
  calculate_target-same risk price side stop same = ground arith

  calculate-same :
      (risk : Option (RiskSpec F)) (side : Direction)
      → RiskNamed ReadsSame risk
      → ReadsSame "close"
      → ReadsSame ""
      → calculate risk bar side ≡ calculate risk bar' side
  unfolding calculate
  calculate-same none side named close empty = refl
  calculate-same (some risk) side named close empty =
      rw close (by_close (as_number (read bar' "close")))
    where
      stops : is_atr_stop risk.stop_loss_type ≡ true → ReadsSame risk.stop_indicator
      stops = indicator-same (is_atr_stop risk.stop_loss_type) risk.stop_indicator named.0 empty

      targets : is_atr_target risk.take_profit_type ≡ true → ReadsSame risk.take_profit_indicator
      targets =
          indicator-same (is_atr_target risk.take_profit_type) risk.take_profit_indicator named.1
            empty

      rest : Dict (Json F) → F → F → Result Raised (F × F)
      rest row price stop = do
        target ← calculate_target risk row price side stop
        ok (number.round stop 2, number.round target 2)

      by_stop :
          (price : F) (stop : Result Raised F)
          → (stop >>= rest bar price) ≡ (stop >>= rest bar' price)
      by_stop price (err e) = refl
      by_stop price (ok stop) = rw (calculate_target-same risk price side stop targets) refl

      by_close :
          (price : Result Raised F)
          → (price >>= λ p. calculate_stop risk bar p side >>= rest bar p)
            ≡ (price >>= λ p. calculate_stop risk bar' p side >>= rest bar' p)
      by_close (err e) = refl
      by_close (ok p) =
          rw (calculate_stop-same risk p side stops) (by_stop p (calculate_stop risk bar' p side))

  -- The columns that the collector finds are enough: two bars on which each of them reads the same
  -- get the same answer, with the same crossover values, if each fallback column of an operand, and
  -- the column with the empty name, reads the same too.
  pub on_bar-collect :
      (d : StrategyDefinition F) (formula_columns : List String) (previous : PrevValues F)
      (position : SimulatedPosition F)
      → All ReadsSame (collect d formula_columns)
      → EachRule (λ (o : Operand F). All ReadsSame o.sources) d.sides
      → ReadsSame ""
      → on_bar d previous bar position ≡ on_bar d previous bar' position
  unfolding collect
  on_bar-collect d formula_columns previous position columns sources empty =
      let engine = add_columns engine_required_columns [] in
      let (formulas, risks) =
        add_columns-All ReadsSame formula_columns
          (add_risk_columns d.risk (collect_rules d.sides engine)) columns in
      let (named, rules) =
        add_risk_columns-All ReadsSame d.risk (collect_rules d.sides engine) risks in
      let (operands, engines) = collect_rules-All ReadsSame d.sides engine rules in
      let (required, none_before) = add_columns-All ReadsSame engine_required_columns [] engines in
      on_bar-same bar bar' d previous position
        (rules-both (Named ReadsSame) (λ (o : Operand F). All ReadsSame o.sources)
          (ResolvesSame bar bar') resolve_operand-same d.sides operands sources)
        (λ side. calculate-same d.risk side named required.1.1.1.0 empty)
