-- ===== src/Strategy/Rules/Same.antt =====
-- Two bars that the rules' operands and the risk prices do not tell apart.
use finbar.Common.{
  String, Bool-cases, inl, inr, Option, none, some, [], ◌∷◌, ◌≡◌, refl, Result, ok, err, ◌>>=◌,
}
use finbar.Common.Dict.{Dict, get_key, str_eq}
use finbar.Simulation.Number.{Number}
use finbar.Simulation.Types.{Direction, long, short, SimulatedPosition}
use finbar.Simulation.Runner.{SignalResult}
use finbar.Strategy.Values.{Json, Texts, Operand, ConditionGroup, SideRules}
use finbar.Strategy.Evaluator.{PrevValues, collect_state}
use finbar.Strategy.Evaluator.Same.{EachOperand, ResolvesSame, collect_state-same, evaluate-same}
use finbar.Strategy.Risk.{Raised, calculate}
use finbar.Strategy.Rules.{
  StrategyDefinition, collect_exit, collect_sides, try_side, after_long, entry_signal, exit_by,
  exit_for, exit_signal, on_bar, side_name,
}

module _ {F : Type 0} where
  abbrev pub EachOptional : (Operand F → Type 0) → Option (ConditionGroup F) → Type 0
  EachOptional P none = Unit
  EachOptional P (some g) = EachOperand P g

  -- Every operand of every entry and exit tree has the property.
  abbrev pub EachRule : (Operand F → Type 0) → Dict (SideRules F) → Type 0
  EachRule P [] = Unit
  EachRule P ((name, rules) ∷ sides) =
      EachOperand P rules.entry_rule × EachOptional P rules.exit_rule × EachRule P sides

  abbrev EachFound : (Operand F → Type 0) → Option (SideRules F) → Type 0
  EachFound P none = Unit
  EachFound P (some rules) = EachOperand P rules.entry_rule × EachOptional P rules.exit_rule

  EachRule-get_key :
      (P : Operand F → Type 0) (name : String) (sides : Dict (SideRules F))
      → EachRule P sides
      → EachFound P (get_key name sides)
  unfolding get_key
  EachRule-get_key P name [] each = tt
  EachRule-get_key P name ((n, rules) ∷ sides) each = elim (Bool-cases (str_eq n name)) [
    | inl same ↦ rw same (each.0, each.1)
    | inr differ ↦ rw differ (EachRule-get_key P name sides each.2)
  ]

module _ {F : Type 0} ⦃number : Number F⦄ ⦃texts : Texts F⦄ (bar bar' : Dict (Json F)) where
  collect_exit-same :
      (g : Option (ConditionGroup F)) (pending : PrevValues F)
      → EachOptional (ResolvesSame bar bar') g
      → collect_exit g bar pending ≡ collect_exit g bar' pending
  unfolding collect_exit
  collect_exit-same none pending same = refl
  collect_exit-same (some g) pending same = collect_state-same bar bar' g pending same

  collect_sides-same :
      (sides : Dict (SideRules F)) (pending : PrevValues F)
      → EachRule (ResolvesSame bar bar') sides
      → collect_sides sides bar pending ≡ collect_sides sides bar' pending
  unfolding collect_sides
  collect_sides-same [] pending same = refl
  collect_sides-same ((name, rules) ∷ sides) pending same =
      let collected = collect_state rules.entry_rule bar' pending in
      rw
        (
          collect_state-same bar bar' rules.entry_rule pending same.0,
          collect_exit-same rules.exit_rule collected same.1,
        )
        (collect_sides-same sides (collect_exit rules.exit_rule bar' collected) same.2)

  exit_for-same :
      (rules : Option (SideRules F)) (side : Direction) (previous pending : PrevValues F)
      → EachFound (ResolvesSame bar bar') rules
      → exit_for rules side bar previous pending ≡ exit_for rules side bar' previous pending
  unfolding exit_for exit_by
  exit_for-same none side previous pending same = refl
  exit_for-same (some rules) side previous pending same = by_exit rules.exit_rule same.1
    where
      by_exit :
          (g : Option (ConditionGroup F))
          → EachOptional (ResolvesSame bar bar') g
          → exit_by g rules.exit_confidence side bar previous pending
            ≡ exit_by g rules.exit_confidence side bar' previous pending
      by_exit none h = refl
      by_exit (some g) h = rw (evaluate-same bar bar' g previous pending h) refl

  try_side-same :
      (d : StrategyDefinition F) (rules : Option (SideRules F)) (side : Direction)
      (previous pending : PrevValues F)
      → EachFound (ResolvesSame bar bar') rules
      → calculate d.risk bar side ≡ calculate d.risk bar' side
      → try_side d rules side bar previous pending ≡ try_side d rules side bar' previous pending
  unfolding try_side
  try_side-same d none side previous pending same prices = refl
  try_side-same d (some rules) side previous pending same prices =
      rw (evaluate-same bar bar' rules.entry_rule previous pending same.0, prices) refl

  after_long-same :
      (d : StrategyDefinition F) (previous : PrevValues F)
      (first : Option (SignalResult F) × PrevValues F)
      → EachRule (ResolvesSame bar bar') d.sides
      → calculate d.risk bar short ≡ calculate d.risk bar' short
      → after_long d bar previous first ≡ after_long d bar' previous first
  unfolding after_long
  after_long-same d previous (some g, noted) same prices = refl
  after_long-same d previous (none, noted) same prices =
      rw
        (try_side-same d (get_key "short" d.sides) short previous noted
          (EachRule-get_key (ResolvesSame bar bar') "short" d.sides same) prices)
        refl

  entry_signal-same :
      (d : StrategyDefinition F) (previous pending : PrevValues F)
      → EachRule (ResolvesSame bar bar') d.sides
      → ((side : Direction) → calculate d.risk bar side ≡ calculate d.risk bar' side)
      → entry_signal d bar previous pending ≡ entry_signal d bar' previous pending
  unfolding entry_signal
  entry_signal-same d previous pending same prices =
      rw
        (try_side-same d (get_key "long" d.sides) long previous pending
          (EachRule-get_key (ResolvesSame bar bar') "long" d.sides same) (prices long))
        (by_first (try_side d (get_key "long" d.sides) long bar' previous pending))
    where
      by_first :
          (first : Result Raised (Option (SignalResult F) × PrevValues F))
          → (first >>= after_long d bar previous) ≡ (first >>= after_long d bar' previous)
      by_first (ok first) = after_long-same d previous first same (prices short)
      by_first (err e) = refl

  -- A strategy answers two bars alike if its operands and its risk prices read the same on both.
  pub on_bar-same :
      (d : StrategyDefinition F) (previous : PrevValues F) (position : SimulatedPosition F)
      → EachRule (ResolvesSame bar bar') d.sides
      → ((side : Direction) → calculate d.risk bar side ≡ calculate d.risk bar' side)
      → on_bar d previous bar position ≡ on_bar d previous bar' position
  unfolding on_bar exit_signal
  on_bar-same d previous position same prices =
      rw
        (
          collect_sides-same d.sides [] same,
          exit_for-same (get_key (side_name position.direction) d.sides) position.direction previous
              (collect_sides d.sides bar' [])
              (EachRule-get_key (ResolvesSame bar bar') (side_name position.direction) d.sides
                same),
          entry_signal-same d previous (collect_sides d.sides bar' []) same prices,
        )
        refl
