-- ===== src/Strategy/Rules/Returns.antt =====
-- Where the strategy of json_rule_based_strategy.py raises nothing.
use finbar.Common.{
  String, Bool, true, false, not, Bool-cases, Option, none, some, [], ◌∷◌, ◌≡◌, refl, arith, All,
  inl, inr, ok, is_ok, is_ok->>=, result_of,
}
use finbar.Common.Dict.{Dict, get_key}
use finbar.Simulation.Number.{Number, eq, nought}
use finbar.Simulation.Types.{Direction, long, short, SimulatedPosition}
use finbar.Simulation.Runner.{SignalResult}
use finbar.Strategy.Values.{Json, null, num, Texts, SideRules, read}
use finbar.Strategy.Evaluator.{PrevValues, evaluate}
use finbar.Strategy.Risk.{RiskSpec, as_number, calculate, calculate_stop, calculate_target}
use finbar.Strategy.Rules.{
  StrategyDefinition, try_side, after_long, entry_signal, collect_sides, on_bar,
}

module _ {F : Type 0} where
  abbrev pub is_numeric : Json F → Bool
  is_numeric null = true
  is_numeric (num x) = true
  is_numeric _ = false

  -- Every column of the row holds a number or nothing.
  abbrev pub IsNumeric : Dict (Json F) → Type 0
  IsNumeric bar = All (λ (column : String × Json F). is_numeric column.1 ≡ true) bar

  read-numeric :
      (bar : Dict (Json F)) (name : String) → IsNumeric bar → is_numeric (read bar name) ≡ true
  unfolding read get_key
  read-numeric [] name h = refl
  read-numeric ((k, v) ∷ bar) name h = ground (arith, read-numeric bar name h.1)

module _ {F : Type 0} ⦃number : Number F⦄ ⦃texts : Texts F⦄ where
  as_number-returns : (v : Json F) → is_numeric v ≡ true → is_ok (as_number v) ≡ true
  unfolding as_number
  as_number-returns v h = ground arith

  calculate_stop-returns :
      (risk : RiskSpec F) (bar : Dict (Json F)) (price : F) (side : Direction)
      → IsNumeric bar
      → is_ok (calculate_stop risk bar price side) ≡ true
  unfolding calculate_stop
  calculate_stop-returns risk bar price side h = ground (
    arith,
    as_number-returns (read bar risk.stop_indicator) (read-numeric bar risk.stop_indicator h),
  )

  calculate_target-returns :
      (risk : RiskSpec F) (bar : Dict (Json F)) (price : F) (side : Direction) (stop : F)
      → IsNumeric bar
      → is_ok (calculate_target risk bar price side stop) ≡ true
  unfolding calculate_target
  calculate_target-returns risk bar price side stop h = ground (
    arith,
    as_number-returns (read bar risk.take_profit_indicator)
        (read-numeric bar risk.take_profit_indicator h),
  )

  calculate-returns :
      (risk : Option (RiskSpec F)) (bar : Dict (Json F)) (side : Direction)
      → IsNumeric bar
      → is_ok (calculate risk bar side) ≡ true
  unfolding calculate
  calculate-returns none bar side h = refl
  calculate-returns (some risk) bar side h =
      is_ok->>= (as_number (read bar "close")) _
        (as_number-returns (read bar "close") (read-numeric bar "close" h))
        (λ price e.
          is_ok->>= (calculate_stop risk bar price side) _
            (calculate_stop-returns risk bar price side h)
            (λ stop e'.
              is_ok->>= (calculate_target risk bar price side stop) _
                (calculate_target-returns risk bar price side stop h) (λ target e''. refl)))

  try_side-returns :
      (d : StrategyDefinition F) (rules : Option (SideRules F)) (side : Direction)
      (bar : Dict (Json F)) (previous pending : PrevValues F)
      → IsNumeric bar
      → is_ok (try_side d rules side bar previous pending) ≡ true
  unfolding try_side
  try_side-returns d none side bar previous pending h = refl
  try_side-returns d (some rules) side bar previous pending h =
      elim (Bool-cases (evaluate rules.entry_rule bar previous pending).0) [
        | inl fires ↦ rw fires (
            is_ok->>= (calculate d.risk bar side) _ (calculate-returns d.risk bar side h)
              (λ prices e. refl))
        | inr quiet ↦ rw quiet refl
      ]

  after_long-returns :
      (d : StrategyDefinition F) (bar : Dict (Json F)) (previous : PrevValues F)
      (first : Option (SignalResult F) × PrevValues F)
      → IsNumeric bar
      → is_ok (after_long d bar previous first) ≡ true
  unfolding after_long
  after_long-returns d bar previous (some g, noted) h = refl
  after_long-returns d bar previous (none, noted) h =
      is_ok->>= (try_side d (get_key "short" d.sides) short bar previous noted) _
        (try_side-returns d (get_key "short" d.sides) short bar previous noted h) (λ second e. refl)

  -- On a row whose columns hold numbers or nothing, the strategy answers: no stop or target
  -- calculation raises.
  pub on_bar-returns :
      (d : StrategyDefinition F) (previous : PrevValues F) (bar : Dict (Json F))
      (position : SimulatedPosition F)
      → IsNumeric bar
      → (answer : PrevValues F × SignalResult F) × (on_bar d previous bar position ≡ ok answer)
  unfolding on_bar entry_signal
  on_bar-returns d previous bar position h =
      let collected = collect_sides d.sides bar [] in
      result_of (on_bar d previous bar position)
        (elim (Bool-cases (not (eq position.size nought))) [
          | inl holding ↦ rw holding refl
          | inr flat ↦ rw flat (
              is_ok->>= (entry_signal d bar previous collected) _
                (is_ok->>= (try_side d (get_key "long" d.sides) long bar previous collected) _
                  (try_side-returns d (get_key "long" d.sides) long bar previous collected h)
                  (λ first e. after_long-returns d bar previous first h))
                (λ answered e. refl))
        ])
