-- ===== src/Strategy/Rules/Decision.antt =====
-- Which signal the strategy of json_rule_based_strategy.py gives.
use finbar.Common.{
  Bool, true, false, not, Bool-cases, Option, none, some, [], ◌≡◌, refl, arith, if◌then◌else◌, inl,
  inr, ok, >>=-eq-ok, ok-injective,
}
use finbar.Common.Dict.{Dict, get_key}
use finbar.Simulation.Number.{Number, eq, nought}
use finbar.Simulation.Types.{Direction, long, short, other, SimulatedPosition}
use mathlib.Core.Option
use finbar.Simulation.Runner.{SignalResult, SignalDirection, Action, buy, sell, hold, go, leave}
use finbar.Strategy.Values.{Json, Texts, ConditionGroup, SideRules}
use finbar.Strategy.Evaluator.{PrevValues, evaluate}
use finbar.Strategy.Evaluator.Truth.{holds, evaluate-holds}
use finbar.Strategy.Risk.{is_long, calculate}
use finbar.Strategy.Rules.{
  StrategyDefinition, side_name, hold_signal, entry_result, exit_result, try_side, or_hold,
  after_long, entry_signal, exit_by, exit_for, exit_signal, collect_sides, on_bar,
}

abbrev no_order : Action × SignalDirection
no_order = (hold, go (other ""))

module _ {F : Type 0} ⦃number : Number F⦄ ⦃texts : Texts F⦄ where
  -- The entry rule of a side says yes.
  abbrev enters : Option (SideRules F) → Dict (Json F) → PrevValues F → Bool
  enters none bar previous = false
  enters (some rules) bar previous = holds rules.entry_rule bar previous

  abbrev exit_holds : Option (ConditionGroup F) → Dict (Json F) → PrevValues F → Bool
  exit_holds none bar previous = false
  exit_holds (some g) bar previous = holds g bar previous

  -- The exit rule of a side says yes.
  abbrev leaves_by : Option (SideRules F) → Dict (Json F) → PrevValues F → Bool
  leaves_by none bar previous = false
  leaves_by (some rules) bar previous = exit_holds rules.exit_rule bar previous

  -- The action and the direction of a signal.
  abbrev order_of : SignalResult F → Action × SignalDirection
  order_of g = (g.action, g.direction)

  -- What the rules ask for: an exit by the held side's exit rule, or an entry, long before short.
  abbrev pub asked :
      StrategyDefinition F
      → Dict (Json F)
      → PrevValues F
      → SimulatedPosition F
      → Action × SignalDirection
  asked d bar previous position =
      if not (eq position.size nought)
      then (if leaves_by (get_key (side_name position.direction) d.sides) bar previous
          then (if is_long position.direction then sell else buy, leave)
          else no_order)
      else if enters (get_key "long" d.sides) bar previous
      then (buy, go long)
      else if enters (get_key "short" d.sides) bar previous
      then (sell, go short)
      else no_order

  try_side-enters :
      (d : StrategyDefinition F) (rules : Option (SideRules F)) (side : Direction)
      (bar : Dict (Json F)) (previous pending : PrevValues F)
      {answer : Option (SignalResult F) × PrevValues F}
      → try_side d rules side bar previous pending ≡ ok answer
      → Option.map order_of answer.0 ≡ (
          if enters rules bar previous
          then some (if is_long side then buy else sell, go side)
          else none)
  unfolding try_side entry_result
  try_side-enters d none side bar previous pending e = rw (← ok-injective e) refl
  try_side-enters d (some rules) side bar previous pending {answer = answer} e =
      elim (Bool-cases (evaluate rules.entry_rule bar previous pending).0) [
        | inl fires ↦
            let (prices, priced, done) = >>=-eq-ok (calculate d.risk bar side) _ (rw fires at e) in
            rw (← ok-injective done, ← evaluate-holds rules.entry_rule bar previous pending, fires)
              refl
        | inr quiet ↦
            rw (← ok-injective (rw quiet at e))
              (rw (← evaluate-holds rules.entry_rule bar previous pending, quiet) refl)
      ]

  or_hold-order :
      (second : Option (SignalResult F) × PrevValues F) (short_enters : Bool)
      → Option.map order_of second.0 ≡ (if short_enters then some (sell, go short) else none)
      → order_of (or_hold second).0 ≡ (if short_enters then (sell, go short) else no_order)
  unfolding or_hold hold_signal
  or_hold-order (some g, noted) true h = ground arith
  or_hold-order (some g, noted) false h = cc
  or_hold-order (none, noted) true h = cc
  or_hold-order (none, noted) false h = refl

  after_long-order :
      (d : StrategyDefinition F) (bar : Dict (Json F)) (previous : PrevValues F)
      (first : Option (SignalResult F) × PrevValues F) (long_enters : Bool)
      {answer : SignalResult F × PrevValues F}
      → Option.map order_of first.0 ≡ (if long_enters then some (buy, go long) else none)
      → after_long d bar previous first ≡ ok answer
      → order_of answer.0 ≡ (
          if long_enters
          then (buy, go long)
          else if enters (get_key "short" d.sides) bar previous
          then (sell, go short)
          else no_order)
  unfolding after_long
  after_long-order d bar previous (some g, noted) true h e = rw (← ok-injective e) (ground arith)
  after_long-order d bar previous (some g, noted) false h e = cc
  after_long-order d bar previous (none, noted) true h e = cc
  after_long-order d bar previous (none, noted) false {answer = answer} h e =
      let rules = get_key "short" d.sides in
      let (second, tried, done) = >>=-eq-ok (try_side d rules short bar previous noted) _ e in
      rw (← ok-injective done) (
        or_hold-order second (enters rules bar previous)
          (try_side-enters d rules short bar previous noted tried))

  exit_signal-order :
      (d : StrategyDefinition F) (side : Direction) (bar : Dict (Json F))
      (previous pending : PrevValues F)
      → order_of (exit_signal d side bar previous pending).0 ≡ (
          if leaves_by (get_key (side_name side) d.sides) bar previous
          then (if is_long side then sell else buy, leave)
          else no_order)
  unfolding exit_signal exit_result hold_signal
  exit_signal-order d side bar previous pending = by_rules (get_key (side_name side) d.sides)
    where
      by_exit :
          (g : Option (ConditionGroup F)) (confidence : F)
          → order_of (exit_by g confidence side bar previous pending).0 ≡ (
              if exit_holds g bar previous
              then (if is_long side then sell else buy, leave)
              else no_order)
      by_exit none confidence = refl
      by_exit (some g) confidence = ground (arith, evaluate-holds g bar previous pending)

      by_rules :
          (rules : Option (SideRules F))
          → order_of (exit_for rules side bar previous pending).0 ≡ (
              if leaves_by rules bar previous
              then (if is_long side then sell else buy, leave)
              else no_order)
      by_rules none = refl
      by_rules (some rules) = by_exit rules.exit_rule rules.exit_confidence

  -- The signal of a bar that the strategy answers is what its rules ask for: with a position open an
  -- exit if the exit tree of that side holds, else no order; with none open an entry, long if the
  -- long tree holds, else short if the short tree does, else no order.
  pub on_bar-asked :
      (d : StrategyDefinition F) (previous : PrevValues F) (bar : Dict (Json F))
      (position : SimulatedPosition F) {answer : PrevValues F × SignalResult F}
      → on_bar d previous bar position ≡ ok answer
      → order_of answer.1 ≡ asked d bar previous position
  unfolding on_bar entry_signal
  on_bar-asked d previous bar position e =
      let collected = collect_sides d.sides bar [] in
      elim (Bool-cases (not (eq position.size nought))) [
        | inl holding ↦
            rw (holding, ← ok-injective (rw holding at e))
              (exit_signal-order d position.direction bar previous collected)
        | inr flat ↦
            let rules = get_key "long" d.sides in
            let (answered, entered, done) =
              >>=-eq-ok (entry_signal d bar previous collected) _ (rw flat at e) in
            let (first, tried, rest) =
              >>=-eq-ok (try_side d rules long bar previous collected) _ entered in
            rw (flat, ← ok-injective done)
              (after_long-order d bar previous first (enters rules bar previous)
                (try_side-enters d rules long bar previous collected tried) rest)
      ]
