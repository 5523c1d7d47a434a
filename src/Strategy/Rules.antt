-- ===== src/Strategy/Rules.antt =====
-- JsonRuleBasedStrategy (finbar_strategy_runtime/evaluation/json_rule_based_strategy.py). The
-- strategy's own state is the dict of previous crossover values.
pub mod Current
pub mod Decision
pub mod Returns
pub mod Same
use finbar.Common.{
  String, Bool, true, false, not, Option, none, some, List, [], ◌∷◌, pos, if◌then◌else◌, Result, ok,
  err, ◌>>=◌,
}
use finbar.Common.Dict.{Dict, get_key, merge}
use finbar.Simulation.Number.{Number, eq, nought}
use finbar.Simulation.Types.{Direction, long, short, other, SimulatedPosition}
use finbar.Simulation.Runner.{SignalResult, Action, buy, sell, hold, go, leave}
use finbar.Strategy.Values.{Json, Texts, ConditionGroup, SideRules}
use finbar.Strategy.Evaluator.{PrevValues, collect_state, evaluate}
use finbar.Strategy.Risk.{RiskSpec, Raised, calculate, is_long}

-- What execution reads of StrategyDefinition (domain/entities/strategy_definition.py).
pub record StrategyDefinition (F : Type 0) : Type 0 where
  pub sides : Dict (SideRules F)
  pub risk : Option (RiskSpec F)

abbrev pub side_name : Direction → String
side_name long = "long"
side_name short = "short"
side_name (other d) = d

module _ {F : Type 0} ⦃number : Number F⦄ where
  -- `SignalResult(action="hold")`
  unfoldable pub hold_signal : SignalResult F
  hold_signal = record {
    action = hold;
    direction = go (other "");
    stop_price = nought;
    target_price = nought;
    confidence = nought;
    position_size = pos 0;
  }

  unfoldable pub entry_result : Direction → F → F × F → SignalResult F
  entry_result side confidence (stop, target) = record {
    action = if is_long side then buy else sell;
    direction = go side;
    stop_price = stop;
    target_price = target;
    confidence = confidence;
    position_size = pos 0;
  }

  unfoldable pub exit_result : Direction → F → SignalResult F
  unfolding hold_signal
  exit_result side confidence = record hold_signal {
    action = if is_long side then sell else buy;
    direction = leave;
    confidence = confidence;
  }

module _ {F : Type 0} ⦃number : Number F⦄ ⦃texts : Texts F⦄ where
  collect_exit : Option (ConditionGroup F) → Dict (Json F) → PrevValues F → PrevValues F
  collect_exit none bar pending = pending
  collect_exit (some g) bar pending = collect_state g bar pending

  -- The loop that collects the crossover state of every tree.
  unfoldable pub collect_sides : Dict (SideRules F) → Dict (Json F) → PrevValues F → PrevValues F
  unfolding collect_exit
  collect_sides [] bar pending = pending
  collect_sides ((name, rules) ∷ sides) bar pending =
      collect_sides sides bar
        (collect_exit rules.exit_rule bar (collect_state rules.entry_rule bar pending))

  -- One round of the loop over the sides: the signal, if this side's entry rule holds.
  unfoldable pub try_side :
      StrategyDefinition F
      → Option (SideRules F)
      → Direction
      → Dict (Json F)
      → PrevValues F
      → PrevValues F
      → Result Raised (Option (SignalResult F) × PrevValues F)
  try_side d none side bar previous pending = ok (none, pending)
  try_side d (some rules) side bar previous pending =
      let (fires, noted) = evaluate rules.entry_rule bar previous pending in
      if fires
      then (calculate d.risk bar side >>= λ prices.
          ok (some (entry_result side rules.entry_confidence prices), noted))
      else ok (none, noted)

  -- The end of the loop: a hold, if no side has signalled.
  or_hold : Option (SignalResult F) × PrevValues F → SignalResult F × PrevValues F
  or_hold (some g, noted) = (g, noted)
  or_hold (none, noted) = (hold_signal, noted)

  after_long :
      StrategyDefinition F
      → Dict (Json F)
      → PrevValues F
      → Option (SignalResult F) × PrevValues F
      → Result Raised (SignalResult F × PrevValues F)
  after_long d bar previous (some g, noted) = ok (g, noted)
  after_long d bar previous (none, noted) =
      try_side d (get_key "short" d.sides) short bar previous noted >>= λ second.
      ok (or_hold second)

  unfoldable pub entry_signal :
      StrategyDefinition F
      → Dict (Json F)
      → PrevValues F
      → PrevValues F
      → Result Raised (SignalResult F × PrevValues F)
  unfolding try_side after_long or_hold
  entry_signal d bar previous pending =
      try_side d (get_key "long" d.sides) long bar previous pending >>= after_long d bar previous

  exit_by :
      Option (ConditionGroup F)
      → F
      → Direction
      → Dict (Json F)
      → PrevValues F
      → PrevValues F
      → SignalResult F × PrevValues F
  exit_by none confidence side bar previous pending = (hold_signal, pending)
  exit_by (some g) confidence side bar previous pending =
      let (fires, noted) = evaluate g bar previous pending in
      (if fires then exit_result side confidence else hold_signal, noted)

  exit_for :
      Option (SideRules F)
      → Direction
      → Dict (Json F)
      → PrevValues F
      → PrevValues F
      → SignalResult F × PrevValues F
  exit_for none side bar previous pending = (hold_signal, pending)
  exit_for (some rules) side bar previous pending =
      exit_by rules.exit_rule rules.exit_confidence side bar previous pending

  unfoldable pub exit_signal :
      StrategyDefinition F
      → Direction
      → Dict (Json F)
      → PrevValues F
      → PrevValues F
      → SignalResult F × PrevValues F
  unfolding exit_for exit_by
  exit_signal d side = exit_for (get_key (side_name side) d.sides) side

  -- The signal of a bar and the crossover values that it leaves. A caller with no position passes a
  -- flat one.
  unfoldable pub on_bar :
      StrategyDefinition F
      → PrevValues F
      → Dict (Json F)
      → SimulatedPosition F
      → Result Raised (PrevValues F × SignalResult F)
  unfolding collect_sides entry_signal exit_signal
  on_bar d previous bar position =
      let collected = collect_sides d.sides bar [] in
      if not (eq position.size nought)
      then (let (signal, noted) = exit_signal d position.direction bar previous collected in
          ok (merge previous noted, signal))
      else (entry_signal d bar previous collected >>= λ answer.
          ok (merge previous answer.1, answer.0))

-- `on_reset`
unfoldable pub on_reset : {F : Type 0} → PrevValues F → PrevValues F
on_reset previous = []
