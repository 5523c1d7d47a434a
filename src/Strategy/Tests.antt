-- ===== src/Strategy/Tests.antt =====
-- Runs of a JSON strategy, and its theorems at these runs.
use finbar.Common.{List, ℕ, ◌≡◌, arith, Option, none, some, [], ◌∷◌, ℤ, pos, ok, String, Result}
use finbar.Common.Dict.{Dict, get_key, set_key, merge}
use finbar.Simulation.Types.{SimulatedPosition, long}
use finbar.Simulation.Runner.{SignalResult, sell, leave}
use finbar.Simulation.Sample.{whole, config, no_clock}
use finbar.Simulation.Types.{World}
use finbar.Simulation.Number.{eq, nought}
use finbar.Simulation.Runner.{Bar, run_loop}
use finbar.Common.{length, ◌-◌}
use finbar.Strategy.Values.{
  Json, num, text, Operand, column, Condition, crosses_above, greater, all, leaf, group, none_left,
  child, read,
}
use finbar.Strategy.Evaluator.{
  PrevValues, key_of, evaluate, numbers_of, resolve_operand, usable, is_nan, to_float, first_source,
  collect_state, collect_crossover, evaluate_bool, evaluate_condition, compare_values,
}
use finbar.Strategy.Risk.{Raised}
use finbar.Strategy.Rules.{
  StrategyDefinition, on_bar, collect_sides, exit_signal, exit_result, hold_signal,
}
use finbar.Common.Names.{add_columns, add_column, has_column}
use finbar.Strategy.Columns.{
  collect, collect_rules, collect_group, add_condition, add_operand, add_risk_columns,
}
use finbar.Strategy.Columns.Enough.{ReadsSame, on_bar-collect}
use finbar.Common.{All}
use finbar.Strategy.Sample.{plain_texts}
use finbar.Strategy.Rules.Current.{on_bar-current}
use finbar.Strategy.Rules.Decision.{on_bar-asked, asked}
use finbar.Strategy.Backtest.{Answers, json_strategy, json_backtest_ends}
use finbar.Common.{refl, false, true, inr}

abbrev named_operand : String → Operand ℤ
named_operand name = record { kind = column; value = text name; label = name; sources = [] }

abbrev fast_crosses : Condition ℤ
fast_crosses = record {
  left = named_operand "fast";
  operator = crosses_above;
  right = some (named_operand "slow");
}

abbrev slow_is_greater : Condition ℤ
slow_is_greater = record {
  left = named_operand "slow";
  operator = greater;
  right = some (named_operand "fast");
}

-- Enter long where the fast average crosses above the slow one, and leave where it is below it.
abbrev definition : StrategyDefinition ℤ
definition = record {
  sides =
      (
        "long",
        record {
          entry_rule = group all (child (group leaf none_left (some fast_crosses)) none_left) none;
          exit_rule = some (group leaf none_left (some slow_is_greater));
          entry_confidence = pos 1;
          exit_confidence = pos 1;
        },
      )
      ∷ [];
  risk = none;
}

abbrev row : ℕ → ℕ → Dict (Json ℤ)
row fast slow = ("close", num (pos 100)) ∷ ("fast", num (pos fast)) ∷ ("slow", num (pos slow)) ∷ []

abbrev holding : SimulatedPosition ℤ
holding = record {
  size = pos 10;
  direction = long;
  entry_price = pos 100;
  entry_date = "2024-01-02";
  stop_price = pos 0;
  target_price = pos 0;
  liquidation_price = pos 0;
  bars_held = 1;
  entry_commission = pos 0;
  entry_slippage = pos 0;
}

abbrev answer_of :
    Result Raised (PrevValues ℤ × SignalResult ℤ) → Option (PrevValues ℤ × SignalResult ℤ)
answer_of r = elim r [ ok a ↦ some a | _ ↦ none ]

-- A row with a position open leaves the crossover's values.
abbrev noted : PrevValues ℤ
noted = (key_of fast_crosses, (pos 9, pos 10)) ∷ []

after_holding :
    on_bar definition [] (row 9 10) holding
    ≡ ok (
      noted,
      record {
        action = sell;
        direction = leave;
        stop_price = pos 0;
        target_price = pos 0;
        confidence = pos 1;
        position_size = pos 0;
      },
    )
unfolding on_bar collect_sides collect_state collect_crossover numbers_of resolve_operand usable
    is_nan to_float first_source read get_key set_key merge exit_signal exit_result hold_signal
    evaluate evaluate_bool evaluate_condition compare_values
after_holding = ground arith

fast_reads : numbers_of fast_crosses (row 9 10) ≡ some (pos 9, pos 10)
unfolding numbers_of resolve_operand usable is_nan to_float first_source read get_key
fast_reads = ground arith

on_bar-current_example : get_key (key_of fast_crosses) noted ≡ some (pos 9, pos 10)
on_bar-current_example =
    on_bar-current definition [] (row 9 10) holding 0 after_holding refl refl fast_reads
      (λ same crossing. inr fast_reads, (λ same (crossing : false ≡ true). cc, tt))

on_bar-asked_example : (sell, leave) ≡ asked definition (row 9 10) [] holding
on_bar-asked_example = on_bar-asked definition [] (row 9 10) holding after_holding

abbrev falling : List (Bar ℤ)
falling =
    record {
      open_price = pos 100;
      high = pos 110;
      low = pos 90;
      close_price = pos 100;
      date = "2024-01-02";
      columns = ("fast", num (pos 11)) ∷ ("slow", num (pos 10)) ∷ [];
    }
    ∷ record {
      open_price = pos 100;
      high = pos 105;
      low = pos 80;
      close_price = pos 90;
      date = "2024-01-03";
      columns = ("fast", num (pos 9)) ∷ ("slow", num (pos 10)) ∷ [];
    }
    ∷ []

json_backtest_ends_example :
    All (Answers definition) falling
    × ((w : World ℤ) × (run_loop (json_strategy definition) config (pos 1000) (pos 1) 1 falling []
          ≡ ok w)
        × (eq w.state.position.size nought ≡ true)
        × (length w.state.equity_curve ≡ length falling - 1))
json_backtest_ends_example =
    json_backtest_ends definition config (pos 1000) (pos 1) 1 falling
      ((refl, (refl, tt)), ((refl, (refl, tt)), tt)) refl refl

-- The row with a column that the definition does not read.
abbrev with_volume : Dict (Json ℤ)
with_volume = ("volume", num (pos 7)) ∷ row 9 10

columns_same : All (ReadsSame (row 9 10) with_volume) (collect definition [])
unfolding collect collect_rules collect_group add_condition add_operand add_columns add_column
    has_column add_risk_columns read get_key
columns_same = (refl, (refl, (refl, (refl, (refl, (refl, tt))))))

empty_same : ReadsSame (row 9 10) with_volume ""
unfolding read get_key
empty_same = refl

on_bar-collect_example :
    on_bar definition [] (row 9 10) holding ≡ on_bar definition [] with_volume holding
on_bar-collect_example =
    on_bar-collect (row 9 10) with_volume definition [] [] holding columns_same
      ((tt, (((tt, tt), tt), tt)), ((tt, tt), tt), tt) empty_same
