-- ===== src/Strategy/Backtest.antt =====
-- A JSON strategy in the bar loop (finbar/infrastructure/services/backtest_runner.py): the dict that
-- the loop builds of a row, and the call of the strategy.
use finbar.Common.{
  ℕ, ◌-◌, String, true, false, Option, none, some, List, [], ◌∷◌, ◌≡◌, refl, length, Result, ok,
  err, Bool-cases, inl, inr, All,
}
use finbar.Common.Dict.{Dict, set_key, str_eq}
use finbar.Simulation.Number.{Number, eq, le, nought}
use finbar.Simulation.Holding.{Clock}
use finbar.Simulation.Types.{ExecutionConfig, SimulatedPosition, World}
use finbar.Simulation.Runner.{Bar, SignalResult, TradingStrategy, run_loop}
use finbar.Simulation.Runner.Final.{run_loop_ends}
use finbar.Strategy.Values.{Json, num, Texts}
use finbar.Strategy.Evaluator.{PrevValues}
use finbar.Strategy.Risk.{Raised}
use finbar.Strategy.Rules.{StrategyDefinition, on_bar}
use finbar.Strategy.Rules.Returns.{is_numeric, IsNumeric, on_bar-returns}

module _ {F : Type 0} where
  with_columns : List (String × Json F) → Dict (Json F) → Dict (Json F)
  with_columns [] row = row
  with_columns ((name, value) ∷ columns) row = with_columns columns (set_key name value row)

  -- `bar_dict`
  unfoldable pub row_of : Bar F → Dict (Json F)
  unfolding with_columns
  row_of b = with_columns b.columns (
      ("open", num b.open_price)
      ∷ ("high", num b.high)
      ∷ ("low", num b.low)
      ∷ ("close", num b.close_price)
      ∷ [])

  -- Every column of the bar holds a number or nothing, and no text or truth value.
  abbrev pub HoldsNumbers : Bar F → Type 0
  HoldsNumbers b = IsNumeric b.columns

  set_key-IsNumeric :
      (name : String) (x : Json F) (row : Dict (Json F))
      → is_numeric x ≡ true
      → IsNumeric row
      → IsNumeric (set_key name x row)
  unfolding set_key
  set_key-IsNumeric name x [] number numeric = (number, tt)
  set_key-IsNumeric name x ((k, v) ∷ row) number numeric = elim (Bool-cases (str_eq k name)) [
    | inl same ↦ rw same (number, numeric.1)
    | inr other ↦ rw other (numeric.0, set_key-IsNumeric name x row number numeric.1)
  ]

  with_columns-IsNumeric :
      (columns : List (String × Json F)) (row : Dict (Json F))
      → IsNumeric columns
      → IsNumeric row
      → IsNumeric (with_columns columns row)
  unfolding with_columns
  with_columns-IsNumeric [] row numbers numeric = numeric
  with_columns-IsNumeric ((name, x) ∷ columns) row numbers numeric =
      with_columns-IsNumeric columns (set_key name x row) numbers.1
        (set_key-IsNumeric name x row numbers.0 numeric)

  row_of-IsNumeric : (b : Bar F) → HoldsNumbers b → IsNumeric (row_of b)
  unfolding row_of
  row_of-IsNumeric b numbers =
      with_columns-IsNumeric b.columns _ numbers (refl, (refl, (refl, (refl, tt))))

module _ {F : Type 0} ⦃number : Number F⦄ ⦃texts : Texts F⦄ where
  -- An exception would end the loop, which this function does not say: it is to be used where there is
  -- none.
  answered :
      PrevValues F
      → Result Raised (PrevValues F × SignalResult F)
      → PrevValues F × Option (SignalResult F)
  answered previous (ok (noted, signal)) = (noted, some signal)
  answered previous (err raised) = (previous, none)

  unfoldable pub json_strategy : StrategyDefinition F → TradingStrategy F (PrevValues F)
  unfolding answered
  json_strategy d = record {
    on_bar = λ previous b position. answered previous (on_bar d previous (row_of b) position);
  }

  -- Whatever the memory and the position, the strategy answers on the bar's row, and the loop takes
  -- this answer.
  abbrev pub Answers : StrategyDefinition F → Bar F → Type 0
  Answers d b =
      (previous : PrevValues F) (position : SimulatedPosition F)
      → (answer : PrevValues F × SignalResult F) × (on_bar d previous (row_of b) position
          ≡ ok answer)
        × ((json_strategy d).on_bar previous b position ≡ (answer.0, some answer.1))

  bar-Answers : (d : StrategyDefinition F) (b : Bar F) → HoldsNumbers b → Answers d b
  unfolding json_strategy
  bar-Answers d b numbers previous position =
      let (answer, returned) =
        on_bar-returns d previous (row_of b) position (row_of-IsNumeric b numbers) in
      (answer, returned, rw returned refl)

  bars-Answer :
      (d : StrategyDefinition F) (bs : List (Bar F)) → All HoldsNumbers bs → All (Answers d) bs
  bars-Answer d [] numbers = tt
  bars-Answer d (b ∷ bs) numbers = (bar-Answers d b numbers.0, bars-Answer d bs numbers.1)

module _ {F : Type 0} ⦃number : Number F⦄ ⦃clock : Clock F⦄ ⦃texts : Texts F⦄ where
  -- A backtest of a JSON strategy, whatever its definition, runs to its end on any bars whose extra
  -- columns hold numbers or nothing, with a leverage multiplier above 0: on the row that the loop builds
  -- of each bar the strategy answers, and the loop takes this answer; and the run returns a result in
  -- which no position is open, with one point of the equity curve for each bar from the first tradable
  -- one on. (Assumed of floats: 0.0 == 0.0.)
  pub json_backtest_ends :
      (d : StrategyDefinition F) (c : ExecutionConfig F) (cash risk : F) (n : ℕ) (bs : List (Bar F))
      → All HoldsNumbers bs
      → eq {F = F} nought nought ≡ true
      → le c.leverage_multiplier nought ≡ false
      → All (Answers d) bs
        × ((w : World F) × (run_loop (json_strategy d) c cash risk n bs [] ≡ ok w)
            × (eq w.state.position.size nought ≡ true)
            × (length w.state.equity_curve ≡ length bs - n))
  json_backtest_ends d c cash risk n bs numbers z positive =
      (bars-Answer d bs numbers, run_loop_ends (json_strategy d) c cash risk n bs [] z positive)
