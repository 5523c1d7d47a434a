-- ===== src/Simulation/Runner/Total.antt =====
-- When the bar loop of backtest_runner.py returns a result.
use finbar.Common.{
  is_ok, is_ok->>=, result_of, Bool-cases, inl, inr, ap, ◌∙◌, >>=-eq-ok, ok-injective, ℕ, String,
  Bool, true, false, Option, none, some, List, [], ◌∷◌, ◌≡◌, ok, arith, refl, drop,
}
use finbar.Simulation.Number.{Number, nought, le}
use finbar.Simulation.Types.{
  entry, Direction, long, short, other, ExecutionConfig, SimulationState, PendingEntry, World,
  initial_state,
}
use finbar.Simulation.Holding.{Clock}
use finbar.Simulation.Leverage.{validate_stop, liquidation_price, margin_required, leverage_of}
use finbar.Simulation.Opener.{stop_valid, open_position}
use finbar.Simulation.Costs.{apply_slippage}
use finbar.Simulation.Executor.{
  rebase_risk_prices, fill_entry, enter, check_exit_conditions, check_margin, fund,
}
use finbar.Simulation.Frame.{
  check_exit_conditions-SameQueue, check_margin-SameQueue, fund-SameQueue, close-Closed,
  enter-SameQueue, sync_margin_equity-SameQueue,
}
use finbar.Simulation.Runner.Warmup.{run_bars-eq-drop}
use finbar.Simulation.Runner.{
  Bar, TradingStrategy, SignalResult, process_signal, track_equity, execute_pending, after_open,
  trade_bar, trade_bars, run_bars, run_loop,
}

abbrev is_trade_direction : Direction → Bool
is_trade_direction long = true
is_trade_direction short = true
is_trade_direction (other d) = false

module _ {F : Type 0} ⦃num : Number F⦄ where
  abbrev tradable : Option (PendingEntry F) → Bool
  tradable none = true
  tradable (some e) = is_trade_direction e.direction

  abbrev IsLevered : ExecutionConfig F → Type 0
  IsLevered c = le c.leverage_multiplier nought ≡ false

  stop_valid-returns :
      (c : ExecutionConfig F) (e : PendingEntry F) (price : F)
      → is_trade_direction e.direction ≡ true
      → is_ok (stop_valid c e price) ≡ true
  unfolding stop_valid validate_stop liquidation_price
  stop_valid-returns c e price d = ground arith

  open_position-returns :
      (c : ExecutionConfig F) (w : World F) (e : PendingEntry F) (size raw fill : F) (date : String)
      → IsLevered c
      → is_ok (open_position c w e size raw fill date) ≡ true
  unfolding open_position margin_required liquidation_price leverage_of
  open_position-returns c w e size raw fill date r = ground arith

  rebase_risk_prices-direction :
      (c : ExecutionConfig F) (e : PendingEntry F) (price : F)
      → (rebase_risk_prices c e price).direction ≡ e.direction
  unfolding rebase_risk_prices
  rebase_risk_prices-direction c e price = ground arith

  fill_entry-returns :
      (c : ExecutionConfig F) (w : World F) (e : PendingEntry F) (price fill : F) (date : String)
      → IsLevered c
      → is_ok (fill_entry c w e price fill date) ≡ true
  unfolding fill_entry
  fill_entry-returns c w e price fill date r = grind (arith, open_position-returns)

  enter-returns :
      (c : ExecutionConfig F) (w : World F) (e : PendingEntry F) (price : F) (date : String)
      → IsLevered c
      → is_trade_direction e.direction ≡ true
      → is_ok (enter c w e price date) ≡ true
  unfolding enter
  enter-returns c w e price date r d =
      let fill = apply_slippage price e.direction entry c.slippage_pct in
      let e' = rebase_risk_prices c e fill in
      is_ok->>= (stop_valid c e' fill) _
        (stop_valid-returns c e' fill
          (ap is_trade_direction (rebase_risk_prices-direction c e fill) ∙ d))
        (λ valid h. elim (Bool-cases valid) [
          | inl holds ↦ rw holds (fill_entry-returns c w e' price fill date r)
          | inr fails ↦ rw fails refl
        ])

  process_signal-tradable :
      (s : SimulationState F) (g : Option (SignalResult F)) (close_price risk : F)
      → tradable s.pending_entry ≡ true
      → tradable (process_signal s g close_price risk).pending_entry ≡ true
  unfolding process_signal
  process_signal-tradable s g close_price risk h = ground arith

module _ {F : Type 0} ⦃num : Number F⦄ ⦃clock : Clock F⦄ where
  execute_pending-returns :
      (c : ExecutionConfig F) (w : World F) (price : F) (date : String)
      → IsLevered c
      → tradable w.state.pending_entry ≡ true
      → is_ok (execute_pending c w price date) ≡ true
  unfolding execute_pending
  execute_pending-returns c w price date r h = grind (arith, enter-returns, close-Closed)

  execute_pending-tradable :
      (c : ExecutionConfig F) (w : World F) (price : F) (date : String) {w' : World F}
      → tradable w.state.pending_entry ≡ true
      → execute_pending c w price date ≡ ok w'
      → tradable w'.state.pending_entry ≡ true
  unfolding execute_pending
  execute_pending-tradable c w price date h e = grind (arith, enter-SameQueue, close-Closed)

  module _ {S : Type 0} (strategy : TradingStrategy F S) where
    after_open-tradable :
        (c : ExecutionConfig F) (risk : F) (b : Bar F) (memory : S) (w : World F)
        → tradable w.state.pending_entry ≡ true
        → tradable (after_open strategy c risk b memory w).1.state.pending_entry ≡ true
    unfolding after_open track_equity
    after_open-tradable c risk b memory w h =
        let held = check_exit_conditions c w b.open_price b.high b.low b.date in
        let funded = fund c (check_margin c held b.close_price) in
        let g = (strategy.on_bar memory b funded.state.position).1 in
        let s = process_signal funded.state g b.close_price risk in
        let kept : tradable funded.state.pending_entry ≡ true = ground (
          arith,
          check_exit_conditions-SameQueue c w b.open_price b.high b.low b.date,
          check_margin-SameQueue c held b.close_price,
          fund-SameQueue c (check_margin c held b.close_price),
        ) in
        ap tradable
          (sync_margin_equity-SameQueue
            (record funded { state = track_equity s b.close_price b.date })).entry
        ∙ process_signal-tradable funded.state g b.close_price risk kept

    trade_bars-returns :
        (c : ExecutionConfig F) (risk : F) (bs : List (Bar F)) (memory : S) (w : World F)
        → IsLevered c
        → tradable w.state.pending_entry ≡ true
        → is_ok (trade_bars strategy c risk bs memory w) ≡ true
    unfolding trade_bars trade_bar
    trade_bars-returns c risk [] memory w r h = refl
    trade_bars-returns c risk (b ∷ bs) memory w r h =
        is_ok->>= (trade_bar strategy c risk b memory w) _
          (is_ok->>= (execute_pending c w b.open_price b.date) _
            (execute_pending-returns c w b.open_price b.date r h) (λ opened e. refl))
          (λ next first.
            let (opened, pending, done) =
              >>=-eq-ok (execute_pending c w b.open_price b.date) _ first in
            trade_bars-returns c risk bs next.0 next.1 r (
              rw (← ok-injective done) (
                after_open-tradable c risk b memory opened
                  (execute_pending-tradable c w b.open_price b.date h pending))))

    run_bars-returns :
        (n : ℕ) (c : ExecutionConfig F) (risk : F) (bs : List (Bar F)) (memory : S) (w : World F)
        → IsLevered c
        → tradable w.state.pending_entry ≡ true
        → is_ok (run_bars strategy n c risk bs memory w) ≡ true
    run_bars-returns n c risk bs memory w r h =
        rw (run_bars-eq-drop strategy n c risk bs memory w)
          (trade_bars-returns c risk (drop n bs) _ w r h)

    -- With a leverage multiplier above 0 the loop raises none of the `ValueError`s of
    -- `LeverageConfig`, on any bars, whatever the strategy answers: it returns a result.
    pub run_loop-returns :
        (c : ExecutionConfig F) (cash risk : F) (n : ℕ) (bs : List (Bar F)) (memory : S)
        → le c.leverage_multiplier nought ≡ false
        → (w : World F) × (run_loop strategy c cash risk n bs memory ≡ ok w)
    unfolding run_loop initial_state
    run_loop-returns c cash risk n bs memory r = result_of _ (
        is_ok->>= (run_bars strategy n c risk bs memory _) _
          (run_bars-returns n c risk bs memory _ r refl) (λ end e. refl))
