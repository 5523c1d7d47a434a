-- ===== src/Simulation/ModeParity.antt =====
-- A run in full-margin mode beside one in simplified mode: the executor's margin account leaves the
-- state alone.
pub mod Cash
pub mod Run
use finbar.Common.{
  ℕ, zero, suc, ◌≡◌, ◌∙◌, sym, ap, refl, true, false, Bool, none, some, List, [], ◌∷◌, String,
  arith, ok, err, Option, Bool-cases, inl, inr, ok-injective, ◌>>=◌, All, if◌then◌else◌, Result,
}
use finbar.Simulation.Number.{Number, IsOrdered, le, eq, nought}
use finbar.Simulation.Types.{
  ExecutionConfig, SimulationState, World, PendingEntry, PendingExit, ExitReason, MarginMode, full,
  simplified, Fallible, signal_exit_next_open, end_of_backtest, entry, initial_state, Direction,
  long, short, other, Error,
}
use finbar.Simulation.Holding.{Clock}
use finbar.Simulation.Leverage.{
  leverage_of, is_spot, liquidation_price, margin_required, validate_stop,
}
use finbar.Simulation.Costs.{apply_slippage}
use finbar.Simulation.Exits.{resolve}
use finbar.Simulation.Margin.{apply_funding, sync_state_equity, equity, open_account}
use finbar.Simulation.Closer.{
  build_trade, close, settle, release_margin, borrow_cost, check_liquidation,
}
use finbar.Simulation.Opener.{open_position, stop_valid}
use finbar.Simulation.Sizer.{
  resolve_size, raw_size, apply_affordability_cap, cap_size, max_affordable_size,
  risk_budget_multiplier,
}
use finbar.Simulation.Executor.{
  portfolio_value, enter, fill_entry, fund, sync_margin_equity, check_margin, check_exit_conditions,
  hold_one_bar, liquidate_open, setup_full_margin, rebase_risk_prices, close_on_fill,
}
use finbar.Simulation.MarginCall.{check_margin-redundant}
use finbar.Simulation.Ledger.{SameCash}
use finbar.Simulation.Runner.{
  Bar, TradingStrategy, execute_pending, pending_exit_step, pending_entry_step, after_open,
  trade_bar, trade_bars, run_bars, run_loop, final_of,
}

module _ {F : Type 0} where
  -- The same configuration in another margin mode, and the same state without a margin account.
  abbrev pub in_mode : MarginMode → ExecutionConfig F → ExecutionConfig F
  in_mode m c = record c { margin_mode = m }

  abbrev pub strip : World F → World F
  strip w = record { state = w.state; margin = none }

  abbrev pub strip_ok : Fallible (World F) → Fallible (World F)
  strip_ok r = r >>= λ w. ok (strip w)

module _ {F : Type 0} ⦃num : Number F⦄ ⦃clock : Clock F⦄ (m : MarginMode)
    (c : ExecutionConfig F) where
  close-strip :
      (w : World F) (price : F) (date : String) (reason : ExitReason)
      → close (in_mode m c) (strip w) price date reason ≡ strip (close c w price date reason)
  unfolding close build_trade settle release_margin borrow_cost leverage_of
  close-strip w price date reason = refl

  check_liquidation-strip :
      (w : World F) (h l : F) (date : String)
      → let (w', liquidated) = check_liquidation c w h l date in
        check_liquidation (in_mode m c) (strip w) h l date ≡ (strip w', liquidated)
  unfolding check_liquidation leverage_of
  check_liquidation-strip w h l date = grind (arith, close-strip)

  close_on_fill-strip :
      (w : World F) (date : String) (fill : Option (F × ExitReason))
      → close_on_fill (in_mode m c) (strip w) date fill ≡ strip (close_on_fill c w date fill)
  unfolding close_on_fill
  close_on_fill-strip w date none = refl
  close_on_fill-strip w date (some (price, reason)) = close-strip w price date reason

  pub check_exit_conditions-strip :
      (w : World F) (o h l : F) (date : String)
      → check_exit_conditions (in_mode m c) (strip w) o h l date
        ≡ strip (check_exit_conditions c w o h l date)
  unfolding check_exit_conditions hold_one_bar
  check_exit_conditions-strip w o h l date =
      let held = hold_one_bar w in
      let (w', liquidated) = check_liquidation c held h l date in
      elim (Bool-cases liquidated) [
        | inl done ↦ rw (check_liquidation-strip held h l date, done) refl
        | inr more ↦
            rw (check_liquidation-strip held h l date, more)
              (close_on_fill-strip w' date (resolve w'.state.position o h l))
      ]

  resolve_size-mode :
      (s : SimulationState F) (e : PendingEntry F) (price value : F) (date : String)
      → resolve_size (in_mode m c) s e price value date ≡ resolve_size c s e price value date
  unfolding resolve_size raw_size apply_affordability_cap cap_size max_affordable_size
      risk_budget_multiplier leverage_of
  resolve_size-mode s e price value date = refl

  open_position-strip :
      (w : World F) (e : PendingEntry F) (size raw fill : F) (date : String)
      → open_position (in_mode m c) (strip w) e size raw fill date
        ≡ strip_ok (open_position c w e size raw fill date)
  unfolding open_position leverage_of
  open_position-strip w e size raw fill date = ground arith

  fill_entry-strip :
      (w : World F) (e : PendingEntry F) (price fill : F) (date : String)
      → fill_entry (in_mode m c) (strip w) e price fill date
        ≡ strip_ok (fill_entry c w e price fill date)
  unfolding fill_entry
  fill_entry-strip w e price fill date =
      let (size, s) = resolve_size c w.state e fill (portfolio_value w.state fill) date in
      rw (resolve_size-mode w.state e fill (portfolio_value w.state fill) date)
        (ground (arith, open_position-strip (record w { state = s }) e size price fill date))

  enter-strip :
      (w : World F) (e : PendingEntry F) (price : F) (date : String)
      → enter (in_mode m c) (strip w) e price date ≡ strip_ok (enter c w e price date)
  unfolding enter rebase_risk_prices stop_valid leverage_of
  enter-strip w e price date =
      let fill = apply_slippage price e.direction entry c.slippage_pct in
      let e' = rebase_risk_prices c e fill in ground (arith, fill_entry-strip w e' price fill date)

  pending_exit-strip :
      (x : Option (PendingExit F)) (w : World F) (price : F) (date : String)
      → pending_exit_step x (in_mode m c) (strip w) price date
        ≡ strip (pending_exit_step x c w price date)
  unfolding pending_exit_step
  pending_exit-strip none w price date = refl
  pending_exit-strip (some x) w price date =
      ground (arith, close-strip w price date signal_exit_next_open)

  pending_entry-strip :
      (x : Option (PendingEntry F)) (w : World F) (price : F) (date : String)
      → pending_entry_step x (in_mode m c) (strip w) price date
        ≡ strip_ok (pending_entry_step x c w price date)
  unfolding pending_entry_step
  pending_entry-strip none w price date = refl
  pending_entry-strip (some e) w price date =
      let s = w.state in
      ground
        (arith, enter-strip (record w { state = record s { pending_entry = none } }) e price date)

  pub execute_pending-strip :
      (w : World F) (price : F) (date : String)
      → execute_pending (in_mode m c) (strip w) price date
        ≡ strip_ok (execute_pending c w price date)
  unfolding execute_pending
  execute_pending-strip w price date =
      rw (pending_exit-strip w.state.pending_exit w price date)
        (pending_entry-strip _ (pending_exit_step w.state.pending_exit c w price date) price date)

  pub liquidate_open-strip :
      (w : World F) (price : F) (date : String)
      → liquidate_open (in_mode m c) (strip w) price date ≡ strip (liquidate_open c w price date)
  unfolding liquidate_open
  liquidate_open-strip w price date = ground (arith, close-strip w price date end_of_backtest)
