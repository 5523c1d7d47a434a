-- ===== src/Simulation/Runner/Growth.antt =====
-- The trades and the equity curve of a run of backtest_runner.py as logs.
use finbar.Common.{
  ok-injective, >>=-eq-ok, String, Option, ◌≡◌, ok, arith, IsPrefix, IsPrefix-refl, IsPrefix-append,
  IsPrefix-trans,
}
use finbar.Simulation.Number.{Number}
use finbar.Simulation.Types.{ExecutionConfig, SimulationState, World, PendingEntry, ExitReason}
use finbar.Simulation.Holding.{Clock}
use finbar.Simulation.Opener.{open_position}
use finbar.Simulation.Closer.{close, check_liquidation}
use finbar.Simulation.Types.{add_diagnostic}
use finbar.Simulation.Executor.{
  fill_entry, enter, hold_one_bar, check_margin, check_exit_conditions, fund, sync_margin_equity,
}
use finbar.Simulation.Margin.{sync_state_equity}
use finbar.Simulation.Frame.{close-Closed, resolve_size-SameBook}
use finbar.Simulation.Runner.{
  track_equity, Bar, trade_bar, after_open, TradingStrategy, check_margin, check_exit_conditions,
  enter, SignalResult, process_signal, execute_pending,
}

module _ {F : Type 0} where
  -- The second log extends the first.
  abbrev Grown : SimulationState F → SimulationState F → Type 0
  Grown s t = IsPrefix s.trades t.trades

  Grown-of_eq : (s t : SimulationState F) → t.trades ≡ s.trades → Grown s t
  Grown-of_eq s t e = rw e (IsPrefix-refl s.trades)

  Grown-trans : (s t u : SimulationState F) → Grown s t → Grown t u → Grown s u
  Grown-trans s t u = IsPrefix-trans s.trades t.trades u.trades

module _ {F : Type 0} ⦃num : Number F⦄ where
  open_position-trades :
      (c : ExecutionConfig F) (w : World F) (e : PendingEntry F) (size raw fill : F) (date : String)
      {w' : World F}
      → open_position c w e size raw fill date ≡ ok w'
      → w'.state.trades ≡ w.state.trades
  unfolding open_position
  open_position-trades c w e size raw fill date h = ground arith

  enter-trades :
      (c : ExecutionConfig F) (w : World F) (e : PendingEntry F) (price : F) (date : String)
      {w' : World F}
      → enter c w e price date ≡ ok w'
      → w'.state.trades ≡ w.state.trades
  unfolding enter fill_entry add_diagnostic
  enter-trades c w e price date h = grind (arith, resolve_size-SameBook, open_position-trades)

  process_signal-trades :
      (s : SimulationState F) (g : Option (SignalResult F)) (close_price risk : F)
      → (process_signal s g close_price risk).trades ≡ s.trades
  unfolding process_signal
  process_signal-trades s g close_price risk = ground arith

module _ {F : Type 0} ⦃num : Number F⦄ ⦃clock : Clock F⦄ where
  close-Grown :
      (c : ExecutionConfig F) (w : World F) (price : F) (date : String) (reason : ExitReason)
      → Grown w.state (close c w price date reason).state
  close-Grown c w price date reason =
      let closed = close-Closed c w price date reason in
      rw closed.trades (IsPrefix-append w.state.trades _)

  check_exit_conditions-Grown :
      (c : ExecutionConfig F) (w : World F) (o h l : F) (date : String)
      → Grown w.state (check_exit_conditions c w o h l date).state
  unfolding check_exit_conditions check_liquidation hold_one_bar
  check_exit_conditions-Grown c w o h l date = grind (arith, close-Grown, IsPrefix-refl)

  check_margin-Grown :
      (c : ExecutionConfig F) (w : World F) (price : F)
      → Grown w.state (check_margin c w price).state
  unfolding check_margin
  check_margin-Grown c w price = grind (arith, close-Grown, IsPrefix-refl)

module _ {F : Type 0} ⦃num : Number F⦄ where
  fund-trades : (c : ExecutionConfig F) (w : World F) → (fund c w).state.trades ≡ w.state.trades
  unfolding fund sync_state_equity
  fund-trades c w = ground arith

  sync_margin_equity-trades : (w : World F) → (sync_margin_equity w).state.trades ≡ w.state.trades
  unfolding sync_margin_equity sync_state_equity
  sync_margin_equity-trades w = ground arith

module _ {F : Type 0} ⦃num : Number F⦄ ⦃clock : Clock F⦄ where
  execute_pending-Grown :
      (c : ExecutionConfig F) (w : World F) (price : F) (date : String) {w' : World F}
      → execute_pending c w price date ≡ ok w'
      → Grown w.state w'.state
  unfolding execute_pending
  execute_pending-Grown c w price date h = grind (arith, close-Grown, enter-trades, IsPrefix-refl)

  module _ {S : Type 0} (strategy : TradingStrategy F S) where
    after_open-Grown :
        (c : ExecutionConfig F) (risk : F) (b : Bar F) (memory : S) (w : World F)
        → Grown w.state (after_open strategy c risk b memory w).1.state
    unfolding after_open track_equity
    after_open-Grown c risk b memory w =
        let held = check_exit_conditions c w b.open_price b.high b.low b.date in
        let checked = check_margin c held b.close_price in
        let funded = fund c checked in
        rw
          (
            sync_margin_equity-trades _,
            process_signal-trades _ _ b.close_price risk,
            fund-trades c checked,
          )
          (Grown-trans w.state held.state checked.state
            (check_exit_conditions-Grown c w b.open_price b.high b.low b.date)
            (check_margin-Grown c held b.close_price))

    pub trade_bar-Grown :
        (c : ExecutionConfig F) (risk : F) (b : Bar F) (memory : S) (w : World F)
        {end : S × World F}
        → trade_bar strategy c risk b memory w ≡ ok end
        → Grown w.state end.1.state
    unfolding trade_bar
    trade_bar-Grown c risk b memory w {end = end} e =
        let (opened, pending, done) = >>=-eq-ok (execute_pending c w b.open_price b.date) _ e in
        rw (← ok-injective done) (
          Grown-trans w.state opened.state (after_open strategy c risk b memory opened).1.state
            (execute_pending-Grown c w b.open_price b.date pending)
            (after_open-Grown c risk b memory opened))
