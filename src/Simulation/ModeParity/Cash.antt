-- ===== src/Simulation/ModeParity/Cash.antt =====
-- The margin account of position_executor.py holds the cash of the state: what takes it over changes
-- nothing.
use finbar.Common.{
  ◌≡◌, refl, true, false, none, some, [], String, arith, ok, Option, Bool-cases, inl, inr,
  ok-injective, >>=-eq-ok,
}
use finbar.Simulation.Number.{Number, le, eq, nought}
use finbar.Simulation.Types.{
  ExecutionConfig, SimulationState, World, PendingEntry, PendingExit, entry, add_diagnostic,
  signal_exit_next_open,
}
use finbar.Simulation.Holding.{Clock}
use finbar.Simulation.Costs.{apply_slippage}
use finbar.Simulation.Margin.{apply_funding, sync_state_equity, equity}
use finbar.Simulation.Closer.{check_liquidation}
use finbar.Simulation.Opener.{stop_valid}
use finbar.Simulation.Sizer.{resolve_size}
use finbar.Simulation.Executor.{
  portfolio_value, enter, fill_entry, fund, sync_margin_equity, check_exit_conditions, hold_one_bar,
  rebase_risk_prices, close_on_fill,
}
use finbar.Simulation.Frame.{resolve_size-SameBook}
use finbar.Simulation.Ledger.{SameCash}
use finbar.Simulation.Ledger.Steps.{close-SameCash, open_position-SameCash}
use finbar.Simulation.Runner.{execute_pending, pending_exit_step, pending_entry_step}

module _ {F : Type 0} ⦃num : Number F⦄ where
  -- Without funding the funding step does nothing.
  pub fund-idle :
      (c : ExecutionConfig F) (w : World F)
      → eq {F = F} nought nought ≡ true
      → c.enable_funding ≡ false
      → SameCash w
      → fund c w ≡ w
  unfolding fund apply_funding sync_state_equity equity
  fund-idle c w z off same = ground arith

  pub sync_margin_equity-idle : (w : World F) → SameCash w → sync_margin_equity w ≡ w
  unfolding sync_margin_equity sync_state_equity equity
  sync_margin_equity-idle w same = ground arith

  pub SameCash-state :
      (w : World F) (s : SimulationState F)
      → s.cash ≡ w.state.cash
      → SameCash w
      → SameCash (record w { state = s })
  SameCash-state w s kept same = ground arith

  fill_entry-SameCash :
      (c : ExecutionConfig F) (w : World F) (e : PendingEntry F) (price fill : F) (date : String)
      {w' : World F}
      → SameCash w
      → fill_entry c w e price fill date ≡ ok w'
      → SameCash w'
  unfolding fill_entry add_diagnostic
  fill_entry-SameCash c w e price fill date same filled =
      let value = portfolio_value w.state fill in
      let sized = resolve_size c w.state e fill value date in
      let kept = (resolve_size-SameBook c w.state e fill value date).cash in
      let same' = SameCash-state w sized.1 kept same in
      elim (Bool-cases (le sized.0 nought)) [
        | inl empty ↦ rw (← ok-injective (rw empty at filled)) (
            SameCash-state w (add_diagnostic sized.1 "order_rejected" "entry_size_zero" date [])
              kept same)
        | inr some_size ↦
            open_position-SameCash c (record w { state = sized.1 }) e sized.0 price fill date same'
              (rw some_size at filled)
      ]

  enter-SameCash :
      (c : ExecutionConfig F) (w : World F) (e : PendingEntry F) (price : F) (date : String)
      {w' : World F}
      → SameCash w
      → enter c w e price date ≡ ok w'
      → SameCash w'
  unfolding enter
  enter-SameCash c w e price date same entered =
      let fill = apply_slippage price e.direction entry c.slippage_pct in
      let e' = rebase_risk_prices c e fill in
      let (valid, checked, filled) = >>=-eq-ok (stop_valid c e' fill) _ entered in
      elim (Bool-cases valid) [
        | inl good ↦ fill_entry-SameCash c w e' price fill date same (rw good at filled)
        | inr bad ↦ rw (← ok-injective (rw bad at filled)) same
      ]

module _ {F : Type 0} ⦃num : Number F⦄ ⦃clock : Clock F⦄ where
  pub check_exit_conditions-SameCash :
      (c : ExecutionConfig F) (w : World F) (o h l : F) (date : String)
      → SameCash w
      → SameCash (check_exit_conditions c w o h l date)
  unfolding check_exit_conditions check_liquidation hold_one_bar close_on_fill
  check_exit_conditions-SameCash c w o h l date same = grind (arith, close-SameCash)

  pending_exit-SameCash :
      (x : Option (PendingExit F)) (c : ExecutionConfig F) (w : World F) (price : F) (date : String)
      → SameCash w
      → SameCash (pending_exit_step x c w price date)
  unfolding pending_exit_step
  pending_exit-SameCash none c w price date same = same
  pending_exit-SameCash (some x) c w price date same =
      ground (arith, close-SameCash c w price date signal_exit_next_open)

  pending_entry-SameCash :
      (x : Option (PendingEntry F)) (c : ExecutionConfig F) (w : World F) (price : F)
      (date : String) {w' : World F}
      → SameCash w
      → pending_entry_step x c w price date ≡ ok w'
      → SameCash w'
  unfolding pending_entry_step
  pending_entry-SameCash none c w price date same done = rw (← ok-injective done) same
  pending_entry-SameCash (some e) c w price date same done =
      elim (Bool-cases (eq w.state.position.size nought)) [
        | inl none_held ↦
            let s = w.state in
            let taken : SimulationState F = record s { pending_entry = none } in
            enter-SameCash c (record w { state = taken }) e price date
              (SameCash-state w taken refl same) (rw none_held at done)
        | inr held ↦ rw (← ok-injective (rw held at done)) same
      ]

  pub execute_pending-SameCash :
      (c : ExecutionConfig F) (w : World F) (price : F) (date : String) {w' : World F}
      → SameCash w
      → execute_pending c w price date ≡ ok w'
      → SameCash w'
  unfolding execute_pending
  execute_pending-SameCash c w price date same done =
      pending_entry-SameCash _ c _ price date
        (pending_exit-SameCash w.state.pending_exit c w price date same) done
