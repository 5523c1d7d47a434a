-- ===== src/Simulation/Ledger/Orders.antt =====
-- The books after the exits and entries that position_executor.py and backtest_runner.py carry out.
use finbar.Common.{
  none≢some, ◌≡◌, ◌∙◌, sym, refl, false, none, some, String, arith, ok, Option, Bool-cases, inl,
  inr, ok-injective, >>=-eq-ok,
}
use finbar.Simulation.Number.{Number, le, eq, nought}
use finbar.Simulation.Types.{
  ExecutionConfig, World, PendingEntry, PendingExit, ExitReason, entry, signal_exit_next_open,
  end_of_backtest,
}
use finbar.Simulation.Holding.{Clock}
use finbar.Simulation.Exits.{resolve}
use finbar.Simulation.Costs.{apply_slippage}
use finbar.Simulation.Margin.{check_margin_call}
use finbar.Simulation.Closer.{close, check_liquidation}
use finbar.Simulation.Opener.{stop_valid}
use finbar.Simulation.Sizer.{resolve_size}
use finbar.Simulation.Executor.{
  enter, fill_entry, check_margin, check_exit_conditions, hold_one_bar, liquidate_open,
  close_on_fill, portfolio_value, rebase_risk_prices,
}
use finbar.Simulation.Ledger.{IsExact, Reconciled}
use finbar.Simulation.Ledger.Steps.{close-Reconciled, open_position-Reconciled}
use finbar.Simulation.Runner.{execute_pending, pending_exit_step, pending_entry_step}
use finbar.Simulation.Ledger.Accounts.{
  Reconciled-state, add_diagnostic-same, resolve_size-same, restate-same, resolve-flat,
}

module _ {F : Type 0} ⦃num : Number F⦄ ⦃clock : Clock F⦄ (exact : IsExact F) where
  hold_one_bar-Reconciled :
      (initial : F) (w : World F) → Reconciled initial w → Reconciled initial (hold_one_bar w)
  unfolding hold_one_bar
  hold_one_bar-Reconciled initial w r = Reconciled-state initial w _ (ground arith) r

  -- With no position open, no exit of the bar closes one.
  resolved-held :
      (initial : F) (w : World F) (o h l : F) {exit_price : F} {reason : ExitReason}
      → resolve w.state.position o h l ≡ some (exit_price, reason)
      → Reconciled initial w
      → eq w.state.position.size nought ≡ false
  resolved-held initial w o h l found r = elim (Bool-cases (eq w.state.position.size nought)) [
    | inl none_held ↦ absurd (
        none≢some
          (sym (resolve-flat w.state.position o h l exact (exact.eq_nought _ none_held)) ∙ found))
    | inr held ↦ held
  ]

  check_liquidation-Reconciled :
      (c : ExecutionConfig F) (initial : F) (w : World F) (h l : F) (date : String)
      → Reconciled initial w
      → Reconciled initial (check_liquidation c w h l date).0
  unfolding check_liquidation
  check_liquidation-Reconciled c initial w h l date r = grind (arith, close-Reconciled exact)

  close_on_fill-Reconciled :
      (c : ExecutionConfig F) (initial : F) (w : World F) (o h l : F) (date : String)
      (fill : Option (F × ExitReason))
      → resolve w.state.position o h l ≡ fill
      → Reconciled initial w
      → Reconciled initial (close_on_fill c w date fill)
  unfolding close_on_fill
  close_on_fill-Reconciled c initial w o h l date none found r = r
  close_on_fill-Reconciled c initial w o h l date (some (price, reason)) found r =
      close-Reconciled exact c initial w price date reason (resolved-held initial w o h l found r) r

  pub check_exit_conditions-Reconciled :
      (c : ExecutionConfig F) (initial : F) (w : World F) (o h l : F) (date : String)
      → Reconciled initial w
      → Reconciled initial (check_exit_conditions c w o h l date)
  unfolding check_exit_conditions
  check_exit_conditions-Reconciled c initial w o h l date r =
      let checked =
        check_liquidation-Reconciled c initial (hold_one_bar w) h l date
          (hold_one_bar-Reconciled initial w r) in
      let (w', liquidated) = check_liquidation c (hold_one_bar w) h l date in
      elim (Bool-cases liquidated) [
        | inl done ↦ rw done checked
        | inr open_still ↦
            rw open_still (close_on_fill-Reconciled c initial w' o h l date _ refl checked)
      ]

  pub check_margin-Reconciled :
      (c : ExecutionConfig F) (initial : F) (w : World F) (price : F)
      → Reconciled initial w
      → Reconciled initial (check_margin c w price)
  unfolding check_margin check_margin_call
  check_margin-Reconciled c initial w price r = grind (arith, close-Reconciled exact)

  pending_exit-Reconciled :
      (x : Option (PendingExit F)) (c : ExecutionConfig F) (initial : F) (w : World F) (price : F)
      (date : String)
      → Reconciled initial w
      → Reconciled initial (pending_exit_step x c w price date)
  unfolding pending_exit_step
  pending_exit-Reconciled none c initial w price date r = r
  pending_exit-Reconciled (some x) c initial w price date r =
      elim (Bool-cases (eq w.state.position.size nought)) [
        | inl none_held ↦ rw none_held r
        | inr held ↦ rw held (
            Reconciled-state initial (close c w price date signal_exit_next_open) _ (ground arith)
              (close-Reconciled exact c initial w price date signal_exit_next_open held r))
      ]

  fill_entry-Reconciled :
      (c : ExecutionConfig F) (initial : F) (w : World F) (e : PendingEntry F) (price fill : F)
      (date : String) {w' : World F}
      → w.state.position.size ≡ nought
      → fill_entry c w e price fill date ≡ ok w'
      → Reconciled initial w
      → Reconciled initial w'
  unfolding fill_entry
  fill_entry-Reconciled c initial w e price fill date none_held filled r =
      let value = portfolio_value w.state fill in
      let sized = resolve_size c w.state e fill value date in
      let same = resolve_size-same c w.state e fill value date in
      let r' : Reconciled initial (record w { state = sized.1 }) =
        Reconciled-state initial w sized.1 same r in
      elim (Bool-cases (le sized.0 nought)) [
        | inl empty ↦ rw (← ok-injective (rw empty at filled)) (
            Reconciled-state initial (record w { state = sized.1 }) _
              (add_diagnostic-same sized.1 _ _ date _) r')
        | inr some_size ↦
            open_position-Reconciled exact c initial (record w { state = sized.1 }) e sized.0 price
              fill date some_size (same.size ∙ none_held) (rw some_size at filled) r'
      ]

  enter-Reconciled :
      (c : ExecutionConfig F) (initial : F) (w : World F) (e : PendingEntry F) (price : F)
      (date : String) {w' : World F}
      → w.state.position.size ≡ nought
      → enter c w e price date ≡ ok w'
      → Reconciled initial w
      → Reconciled initial w'
  unfolding enter
  enter-Reconciled c initial w e price date none_held entered r =
      let fill = apply_slippage price e.direction entry c.slippage_pct in
      let e' = rebase_risk_prices c e fill in
      let (valid, checked, filled) = >>=-eq-ok (stop_valid c e' fill) _ entered in
      elim (Bool-cases valid) [
        | inl good ↦
            fill_entry-Reconciled c initial w e' price fill date none_held (rw good at filled) r
        | inr bad ↦ rw (← ok-injective (rw bad at filled)) r
      ]

  pending_entry-Reconciled :
      (x : Option (PendingEntry F)) (c : ExecutionConfig F) (initial : F) (w : World F) (price : F)
      (date : String) {w' : World F}
      → pending_entry_step x c w price date ≡ ok w'
      → Reconciled initial w
      → Reconciled initial w'
  unfolding pending_entry_step
  pending_entry-Reconciled none c initial w price date done r = rw (← ok-injective done) r
  pending_entry-Reconciled (some e) c initial w price date done r =
      elim (Bool-cases (eq w.state.position.size nought)) [
        | inl none_held ↦
            enter-Reconciled c initial _ e price date (exact.eq_nought _ none_held)
              (rw none_held at done) (Reconciled-state initial w _ (ground arith) r)
        | inr held ↦ rw (← ok-injective (rw held at done)) r
      ]

  pub execute_pending-Reconciled :
      (c : ExecutionConfig F) (initial : F) (w : World F) (price : F) (date : String) {w' : World F}
      → execute_pending c w price date ≡ ok w'
      → Reconciled initial w
      → Reconciled initial w'
  unfolding execute_pending
  execute_pending-Reconciled c initial w price date done r =
      pending_entry-Reconciled _ c initial _ price date done
        (pending_exit-Reconciled w.state.pending_exit c initial w price date r)

  pub liquidate_open-Reconciled :
      (c : ExecutionConfig F) (initial : F) (w : World F) (price : F) (date : String)
      → Reconciled initial w
      → Reconciled initial (liquidate_open c w price date)
  unfolding liquidate_open
  liquidate_open-Reconciled c initial w price date r =
      elim (Bool-cases (eq w.state.position.size nought)) [
        | inl none_held ↦ rw none_held r
        | inr held ↦ rw held (
            Reconciled-state initial (close c w price date end_of_backtest) _ (restate-same _ price)
              (close-Reconciled exact c initial w price date end_of_backtest held r))
      ]
