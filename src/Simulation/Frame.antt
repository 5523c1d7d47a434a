-- ===== src/Simulation/Frame.antt =====
-- What the operations of position_closer.py, position_opener.py and position_executor.py change.
use finbar.Common.{List, String, [], ◌∷◌, ◌++◌, ◌≡◌, ok, arith}
use finbar.Simulation.Number.{Number}
use finbar.Simulation.Types.{
  ExecutionConfig, SimulationState, World, PendingEntry, TradeRecord, ExitReason, flat,
  add_diagnostic,
}
use finbar.Simulation.Holding.{Clock}
use finbar.Simulation.Margin.{sync_state_equity}
use finbar.Simulation.Closer.{build_trade, to_dict, settle, close, release_margin}
use finbar.Simulation.Closer.{check_liquidation}
use finbar.Simulation.Executor.{
  check_exit_conditions, hold_one_bar, check_margin, fund, sync_margin_equity,
}
use finbar.Simulation.Sizer.{cap_size, raw_size, apply_affordability_cap, resolve_size}
use finbar.Simulation.Opener.{open_position}
use finbar.Simulation.Executor.{fill_entry, enter}

module _ {F : Type 0} where
  -- The queued orders and the equity curve are as before.
  pub record SameQueue (s t : SimulationState F) : Type 0 where
    pub entry : t.pending_entry ≡ s.pending_entry
    pub exit : t.pending_exit ≡ s.pending_exit
    pub curve : t.equity_curve ≡ s.equity_curve

  pub record SameBook (s t : SimulationState F) : Type 0 where
    pub queue : SameQueue s t
    pub trades : t.trades ≡ s.trades
    pub position : t.position ≡ s.position
    pub cash : t.cash ≡ s.cash
    pub funding : t.total_funding ≡ s.total_funding

module _ {F : Type 0} ⦃num : Number F⦄ where
  add_diagnostic-SameBook :
      (s : SimulationState F) (severity code date : String) (metadata : List (String × F))
      → SameBook s (add_diagnostic s severity code date metadata)
  unfolding add_diagnostic
  add_diagnostic-SameBook s severity code date metadata = ground arith

  raw_size-SameBook :
      (c : ExecutionConfig F) (s : SimulationState F) (e : PendingEntry F) (value price : F)
      (date : String)
      → SameBook s (raw_size c e value price s date).1
  unfolding raw_size
  raw_size-SameBook c s e value price date = grind (arith, add_diagnostic-SameBook)

  cap_size-SameBook :
      (c : ExecutionConfig F) (s : SimulationState F) (e : PendingEntry F) (size cap : F)
      (date : String)
      → SameBook s (cap_size c s e size cap date).1
  unfolding cap_size
  cap_size-SameBook c s e size cap date = grind (arith, add_diagnostic-SameBook)

  apply_affordability_cap-SameBook :
      (c : ExecutionConfig F) (s : SimulationState F) (e : PendingEntry F) (size price : F)
      (date : String)
      → SameBook s (apply_affordability_cap c s e size price date).1
  unfolding apply_affordability_cap
  apply_affordability_cap-SameBook c s e size price date =
      grind (arith, add_diagnostic-SameBook, cap_size-SameBook)

  pub resolve_size-SameBook :
      (c : ExecutionConfig F) (s : SimulationState F) (e : PendingEntry F) (price value : F)
      (date : String)
      → SameBook s (resolve_size c s e price value date).1
  unfolding resolve_size
  resolve_size-SameBook c s e price value date =
      grind (arith, raw_size-SameBook, apply_affordability_cap-SameBook)

  open_position-SameQueue :
      (c : ExecutionConfig F) (w : World F) (e : PendingEntry F) (size raw fill : F) (date : String)
      {w' : World F}
      → open_position c w e size raw fill date ≡ ok w'
      → SameQueue w.state w'.state
  unfolding open_position
  open_position-SameQueue c w e size raw fill date h = ground arith

  pub enter-SameQueue :
      (c : ExecutionConfig F) (w : World F) (e : PendingEntry F) (price : F) (date : String)
      {w' : World F}
      → enter c w e price date ≡ ok w'
      → SameQueue w.state w'.state
  unfolding enter fill_entry add_diagnostic
  enter-SameQueue c w e price date h = grind (arith, resolve_size-SameBook, open_position-SameQueue)

module _ {F : Type 0} ⦃num : Number F⦄ ⦃clock : Clock F⦄ where
  -- `t` is `s` with the position flat and one trade more.
  pub record Closed (s t : SimulationState F) (trade : TradeRecord F) : Type 0 where
    pub queue : SameQueue s t
    pub position : t.position ≡ flat
    pub trades : t.trades ≡ s.trades ++ trade ∷ []

  -- Closing a position leaves it flat, appends to the trades exactly one, the rounded record of the
  -- exit, and leaves the queued orders and the equity curve as they are.
  pub close-Closed :
      (c : ExecutionConfig F) (w : World F) (price : F) (date : String) (reason : ExitReason)
      → Closed w.state
          (close c w price date reason).state
          (to_dict (build_trade c w.state.position price date reason))
  unfolding close settle release_margin
  close-Closed c w price date reason = ground arith

  pub check_exit_conditions-SameQueue :
      (c : ExecutionConfig F) (w : World F) (o h l : F) (date : String)
      → SameQueue w.state (check_exit_conditions c w o h l date).state
  unfolding check_exit_conditions check_liquidation hold_one_bar
  check_exit_conditions-SameQueue c w o h l date = grind (arith, close-Closed)

  pub check_margin-SameQueue :
      (c : ExecutionConfig F) (w : World F) (price : F)
      → SameQueue w.state (check_margin c w price).state
  unfolding check_margin
  check_margin-SameQueue c w price = grind (arith, close-Closed)

module _ {F : Type 0} ⦃num : Number F⦄ where
  pub fund-SameQueue : (c : ExecutionConfig F) (w : World F) → SameQueue w.state (fund c w).state
  unfolding fund sync_state_equity
  fund-SameQueue c w = ground arith

  pub sync_margin_equity-SameQueue : (w : World F) → SameQueue w.state (sync_margin_equity w).state
  unfolding sync_margin_equity sync_state_equity
  sync_margin_equity-SameQueue w = ground arith

  pub sync_margin_equity-position :
      (w : World F) → (sync_margin_equity w).state.position ≡ w.state.position
  unfolding sync_margin_equity sync_state_equity
  sync_margin_equity-position w = ground arith
