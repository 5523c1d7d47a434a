-- ===== src/Simulation/Runner/Orders.antt =====
-- The queued orders of the bar loop (`_process_signal` and `_execute_pending`).
use finbar.Common.{
  List, [], ◌∷◌, ℕ, >>=-eq-ok, ok-injective, String, Bool, true, false, not, ◌&&◌, Option, none,
  some, ◌≡◌, ok, arith, drop, sym, ◌∙◌,
}
use finbar.Simulation.Number.{Number, nought, eq}
use finbar.Simulation.Types.{initial_state, ExecutionConfig, SimulationState, World, flat}
use finbar.Simulation.Holding.{Clock}
use finbar.Simulation.Frame.{
  check_exit_conditions-SameQueue, check_margin-SameQueue, fund-SameQueue, close-Closed,
  enter-SameQueue, sync_margin_equity-SameQueue, sync_margin_equity-position,
}
use finbar.Simulation.Executor.{
  check_exit_conditions, check_margin, fund, setup_full_margin, sync_margin_equity,
}
use finbar.Simulation.Runner.Warmup.{run_bars-eq-drop}
use finbar.Simulation.Runner.{
  Bar, TradingStrategy, after_open, trade_bar, trade_bars, run_bars, SignalResult, process_signal,
  track_equity, execute_pending,
}

abbrev pub is_some {ℓ} : {A : Type ℓ} → Option A → Bool
is_some none = false
is_some (some a) = true

module _ {F : Type 0} ⦃num : Number F⦄ where
  -- A queued exit waits only on an open position, a queued entry only on a flat one.
  pub record IsOrderly (s : SimulationState F) : Type 0 where
    pub exit_open : (is_some s.pending_exit && eq s.position.size nought) ≡ false
    pub entry_flat : (is_some s.pending_entry && not (eq s.position.size nought)) ≡ false

  -- No order is queued.
  pub record IsDrained (s : SimulationState F) : Type 0 where
    pub no_entry : s.pending_entry ≡ none
    pub no_exit : s.pending_exit ≡ none

  process_signal-IsOrderly :
      (s : SimulationState F) (g : Option (SignalResult F)) (close_price risk : F)
      → IsDrained s
      → IsOrderly (process_signal s g close_price risk)
  unfolding process_signal
  process_signal-IsOrderly s g close_price risk d = ground arith

  track_equity-IsOrderly :
      (s : SimulationState F) (close_price : F) (date : String)
      → IsOrderly s
      → IsOrderly (track_equity s close_price date)
  unfolding track_equity
  track_equity-IsOrderly s close_price date d = ground arith

  sync_margin_equity-IsOrderly :
      (w : World F) → IsOrderly w.state → IsOrderly (sync_margin_equity w).state
  sync_margin_equity-IsOrderly w h =
      ground (arith, sync_margin_equity-SameQueue w, sync_margin_equity-position w)

module _ {F : Type 0} ⦃num : Number F⦄ ⦃clock : Clock F⦄ where
  -- If the queue is orderly when a bar opens, then after `_execute_pending` no order is left over.
  -- (0.0 == 0.0 is the one fact about floats.)
  execute_pending-IsDrained :
      (c : ExecutionConfig F) (w : World F) (price : F) (date : String) {w' : World F}
      → eq {F = F} nought nought ≡ true
      → IsOrderly w.state
      → execute_pending c w price date ≡ ok w'
      → IsDrained w'.state
  unfolding execute_pending flat
  execute_pending-IsDrained c w price date z h e = grind (arith, close-Closed, enter-SameQueue)

  module _ {S : Type 0} (strategy : TradingStrategy F S) where
    after_open-IsOrderly :
        (c : ExecutionConfig F) (risk : F) (b : Bar F) (memory : S) (w : World F)
        → IsDrained w.state
        → IsOrderly (after_open strategy c risk b memory w).1.state
    unfolding after_open
    after_open-IsOrderly c risk b memory w d =
        let held = check_exit_conditions c w b.open_price b.high b.low b.date in
        let funded = fund c (check_margin c held b.close_price) in
        let drained : IsDrained funded.state = ground (
          arith,
          check_exit_conditions-SameQueue c w b.open_price b.high b.low b.date,
          check_margin-SameQueue c held b.close_price,
          fund-SameQueue c (check_margin c held b.close_price),
        ) in
        sync_margin_equity-IsOrderly _ (
          track_equity-IsOrderly _ b.close_price b.date
            (process_signal-IsOrderly funded.state _ b.close_price risk drained))

    module _ (zero_eq : eq {F = F} nought nought ≡ true) where
      trade_bar-IsOrderly :
          (c : ExecutionConfig F) (risk : F) (b : Bar F) (memory : S) (w : World F)
          {end : S × World F}
          → IsOrderly w.state
          → trade_bar strategy c risk b memory w ≡ ok end
          → IsOrderly end.1.state
      unfolding trade_bar
      trade_bar-IsOrderly c risk b memory w h e =
          let (opened, pending, done) = >>=-eq-ok (execute_pending c w b.open_price b.date) _ e in
          rw (← ok-injective done) (
            after_open-IsOrderly c risk b memory opened
              (execute_pending-IsDrained c w b.open_price b.date zero_eq h pending))

      trade_bars-IsOrderly :
          (c : ExecutionConfig F) (risk : F) (bs : List (Bar F)) (memory : S) (w : World F)
          {end : S × World F}
          → IsOrderly w.state
          → trade_bars strategy c risk bs memory w ≡ ok end
          → IsOrderly end.1.state
      unfolding trade_bars
      trade_bars-IsOrderly c risk [] memory w h e = rw (← ok-injective e) h
      trade_bars-IsOrderly c risk (b ∷ bs) memory w h e =
          let (next, first, rest) = >>=-eq-ok (trade_bar strategy c risk b memory w) _ e in
          trade_bars-IsOrderly c risk bs next.0 next.1
            (trade_bar-IsOrderly c risk b memory w h first) rest

      run_bars-IsOrderly :
          (n : ℕ) (c : ExecutionConfig F) (risk : F) (bs : List (Bar F)) (memory : S) (w : World F)
          {end : S × World F}
          → IsOrderly w.state
          → run_bars strategy n c risk bs memory w ≡ ok end
          → IsOrderly end.1.state
      run_bars-IsOrderly n c risk bs memory w h e =
          trade_bars-IsOrderly c risk (drop n bs) _ w h
            (sym (run_bars-eq-drop strategy n c risk bs memory w) ∙ e)

      -- Whatever bars a run has processed, with whatever warmup and from whatever starting cash, no order
      -- is left queued once `_execute_pending` has returned at the next bar's open. (Assumed of floats:
      -- 0.0 == 0.0.)
      pub next_open-IsDrained :
          (n : ℕ) (c : ExecutionConfig F) (cash risk : F) (bs : List (Bar F)) (memory : S)
          (price : F) (date : String) {end : S × World F} {w : World F}
          → run_bars strategy n c risk bs memory
              (record { state = initial_state cash; margin = setup_full_margin c cash })
            ≡ ok end
          → execute_pending c end.1 price date ≡ ok w
          → IsDrained w.state
      unfolding initial_state
      next_open-IsDrained n c cash risk bs memory price date {end = end} ran opened =
          execute_pending-IsDrained c end.1 price date zero_eq
            (run_bars-IsOrderly n c risk bs memory _ (ground arith) ran) opened
