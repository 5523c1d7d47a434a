-- ===== src/Simulation/Runner/Equity.antt =====
-- The equity curve that `_track_equity` records.
use finbar.Common.{
  sym, Option, String, List, [], ◌∷◌, ◌++◌, ◌≡◌, ok, >>=-eq-ok, ok-injective, arith, length,
  length-append, ◌+◌, ap, ◌∙◌, IsPrefix, IsPrefix-append, IsPrefix-trans, IsPrefix-refl,
}
use finbar.Simulation.Number.{Number}
use finbar.Simulation.Types.{ExecutionConfig, SimulationState, World, EquityPoint}
use finbar.Simulation.Holding.{Clock}
use finbar.Simulation.Frame.{
  check_exit_conditions-SameQueue, check_margin-SameQueue, fund-SameQueue,
  sync_margin_equity-SameQueue, enter-SameQueue, close-Closed,
}
use finbar.Simulation.Runner.{
  equity_point, fund, check_margin, check_exit_conditions, track_equity, trade_bars, process_signal,
  after_open, execute_pending, trade_bar, Bar, SignalResult, TradingStrategy,
}

module _ {F : Type 0} ⦃num : Number F⦄ where
  process_signal-curve :
      (s : SimulationState F) (g : Option (SignalResult F)) (close_price risk : F)
      → (process_signal s g close_price risk).equity_curve ≡ s.equity_curve
  unfolding process_signal
  process_signal-curve s g close_price risk = ground arith

module _ {F : Type 0} ⦃num : Number F⦄ ⦃clock : Clock F⦄ where
  execute_pending-curve :
      (c : ExecutionConfig F) (w : World F) (price : F) (date : String) {w' : World F}
      → execute_pending c w price date ≡ ok w'
      → w'.state.equity_curve ≡ w.state.equity_curve
  unfolding execute_pending
  execute_pending-curve c w price date h = grind (arith, close-Closed, enter-SameQueue)

  module _ {S : Type 0} (strategy : TradingStrategy F S) where
    -- A bar adds one point.
    after_open-curve :
        (c : ExecutionConfig F) (risk : F) (b : Bar F) (memory : S) (w : World F)
        → (p : EquityPoint F) × ((after_open strategy c risk b memory w).1.state.equity_curve
            ≡ w.state.equity_curve ++ p ∷ [])
    unfolding after_open track_equity
    after_open-curve c risk b memory w =
        let held = check_exit_conditions c w b.open_price b.high b.low b.date in
        let checked = check_margin c held b.close_price in
        let funded = fund c checked in
        let signal = (strategy.on_bar memory b funded.state.position).1 in
        let s = process_signal funded.state signal b.close_price risk in
        let tracked : World F = record funded { state = track_equity s b.close_price b.date } in
        (
          equity_point s b.close_price b.date,
          ground (
            arith,
            sync_margin_equity-SameQueue tracked,
            process_signal-curve funded.state signal b.close_price risk,
            fund-SameQueue c checked,
            check_margin-SameQueue c held b.close_price,
            check_exit_conditions-SameQueue c w b.open_price b.high b.low b.date,
          ),
        )

    pub trade_bar-curve :
        (c : ExecutionConfig F) (risk : F) (b : Bar F) (memory : S) (w : World F)
        {end : S × World F}
        → trade_bar strategy c risk b memory w ≡ ok end
        → (p : EquityPoint F) × (end.1.state.equity_curve ≡ w.state.equity_curve ++ p ∷ [])
    unfolding trade_bar
    trade_bar-curve c risk b memory w {end = end} e =
        let (opened, pending, done) = >>=-eq-ok (execute_pending c w b.open_price b.date) _ e in
        let (p, added) = after_open-curve c risk b memory opened in
        (
          p,
          ap (λ (x : S × World F). x.1.state.equity_curve) (sym (ok-injective done))
              ∙ (added
                  ∙ ap (λ l. l ++ p ∷ []) (execute_pending-curve c w b.open_price b.date pending)),
        )

    pub trade_bars-curve :
        (c : ExecutionConfig F) (risk : F) (bs : List (Bar F)) (memory : S) (w : World F)
        {end : S × World F}
        → trade_bars strategy c risk bs memory w ≡ ok end
        → IsPrefix w.state.equity_curve end.1.state.equity_curve
          × (length end.1.state.equity_curve ≡ length w.state.equity_curve + length bs)
    unfolding trade_bars
    trade_bars-curve c risk [] memory w e =
        rw (← ok-injective e) (IsPrefix-refl w.state.equity_curve, omega arith)
    trade_bars-curve c risk (b ∷ bs) memory w {end = end} e =
        let (next, first, rest) = >>=-eq-ok (trade_bar strategy c risk b memory w) _ e in
        let (p, added) = trade_bar-curve c risk b memory w first in
        let (kept, count) = trade_bars-curve c risk bs next.0 next.1 rest in
        (
          IsPrefix-trans w.state.equity_curve next.1.state.equity_curve end.1.state.equity_curve
              (rw added (IsPrefix-append w.state.equity_curve (p ∷ []))) kept,
          omega (
            arith,
            ap (length {A = EquityPoint F}) added,
            length-append w.state.equity_curve (p ∷ []),
          ),
        )
