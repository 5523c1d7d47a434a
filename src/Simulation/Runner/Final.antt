-- ===== src/Simulation/Runner/Final.antt =====
-- The end of a run: `liquidate_open` after the last bar of `_run_loop`.
use finbar.Common.{
  false, sym, String, ℕ, suc, List, [], ◌∷◌, ◌≡◌, refl, ok, >>=-eq-ok, ok-injective, arith, length,
  length-drop, ◌-◌, ap, ◌∙◌, true, drop,
}
use finbar.Simulation.Number.{le, Number, nought, eq}
use finbar.Simulation.Types.{
  ExecutionConfig, SimulationState, World, EquityPoint, initial_state, flat,
}
use finbar.Simulation.Holding.{Clock}
use finbar.Simulation.Frame.{close-Closed}
use finbar.Simulation.Executor.{liquidate_open, restate, replace_last, setup_full_margin}
use finbar.Simulation.Runner.Total.{run_loop-returns}
use finbar.Simulation.Runner.{Bar, TradingStrategy, run_bars, run_loop, final_of}
use finbar.Simulation.Runner.Equity.{trade_bars-curve}
use finbar.Simulation.Runner.Warmup.{run_bars-eq-drop}

length-replace_last :
    {F : Type 0} (p : EquityPoint F) (xs : List (EquityPoint F))
    → length (replace_last p xs) ≡ length xs
unfolding replace_last
length-replace_last p [] = refl
length-replace_last p (x ∷ []) = refl
length-replace_last p (x ∷ y ∷ xs) = ap suc (length-replace_last p (y ∷ xs))

module _ {F : Type 0} ⦃num : Number F⦄ where
  restate-length :
      (s : SimulationState F) (price : F)
      → length (restate s price).equity_curve ≡ length s.equity_curve
  unfolding restate
  restate-length s price = grind (arith, length-replace_last)

  restate-position : (s : SimulationState F) (price : F) → (restate s price).position ≡ s.position
  unfolding restate
  restate-position s price = ground arith

  pub restate-trades : (s : SimulationState F) (price : F) → (restate s price).trades ≡ s.trades
  unfolding restate
  restate-trades s price = ground arith

module _ {F : Type 0} ⦃num : Number F⦄ ⦃clock : Clock F⦄ where
  liquidate_open-flat :
      (c : ExecutionConfig F) (w : World F) (price : F) (date : String)
      → eq {F = F} nought nought ≡ true
      → eq (liquidate_open c w price date).state.position.size nought ≡ true
  unfolding liquidate_open flat
  liquidate_open-flat c w price date z = grind (arith, close-Closed, restate-position)

  liquidate_open-length :
      (c : ExecutionConfig F) (w : World F) (price : F) (date : String)
      → length (liquidate_open c w price date).state.equity_curve ≡ length w.state.equity_curve
  unfolding liquidate_open
  liquidate_open-length c w price date = grind (arith, close-Closed, restate-length)

  module _ {S : Type 0} (strategy : TradingStrategy F S) where
    returned_ends :
        (c : ExecutionConfig F) (cash risk : F) (n : ℕ) (bs : List (Bar F)) (memory : S)
        {w : World F}
        → eq {F = F} nought nought ≡ true
        → run_loop strategy c cash risk n bs memory ≡ ok w
        → (eq w.state.position.size nought ≡ true) × (length w.state.equity_curve ≡ length bs - n)
    unfolding run_loop initial_state
    returned_ends c cash risk n bs memory z e =
        let start : World F = record {
          state = initial_state cash;
          margin = setup_full_margin c cash;
        } in
        let (end, ran, done) = >>=-eq-ok (run_bars strategy n c risk bs memory start) _ e in
        let final = final_of nought "" bs in
        let traded = sym (run_bars-eq-drop strategy n c risk bs memory start) ∙ ran in
        let curve = (trade_bars-curve strategy c risk (drop n bs) _ start traded).1 in
        rw (← ok-injective done) (
          liquidate_open-flat c end.1 final.0 final.1 z,
          omega (arith, liquidate_open-length c end.1 final.0 final.1, curve, length-drop n bs),
        )

    -- With a leverage multiplier above 0, a run returns a result on any bars, whatever the strategy
    -- answers. In that result no position is open, and the equity curve has one point for each bar
    -- from the first tradable one on. (Assumed of floats: 0.0 == 0.0.)
    pub run_loop_ends :
        (c : ExecutionConfig F) (cash risk : F) (n : ℕ) (bs : List (Bar F)) (memory : S)
        → eq {F = F} nought nought ≡ true
        → le c.leverage_multiplier nought ≡ false
        → (w : World F) × (run_loop strategy c cash risk n bs memory ≡ ok w)
          × (eq w.state.position.size nought ≡ true)
          × (length w.state.equity_curve ≡ length bs - n)
    run_loop_ends c cash risk n bs memory z positive =
        let (w, returned) = run_loop-returns strategy c cash risk n bs memory positive in
        let (closed, points) = returned_ends c cash risk n bs memory z returned in
        (w, returned, closed, points)
