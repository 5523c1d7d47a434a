-- ===== src/Simulation/Runner/Warmup.antt =====
-- The warmup bars of `_run_loop` (`_update_warmup_state`).
use finbar.Common.{
  ℕ, zero, suc, ◌+◌, ◌≤◌, List, [], ◌∷◌, ◌≡◌, refl, true, false, ltb, take, drop, arith,
  >>=-eq_of_ok,
}
use finbar.Simulation.Number.{Number}
use finbar.Simulation.Types.{ExecutionConfig, SimulatedPosition, World}
use finbar.Simulation.Holding.{Clock}
use finbar.Simulation.Runner.{
  Bar, TradingStrategy, trade_bar, trade_bars, bar_at, bars_from, run_bars,
}

module _ {F : Type 0} ⦃num : Number F⦄ ⦃clock : Clock F⦄ {S : Type 0}
    (strategy : TradingStrategy F S) where
  -- The strategy's own state after it has seen the bars with one unchanging position.
  abbrev pub feed : SimulatedPosition F → List (Bar F) → S → S
  feed p [] memory = memory
  feed p (b ∷ bs) memory = feed p bs (strategy.on_bar memory b p).0

  -- From the first tradable bar on, every bar trades.
  bars_from-tradable :
      (i n : ℕ) (c : ExecutionConfig F) (risk : F) (bs : List (Bar F)) (memory : S) (w : World F)
      → n ≤ i
      → bars_from strategy i n c risk bs memory w ≡ trade_bars strategy c risk bs memory w
  unfolding bars_from bar_at trade_bars
  bars_from-tradable i n c risk [] memory w past = refl
  bars_from-tradable i n c risk (b ∷ bs) memory w past =
      let tradable : ltb i n ≡ false = ground arith in
      rw tradable (
        >>=-eq_of_ok (trade_bar strategy c risk b memory w) _ _
          (λ next _. bars_from-tradable (suc i) n c risk bs next.0 next.1 (omega arith)))

  bars_from-eq-drop :
      (i k n : ℕ) (c : ExecutionConfig F) (risk : F) (bs : List (Bar F)) (memory : S) (w : World F)
      → i + k ≡ n
      → bars_from strategy i n c risk bs memory w
        ≡ trade_bars strategy c risk (drop k bs) (feed w.state.position (take k bs) memory) w
  unfolding bars_from bar_at trade_bars
  bars_from-eq-drop i zero n c risk bs memory w reached =
      bars_from-tradable i n c risk bs memory w (omega arith)
  bars_from-eq-drop i (suc k) n c risk [] memory w ahead = refl
  bars_from-eq-drop i (suc k) n c risk (b ∷ bs) memory w ahead =
      let warming : ltb i n ≡ true = ground arith in
      rw warming (
        bars_from-eq-drop (suc i) k n c risk bs (strategy.on_bar memory b w.state.position).0 w
          (omega arith))

  -- A run with a warmup of `n` bars is the run without warmup over the bars from the `n`-th on, with
  -- the strategy fed the first `n`: warmup neither trades, queues an order, nor records equity.
  pub run_bars-eq-drop :
      (n : ℕ) (c : ExecutionConfig F) (risk : F) (bs : List (Bar F)) (memory : S) (w : World F)
      → run_bars strategy n c risk bs memory w
        ≡ trade_bars strategy c risk (drop n bs) (feed w.state.position (take n bs) memory) w
  unfolding run_bars
  run_bars-eq-drop n c risk bs memory w = bars_from-eq-drop 0 n n c risk bs memory w (omega arith)
