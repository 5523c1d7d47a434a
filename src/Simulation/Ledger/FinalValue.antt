-- ===== src/Simulation/Ledger/FinalValue.antt =====
-- The last point of the equity curve that `_run_loop` and `liquidate_open` leave.
use finbar.Common.{
  ℕ, ◌⊎◌, ◌≡◌, ◌∙◌, sym, ap, refl, some, List, [], ◌∷◌, String, ok, Bool-cases, inl, inr,
  ok-injective, >>=-eq-ok, get_last?, get_last?-snoc, drop,
}
use finbar.Simulation.Number.{Number, eq, nought}
use finbar.Simulation.Types.{
  ExecutionConfig, SimulationState, EquityPoint, World, flat, initial_state, end_of_backtest,
}
use finbar.Simulation.Holding.{Clock}
use finbar.Simulation.Closer.{close}
use finbar.Simulation.Executor.{
  liquidate_open, restate, replace_last, setup_full_margin, portfolio_value,
}
use finbar.Simulation.Frame.{close-Closed, sync_margin_equity-SameQueue}
use finbar.Simulation.Ledger.{IsExact, Reconciled}
use finbar.Simulation.Ledger.Accounts.{sync_margin_equity-same}
use finbar.Simulation.Ledger.Run.{
  signalled, tracked, tracked-Reconciled, trade_bar-Reconciled, start-Reconciled,
}
use finbar.Simulation.Ledger.Orders.{execute_pending-Reconciled}
use finbar.Simulation.Runner.Warmup.{run_bars-eq-drop}
use finbar.Simulation.Runner.{
  Bar, TradingStrategy, track_equity, equity_point, execute_pending, after_open, trade_bar,
  trade_bars, run_bars, run_loop,
}

-- The replaced last element.
get_last?-replace_last :
    {F : Type 0} (p : EquityPoint F) (xs : List (EquityPoint F)) {q : EquityPoint F}
    → get_last? xs ≡ some q
    → get_last? (replace_last p xs) ≡ some p
unfolding replace_last
get_last?-replace_last p [] e = cc
get_last?-replace_last p (x ∷ []) e = refl
get_last?-replace_last p (x ∷ y ∷ []) e = refl
get_last?-replace_last p (x ∷ y ∷ z ∷ zs) e = get_last?-replace_last p (y ∷ z ∷ zs) e

module _ {F : Type 0} ⦃num : Number F⦄ where
  -- The curve has a last point, which is worth the cash if no position is open.
  abbrev Marked : SimulationState F → Type 0
  Marked s =
      (p : EquityPoint F) × (get_last? s.equity_curve ≡ some p)
      × (s.position.size ≡ nought → p.value ≡ s.cash)

  portfolio_value-flat :
      (s : SimulationState F) (price : F)
      → IsExact F
      → s.position.size ≡ nought
      → portfolio_value s price ≡ s.cash
  unfolding portfolio_value
  portfolio_value-flat s price exact none_held = rw (none_held, exact.lt_irrefl)

  restate-Marked :
      (s : SimulationState F) (price : F) {q : EquityPoint F}
      → IsExact F
      → s.position.size ≡ nought
      → get_last? s.equity_curve ≡ some q
      → Marked (restate s price)
  unfolding restate
  restate-Marked s price exact none_held last =
      rw (last, restate)
        (
          _,
          get_last?-replace_last _ s.equity_curve last,
          λ _. portfolio_value-flat s price exact none_held,
        )

module _ {F : Type 0} ⦃num : Number F⦄ ⦃clock : Clock F⦄ (exact : IsExact F) where
  liquidate_open-Marked :
      (c : ExecutionConfig F) (w : World F) (price : F) (date : String)
      → Marked w.state
      → Marked (liquidate_open c w price date).state
  unfolding liquidate_open flat
  liquidate_open-Marked c w price date (p, last, worth) =
      elim (Bool-cases (eq w.state.position.size nought)) [
        | inl none_held ↦ rw none_held (p, last, worth)
        | inr held ↦
            let closed = close-Closed c w price date end_of_backtest in
            rw held (
              restate-Marked (close c w price date end_of_backtest).state price exact
                (ap (λ q. q.size) closed.position) (ap get_last? closed.queue.curve ∙ last))
      ]

  module _ {S : Type 0} (strategy : TradingStrategy F S) where
    after_open-Marked :
        (c : ExecutionConfig F) (initial risk : F) (b : Bar F) (memory : S) (w : World F)
        → Reconciled initial w
        → Marked (after_open strategy c risk b memory w).1.state
    unfolding after_open track_equity equity_point
    after_open-Marked c initial risk b memory w r =
        let answered = (signalled strategy c risk b memory w).state in
        let t = tracked strategy c risk b memory w in
        let point = equity_point answered b.close_price b.date in
        let (same, _) =
          sync_margin_equity-same t
            (tracked-Reconciled exact strategy c initial risk b memory w r).same_cash in
        (
          point,
          ap get_last? (sync_margin_equity-SameQueue t).curve
              ∙ get_last?-snoc answered.equity_curve point,
          λ none_held.
              portfolio_value-flat answered b.close_price exact (sym same.size ∙ none_held)
              ∙ sym same.cash,
        )

    trade_bar-Marked :
        (c : ExecutionConfig F) (initial risk : F) (b : Bar F) (memory : S) (w : World F)
        {end : S × World F}
        → trade_bar strategy c risk b memory w ≡ ok end
        → Reconciled initial w
        → Marked end.1.state
    unfolding trade_bar
    trade_bar-Marked c initial risk b memory w ran r =
        let (opened, pending, done) = >>=-eq-ok (execute_pending c w b.open_price b.date) _ ran in
        rw (← ok-injective done) (
          after_open-Marked c initial risk b memory opened
            (execute_pending-Reconciled exact c initial w b.open_price b.date pending r))

    trade_bars-Marked :
        (c : ExecutionConfig F) (initial risk : F) (b : Bar F) (bs : List (Bar F)) (memory : S)
        (w : World F) {end : S × World F}
        → trade_bars strategy c risk (b ∷ bs) memory w ≡ ok end
        → Reconciled initial w
        → Marked end.1.state
    unfolding trade_bars
    trade_bars-Marked c initial risk b [] memory w ran r =
        let (next, first, rest) = >>=-eq-ok (trade_bar strategy c risk b memory w) _ ran in
        rw (← ok-injective rest) (trade_bar-Marked c initial risk b memory w first r)
    trade_bars-Marked c initial risk b (b' ∷ bs) memory w ran r =
        let (next, first, rest) = >>=-eq-ok (trade_bar strategy c risk b memory w) _ ran in
        trade_bars-Marked c initial risk b' bs next.0 next.1 rest
          (trade_bar-Reconciled exact strategy c initial risk b memory w first r)

    liquidate_open-idle :
        (c : ExecutionConfig F) (cash price : F) (date : String)
        → liquidate_open c
            (record { state = initial_state cash; margin = setup_full_margin c cash })
            price
            date
          ≡ record { state = initial_state cash; margin = setup_full_margin c cash }
    unfolding liquidate_open initial_state flat
    liquidate_open-idle c cash price date = rw exact.nought_eq

    -- A run over some bars has a marked end; one over none ends as it began.
    trade_bars-ends :
        (c : ExecutionConfig F) (cash risk : F) (bs : List (Bar F)) (memory : S) (price : F)
        (date : String) {end : S × World F}
        → trade_bars strategy c risk bs memory
            (record { state = initial_state cash; margin = setup_full_margin c cash })
          ≡ ok end
        → (((liquidate_open c end.1 price date).state.equity_curve ≡ [])
            × ((liquidate_open c end.1 price date).state.cash ≡ cash))
          ⊎ Marked (liquidate_open c end.1 price date).state
    unfolding trade_bars initial_state
    trade_bars-ends c cash risk [] memory price date ran = inl (
        rw (← ok-injective ran) (
          ap (λ w. w.state.equity_curve) (liquidate_open-idle c cash price date),
          ap (λ w. w.state.cash) (liquidate_open-idle c cash price date),
        ))
    trade_bars-ends c cash risk (b ∷ bs) memory price date {end = end} ran = inr (
        liquidate_open-Marked c end.1 price date (
          trade_bars-Marked c cash risk b bs memory _ ran (start-Reconciled exact strategy c cash)))

    -- What the last point of a run's curve is worth, or that there is none.
    pub run_loop-last :
        (c : ExecutionConfig F) (cash risk : F) (n : ℕ) (bs : List (Bar F)) (memory : S)
        {w : World F}
        → run_loop strategy c cash risk n bs memory ≡ ok w
        → ((w.state.equity_curve ≡ []) × (w.state.cash ≡ cash)) ⊎ Marked w.state
    unfolding run_loop
    run_loop-last c cash risk n bs memory returned =
        let start : World F = record {
          state = initial_state cash;
          margin = setup_full_margin c cash;
        } in
        let (end, ran, done) = >>=-eq-ok (run_bars strategy n c risk bs memory start) _ returned in
        rw (← ok-injective done) (
          trade_bars-ends c cash risk (drop n bs) _ _ _
            (sym (run_bars-eq-drop strategy n c risk bs memory start) ∙ ran))
