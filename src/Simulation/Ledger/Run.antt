-- ===== src/Simulation/Ledger/Run.antt =====
-- The books over the bars of backtest_runner.py.
use finbar.Common.{
  ℕ, ◌≡◌, sym, refl, false, List, [], ◌∷◌, All, map, arith, ok, ok-injective, >>=-eq-ok, drop, ◌∙◌,
}
use finbar.Simulation.Number.{Number, le, nought}
use finbar.Simulation.Types.{ExecutionConfig, TradeRecord, World, flat, initial_state}
use finbar.Simulation.Holding.{Clock}
use finbar.Simulation.Margin.{open_account}
use finbar.Simulation.Closer.{to_dict}
use finbar.Simulation.Executor.{fund, check_margin, check_exit_conditions, setup_full_margin}
use finbar.Simulation.Ledger.{IsExact, uninvested, IsNet, with_profits, Reconciled}
use finbar.Simulation.Ledger.Steps.{flat-cash}
use finbar.Simulation.Runner.Final.{run_loop_ends}
use finbar.Simulation.Runner.Warmup.{run_bars-eq-drop}
use finbar.Simulation.Runner.{
  process_signal, track_equity, Bar, TradingStrategy, execute_pending, after_open, trade_bar,
  trade_bars, run_bars, run_loop,
}
use finbar.Simulation.Ledger.Accounts.{
  Reconciled-state, process_signal-same, track_equity-same, sync_margin_equity-Reconciled,
  fund-Reconciled,
}
use finbar.Simulation.Ledger.Orders.{
  check_exit_conditions-Reconciled, check_margin-Reconciled, execute_pending-Reconciled,
  liquidate_open-Reconciled,
}

module _ {F S : Type 0} ⦃num : Number F⦄ ⦃clock : Clock F⦄ (strategy : TradingStrategy F S) where
  -- The world after the strategy has answered on a bar, and with the bar's equity point, before the
  -- margin account's equity is taken over.
  abbrev pub signalled : ExecutionConfig F → F → Bar F → S → World F → World F
  signalled c risk b memory w =
      let held = check_exit_conditions c w b.open_price b.high b.low b.date in
      let funded = fund c (check_margin c held b.close_price) in
      let signal = (strategy.on_bar memory b funded.state.position).1 in
      record funded { state = process_signal funded.state signal b.close_price risk }

  abbrev pub tracked : ExecutionConfig F → F → Bar F → S → World F → World F
  tracked c risk b memory w =
      let answered = signalled c risk b memory w in
      record answered { state = track_equity answered.state b.close_price b.date }

module _ {F : Type 0} ⦃num : Number F⦄ ⦃clock : Clock F⦄ (exact : IsExact F) where
  module _ {S : Type 0} (strategy : TradingStrategy F S) where
    pub tracked-Reconciled :
        (c : ExecutionConfig F) (initial risk : F) (b : Bar F) (memory : S) (w : World F)
        → Reconciled initial w
        → Reconciled initial (tracked strategy c risk b memory w)
    tracked-Reconciled c initial risk b memory w r =
        let held = check_exit_conditions c w b.open_price b.high b.low b.date in
        let funded = fund c (check_margin c held b.close_price) in
        let paid = fund-Reconciled c initial _ exact (
          check_margin-Reconciled exact c initial held b.close_price (
            check_exit_conditions-Reconciled exact c initial w b.open_price b.high b.low b.date
              r)) in
        Reconciled-state initial _ _ (track_equity-same _ b.close_price b.date) (
          Reconciled-state initial funded _ (process_signal-same funded.state _ b.close_price risk)
            paid)

    after_open-Reconciled :
        (c : ExecutionConfig F) (initial risk : F) (b : Bar F) (memory : S) (w : World F)
        → Reconciled initial w
        → Reconciled initial (after_open strategy c risk b memory w).1
    unfolding after_open
    after_open-Reconciled c initial risk b memory w r =
        sync_margin_equity-Reconciled initial (tracked strategy c risk b memory w)
          (tracked-Reconciled c initial risk b memory w r)

    pub trade_bar-Reconciled :
        (c : ExecutionConfig F) (initial risk : F) (b : Bar F) (memory : S) (w : World F)
        {end : S × World F}
        → trade_bar strategy c risk b memory w ≡ ok end
        → Reconciled initial w
        → Reconciled initial end.1
    unfolding trade_bar
    trade_bar-Reconciled c initial risk b memory w ran r =
        let (opened, pending, done) = >>=-eq-ok (execute_pending c w b.open_price b.date) _ ran in
        rw (← ok-injective done) (
          after_open-Reconciled c initial risk b memory opened
            (execute_pending-Reconciled exact c initial w b.open_price b.date pending r))

    trade_bars-Reconciled :
        (c : ExecutionConfig F) (initial risk : F) (bs : List (Bar F)) (memory : S) (w : World F)
        {end : S × World F}
        → trade_bars strategy c risk bs memory w ≡ ok end
        → Reconciled initial w
        → Reconciled initial end.1
    unfolding trade_bars
    trade_bars-Reconciled c initial risk [] memory w ran r = rw (← ok-injective ran) r
    trade_bars-Reconciled c initial risk (b ∷ bs) memory w ran r =
        let (next, first, rest) = >>=-eq-ok (trade_bar strategy c risk b memory w) _ ran in
        trade_bars-Reconciled c initial risk bs next.0 next.1 rest
          (trade_bar-Reconciled c initial risk b memory w first r)

    run_bars-Reconciled :
        (n : ℕ) (c : ExecutionConfig F) (initial risk : F) (bs : List (Bar F)) (memory : S)
        (w : World F) {end : S × World F}
        → run_bars strategy n c risk bs memory w ≡ ok end
        → Reconciled initial w
        → Reconciled initial end.1
    run_bars-Reconciled n c initial risk bs memory w ran r =
        trade_bars-Reconciled c initial risk (drop n bs) _ w
          (sym (run_bars-eq-drop strategy n c risk bs memory w) ∙ ran) r

    pub start-Reconciled :
        (c : ExecutionConfig F) (cash : F)
        → Reconciled cash (record { state = initial_state cash; margin = setup_full_margin c cash })
    unfolding initial_state flat setup_full_margin open_account
    start-Reconciled c cash = record {
      settled = [];
      recorded = refl;
      netted = tt;
      balanced = uninvested refl (sym (exact.ring.sub-nought cash));
      same_cash = ground arith;
    }

    pub run_loop-Reconciled :
        (c : ExecutionConfig F) (cash risk : F) (n : ℕ) (bs : List (Bar F)) (memory : S)
        {w : World F}
        → run_loop strategy c cash risk n bs memory ≡ ok w
        → Reconciled cash w
    unfolding run_loop
    run_loop-Reconciled c cash risk n bs memory returned =
        let (end, ran, done) = >>=-eq-ok (run_bars strategy n c risk bs memory _) _ returned in
        rw (← ok-injective done) (
          liquidate_open-Reconciled exact c cash end.1 _ _
            (run_bars-Reconciled n c cash risk bs memory _ ran (start-Reconciled c cash)))

    -- In arithmetic without rounding, with a leverage multiplier above 0, a run returns a result on any
    -- bars, whatever the strategy answers. In it the recorded trades are the roundings of trades, each of
    -- a net profit that is its gross profit less its commissions and borrowing cost; and the cash is the
    -- initial cash with these net profits, less the total funding.
    pub run_loop-reconciles :
        (c : ExecutionConfig F) (cash risk : F) (n : ℕ) (bs : List (Bar F)) (memory : S)
        → le c.leverage_multiplier nought ≡ false
        → (w : World F) × (run_loop strategy c cash risk n bs memory ≡ ok w)
          × (trades : List (TradeRecord F)) × (w.state.trades ≡ map to_dict trades)
          × All IsNet trades
          × (w.state.cash ≡ num.sub (with_profits cash trades) w.state.total_funding)
    run_loop-reconciles c cash risk n bs memory positive =
        let (w, returned, closed, points) =
          run_loop_ends strategy c cash risk n bs memory exact.nought_eq positive in
        let r = run_loop-Reconciled c cash risk n bs memory returned in
        (
          w,
          returned,
          r.settled,
          r.recorded,
          r.netted,
          flat-cash exact _ w.state (exact.eq_nought _ closed) r.balanced,
        )
