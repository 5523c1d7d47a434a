-- ===== src/Simulation/Runner/Prefix.antt =====
-- Runs of `_run_loop` over a frame and over a first part of it.
use finbar.Common.{
  ℕ, suc, String, Bool-cases, inl, inr, List, [], ◌∷◌, ◌++◌, ◌≡◌, ◌∙◌, refl, ap, ok, ok-injective,
  ◌>>=◌, >>=-eq-ok, ltb, arith, IsPrefix, IsPrefix-refl, IsPrefix-append, IsPrefix-trans,
}
use finbar.Simulation.Number.{Number, eq, nought}
use finbar.Simulation.Types.{
  ExecutionConfig, SimulationState, World, TradeRecord, EquityPoint, end_of_backtest, initial_state,
}
use finbar.Simulation.Holding.{Clock}
use finbar.Simulation.Frame.{close-Closed}
use finbar.Simulation.Executor.{liquidate_open, restate, replace_last, setup_full_margin}
use finbar.Simulation.Closer.{build_trade, close, to_dict}
use finbar.Simulation.Runner.{Bar, TradingStrategy, bar_at, bars_from, run_bars, run_loop, final_of}
use finbar.Simulation.Runner.Growth.{trade_bar-Grown}
use finbar.Simulation.Runner.Equity.{trade_bar-curve}
use finbar.Simulation.Runner.Final.{restate-trades}

module _ {A : Type 0} where
  abbrev pub all_but_last : List A → List A
  all_but_last [] = []
  all_but_last (x ∷ []) = []
  all_but_last (x ∷ y ∷ xs) = x ∷ all_but_last (y ∷ xs)

  all_but_last-IsPrefix :
      (xs ys : List A) → IsPrefix xs ys → IsPrefix (all_but_last xs) (all_but_last ys)
  all_but_last-IsPrefix [] ys h = tt
  all_but_last-IsPrefix (x ∷ []) ys h = tt
  all_but_last-IsPrefix (x ∷ y ∷ xs) [] h = absurd (h tt)
  all_but_last-IsPrefix (x ∷ y ∷ xs) (z ∷ []) h = absurd (h.1 tt)
  all_but_last-IsPrefix (x ∷ y ∷ xs) (z ∷ u ∷ ys) h =
      (h.0, all_but_last-IsPrefix (y ∷ xs) (u ∷ ys) h.1)

  IsPrefix-all_but_last : (xs : List A) → IsPrefix (all_but_last xs) xs
  IsPrefix-all_but_last [] = tt
  IsPrefix-all_but_last (x ∷ []) = tt
  IsPrefix-all_but_last (x ∷ y ∷ xs) = (refl, IsPrefix-all_but_last (y ∷ xs))

all_but_last-replace_last :
    {F : Type 0} (p : EquityPoint F) (xs : List (EquityPoint F))
    → all_but_last (replace_last p xs) ≡ all_but_last xs
unfolding replace_last
all_but_last-replace_last p [] = refl
all_but_last-replace_last p (x ∷ []) = refl
all_but_last-replace_last p (x ∷ y ∷ []) = refl
all_but_last-replace_last p (x ∷ y ∷ z ∷ xs) =
    ap (λ l. x ∷ l) (all_but_last-replace_last p (y ∷ z ∷ xs))

module _ {F : Type 0} where
  -- The trades, or the trades and one that `liquidate_open` has added.
  pub data Settled (kept all : List (TradeRecord F)) : Type 0 where
    as_kept : all ≡ kept → Settled kept all
    liquidated :
        (t : TradeRecord F)
        → t.exit_reason ≡ end_of_backtest
        → all ≡ kept ++ t ∷ []
        → Settled kept all

  -- Both logs of the second state extend those of the first.
  abbrev Extends : SimulationState F → SimulationState F → Type 0
  Extends s t = IsPrefix s.trades t.trades × IsPrefix s.equity_curve t.equity_curve

  Extends-refl : (s : SimulationState F) → Extends s s
  Extends-refl s = (IsPrefix-refl s.trades, IsPrefix-refl s.equity_curve)

  Extends-trans : (s t u : SimulationState F) → Extends s t → Extends t u → Extends s u
  Extends-trans s t u first second = (
    IsPrefix-trans s.trades t.trades u.trades first.0 second.0,
    IsPrefix-trans s.equity_curve t.equity_curve u.equity_curve first.1 second.1,
  )

module _ {F : Type 0} ⦃num : Number F⦄ where
  restate-all_but_last :
      (s : SimulationState F) (price : F)
      → all_but_last (restate s price).equity_curve ≡ all_but_last s.equity_curve
  unfolding restate
  restate-all_but_last s price = grind (arith, all_but_last-replace_last)

module _ {F : Type 0} ⦃num : Number F⦄ ⦃clock : Clock F⦄ where
  liquidate_open-Settled :
      (c : ExecutionConfig F) (w : World F) (price : F) (date : String)
      → Settled w.state.trades (liquidate_open c w price date).state.trades
  unfolding liquidate_open build_trade to_dict
  liquidate_open-Settled c w price date = elim (Bool-cases (eq w.state.position.size nought)) [
    | inl none_held ↦ rw none_held (as_kept refl)
    | inr held ↦
        let closed = close-Closed c w price date end_of_backtest in
        let t = to_dict (build_trade c w.state.position price date end_of_backtest) in
        rw held (
          liquidated t refl
            (restate-trades (close c w price date end_of_backtest).state price ∙ closed.trades))
  ]

  liquidate_open-all_but_last :
      (c : ExecutionConfig F) (w : World F) (price : F) (date : String)
      → all_but_last (liquidate_open c w price date).state.equity_curve
        ≡ all_but_last w.state.equity_curve
  unfolding liquidate_open
  liquidate_open-all_but_last c w price date = grind (arith, close-Closed, restate-all_but_last)

  Settled-IsPrefix : (kept all : List (TradeRecord F)) → Settled kept all → IsPrefix kept all
  Settled-IsPrefix kept all (as_kept same) = rw same (IsPrefix-refl kept)
  Settled-IsPrefix kept all (liquidated t reason more) = rw more (IsPrefix-append kept (t ∷ []))

  module _ {S : Type 0} (strategy : TradingStrategy F S) (c : ExecutionConfig F) (risk : F)
      (n : ℕ) where
    bar_at-Extends :
        (i : ℕ) (b : Bar F) (memory : S) (w : World F) {end : S × World F}
        → bar_at strategy i n c risk b memory w ≡ ok end
        → Extends w.state end.1.state
    unfolding bar_at
    bar_at-Extends i b memory w ran = elim (Bool-cases (ltb i n)) [
      | inl warming ↦ rw (← ok-injective (rw warming at ran)) (Extends-refl w.state)
      | inr tradable ↦
          let traded = rw tradable at ran in
          let (p, added) = trade_bar-curve strategy c risk b memory w traded in
          (
            trade_bar-Grown strategy c risk b memory w traded,
            rw added (IsPrefix-append w.state.equity_curve (p ∷ [])),
          )
    ]

    bars_from-Extends :
        (i : ℕ) (bs : List (Bar F)) (memory : S) (w : World F) {end : S × World F}
        → bars_from strategy i n c risk bs memory w ≡ ok end
        → Extends w.state end.1.state
    unfolding bars_from
    bars_from-Extends i [] memory w ran = rw (← ok-injective ran) (Extends-refl w.state)
    bars_from-Extends i (b ∷ bs) memory w {end = end} ran =
        let (next, first, rest) = >>=-eq-ok (bar_at strategy i n c risk b memory w) _ ran in
        Extends-trans w.state next.1.state end.1.state (bar_at-Extends i b memory w first)
          (bars_from-Extends (suc i) bs next.0 next.1 rest)

    -- A loop over more bars that succeeds goes on from a successful loop over fewer.
    bars_from-append :
        (i : ℕ) (xs ys : List (Bar F)) (memory : S) (w : World F) {end : S × World F}
        → bars_from strategy i n c risk (xs ++ ys) memory w ≡ ok end
        → (mid : S × World F) × (bars_from strategy i n c risk xs memory w ≡ ok mid)
          × Extends mid.1.state end.1.state
    unfolding bars_from
    bars_from-append i [] ys memory w ran = ((memory, w), refl, bars_from-Extends i ys memory w ran)
    bars_from-append i (x ∷ xs) ys memory w ran =
        let (next, first, rest) = >>=-eq-ok (bar_at strategy i n c risk x memory w) _ ran in
        let (mid, front, back) = bars_from-append (suc i) xs ys next.0 next.1 rest in
        (
          mid,
          ap (λ r. r >>= λ m. bars_from strategy (suc i) n c risk xs m.0 m.1) first ∙ front,
          back,
        )

    -- No look-ahead. If a run over a longer frame succeeds, so does the run over any first part of it, and
    -- what the part reports stands in the whole, but for what the end of the part adds: its trades, except
    -- one that closes an open position at the end of the backtest, are the first trades of the whole run,
    -- and its equity curve, except the last point, which that close restates, is the beginning of the
    -- whole run's.
    pub longer_run-IsPrefix :
        (cash : F) (xs ys : List (Bar F)) (memory : S) {whole : World F}
        → run_loop strategy c cash risk n (xs ++ ys) memory ≡ ok whole
        → (part : World F) × (run_loop strategy c cash risk n xs memory ≡ ok part)
          × (kept : List (TradeRecord F)) × Settled kept part.state.trades
          × IsPrefix kept whole.state.trades
          × IsPrefix (all_but_last part.state.equity_curve) whole.state.equity_curve
    unfolding run_loop run_bars
    longer_run-IsPrefix cash xs ys memory {whole = whole} returned =
        let start : World F = record {
          state = initial_state cash;
          margin = setup_full_margin c cash;
        } in
        let (end, ran, done) =
          >>=-eq-ok (bars_from strategy 0 n c risk (xs ++ ys) memory start) _ returned in
        let (mid, front, (trades, curve)) = bars_from-append 0 xs ys memory start ran in
        let at_part = final_of nought "" xs in
        let at_whole = final_of nought "" (xs ++ ys) in
        let part = liquidate_open c mid.1 at_part.0 at_part.1 in
        let end_trades =
          Settled-IsPrefix _ _ (liquidate_open-Settled c end.1 at_whole.0 at_whole.1) in
        let ended = liquidate_open c end.1 at_whole.0 at_whole.1 in
        let curves : IsPrefix (all_but_last part.state.equity_curve) ended.state.equity_curve =
          IsPrefix-trans (all_but_last part.state.equity_curve)
            (all_but_last ended.state.equity_curve) ended.state.equity_curve
            (rw
              (
                liquidate_open-all_but_last c mid.1 at_part.0 at_part.1,
                liquidate_open-all_but_last c end.1 at_whole.0 at_whole.1,
              )
              (all_but_last-IsPrefix mid.1.state.equity_curve end.1.state.equity_curve curve))
            (IsPrefix-all_but_last ended.state.equity_curve) in
        (
          part,
          ap (λ r. r >>= λ m. ok (liquidate_open c m.1 at_part.0 at_part.1)) front,
          mid.1.state.trades,
          liquidate_open-Settled c mid.1 at_part.0 at_part.1,
          rw (← ok-injective done) (
              IsPrefix-trans mid.1.state.trades end.1.state.trades ended.state.trades trades
                end_trades),
          rw (← ok-injective done) curves,
        )
