-- ===== src/Simulation/Report/Reconciliation.antt =====
-- The reconciliation error that backtest_result_builder.py reports of a run.
use finbar.Common.{
  ℕ, true, false, ◌≡◌, ◌∙◌, sym, ap, refl, inl, inr, map, List, [], ◌∷◌, some, ok, get_last?, All,
}
use finbar.Simulation.Number.{Number, le, nought, neg}
use finbar.Simulation.Types.{EquityPoint, ExecutionConfig, TradeRecord, World}
use finbar.Simulation.Holding.{Clock}
use finbar.Simulation.Closer.{to_dict}
use finbar.Simulation.Metrics.{Roots}
use finbar.Simulation.Settlement.Trips.{add-sub, sub-sub}
use finbar.Simulation.Ledger.{IsExact, IsNet, with_profits}
use finbar.Simulation.Ledger.Run.{run_loop-Reconciled}
use finbar.Simulation.Ledger.Steps.{flat-cash}
use finbar.Simulation.Ledger.FinalValue.{run_loop-last}
use finbar.Simulation.Runner.Final.{run_loop_ends}
use finbar.Simulation.Runner.{Bar, TradingStrategy, run_loop}
use finbar.Simulation.Report.{
  Finite, equity_values, last_or, only, finite_profits, compute_reconciliation,
}

-- Exact numbers that are all finite, with what the reconciliation adds up: the builtin `sum` adds from
-- 0 on. Nothing is said of `round`.
pub record IsSummable (F : Type 0) ⦃num : Number F⦄ ⦃roots : Roots F⦄ ⦃finite : Finite F⦄
    : Type 0 where
  pub exact : IsExact F
  pub all_finite : (x : F) → finite.isfinite x ≡ true
  pub sum_nil : roots.sum [] ≡ num.of_nat 0
  pub sum_cons : (x : F) (xs : List F) → roots.sum (x ∷ xs) ≡ num.add x (roots.sum xs)
  pub add-nought : (x : F) → num.add x (num.of_nat 0) ≡ x
  pub sub-self : (x : F) → num.sub x x ≡ num.of_nat 0

module _ {F : Type 0} where
  last_or-get_last? :
      (default : F) (curve : List (EquityPoint F)) {p : EquityPoint F}
      → get_last? curve ≡ some p
      → last_or default (equity_values curve) ≡ p.value
  unfolding last_or
  last_or-get_last? default [] last = cc
  last_or-get_last? default (x ∷ []) last = cc
  last_or-get_last? default (x ∷ y ∷ ys) last = last_or-get_last? x.value (y ∷ ys) last

module _ {F : Type 0} ⦃num : Number F⦄ ⦃roots : Roots F⦄ ⦃finite : Finite F⦄
    (summable : IsSummable F) where
  -- The profits that the report reads are rounded to cents.
  realized-rounded :
      (ts : List (TradeRecord F))
      → only finite.isfinite (map (λ t. t.net_pnl) (map to_dict ts))
        ≡ map (λ t. num.round t.net_pnl 2) ts
  unfolding to_dict only
  realized-rounded [] = refl
  realized-rounded (t ∷ ts) =
      rw (summable.all_finite (num.round t.net_pnl 2))
        (ap (λ xs. num.round t.net_pnl 2 ∷ xs) (realized-rounded ts))

  with_profits-sum :
      (base : F) (ts : List (TradeRecord F))
      → with_profits base ts ≡ num.add base (roots.sum (map (λ t. t.net_pnl) ts))
  with_profits-sum base [] =
      sym (summable.add-nought base) ∙ ap (num.add base) (sym summable.sum_nil)
  with_profits-sum base (t ∷ ts) =
      with_profits-sum (num.add base t.net_pnl) ts
      ∙ summable.exact.ring.add_assoc base t.net_pnl _
      ∙ ap (num.add base) (sym (summable.sum_cons t.net_pnl (map (λ u. u.net_pnl) ts)))

  add-sub_self : (x y : F) → num.sub (num.add x y) y ≡ x
  add-sub_self x y =
      summable.exact.ring.sub-eq-add (num.add x y) y
      ∙ summable.exact.ring.add_assoc x y (neg y)
      ∙ ap (num.add x) (sym (summable.exact.ring.sub-eq-add y y) ∙ summable.sub-self y)
      ∙ summable.add-nought x

  -- ((((i + n) - f) - i) - r) + f = n - r
  rounding_error :
      (i n f r : F) → num.add (num.sub (num.sub (num.sub (num.add i n) f) i) r) f ≡ num.sub n r
  rounding_error i n f r =
      let ring = summable.exact.ring in
      ap (λ x. num.add (num.sub x r) f) (sub-sub ring (num.add i n) f i)
      ∙ ap (λ x. num.add x f) (sub-sub ring (num.sub (num.add i n) i) f r)
      ∙ add-sub ring _ f f
      ∙ add-sub_self _ f
      ∙ ap (λ x. num.sub (num.sub x i) r) (ring.add_comm i n)
      ∙ ap (λ x. num.sub x r) (add-sub_self n i)

module _ {F : Type 0} ⦃num : Number F⦄ ⦃clock : Clock F⦄ ⦃roots : Roots F⦄ ⦃finite : Finite F⦄
    (summable : IsSummable F) {S : Type 0} (strategy : TradingStrategy F S) where
  last_value :
      (c : ExecutionConfig F) (cash risk : F) (n : ℕ) (bs : List (Bar F)) (memory : S) {w : World F}
      → run_loop strategy c cash risk n bs memory ≡ ok w
      → w.state.position.size ≡ nought
      → last_or cash (equity_values w.state.equity_curve) ≡ w.state.cash
  unfolding last_or
  last_value c cash risk n bs memory {w = w} returned none_held =
      elim (run_loop-last summable.exact strategy c cash risk n bs memory returned) [
        | inl (empty, kept) ↦ ap (λ xs. last_or cash (equity_values xs)) empty ∙ sym kept
        | inr (p, last, worth) ↦ last_or-get_last? cash w.state.equity_curve last ∙ worth none_held
      ]

  final_value-profits :
      (c : ExecutionConfig F) (cash risk : F) (n : ℕ) (bs : List (Bar F)) (memory : S) {w : World F}
      (returned : run_loop strategy c cash risk n bs memory ≡ ok w)
      → w.state.position.size ≡ nought
      → let trades =
          (run_loop-Reconciled summable.exact strategy c cash risk n bs memory returned).settled in
        last_or cash (equity_values w.state.equity_curve)
        ≡ num.sub (num.add cash (roots.sum (map (λ t. t.net_pnl) trades))) w.state.total_funding
  final_value-profits c cash risk n bs memory {w = w} returned none_held =
      let r = run_loop-Reconciled summable.exact strategy c cash risk n bs memory returned in
      last_value c cash risk n bs memory returned none_held
      ∙ flat-cash summable.exact _ w.state none_held r.balanced
      ∙ ap (λ x. num.sub x w.state.total_funding) (with_profits-sum summable cash r.settled)

  -- In exact arithmetic, apart from what `round` does, with a leverage multiplier above 0, a run returns
  -- a result on any bars, whatever the strategy answers. Its recorded trades are the roundings of trades,
  -- each with a net profit that is its gross profit less its costs. The final value is the initial cash
  -- with these net profits, less the total funding; and the reconciliation error that is reported is
  -- what rounding each profit to cents has left out, itself rounded: the net profits less the rounded
  -- ones.
  pub compute_reconciliation-balances :
      (c : ExecutionConfig F) (cash risk : F) (n : ℕ) (bs : List (Bar F)) (memory : S)
      → le c.leverage_multiplier nought ≡ false
      → (w : World F) × (run_loop strategy c cash risk n bs memory ≡ ok w)
        × (trades : List (TradeRecord F)) × (w.state.trades ≡ map to_dict trades)
        × All IsNet trades
        × (last_or cash (equity_values w.state.equity_curve)
            ≡ num.sub
                (num.add cash (roots.sum (map (λ t. t.net_pnl) trades)))
                w.state.total_funding)
        × ((compute_reconciliation w.state cash).reconciliation_error
            ≡ num.round
                (num.sub
                  (roots.sum (map (λ t. t.net_pnl) trades))
                  (roots.sum (map (λ t. num.round t.net_pnl 2) trades)))
                2)
  unfolding compute_reconciliation finite_profits
  compute_reconciliation-balances c cash risk n bs memory positive =
      let (w, returned, closed, points) =
        run_loop_ends strategy c cash risk n bs memory summable.exact.nought_eq positive in
      let none_held = summable.exact.eq_nought _ closed in
      let r = run_loop-Reconciled summable.exact strategy c cash risk n bs memory returned in
      let value = final_value-profits c cash risk n bs memory returned none_held in
      let realized : finite_profits w.state ≡ map (λ t. num.round t.net_pnl 2) r.settled =
        ap (λ ts. only finite.isfinite (map (λ t. t.net_pnl) ts)) r.recorded
        ∙ realized-rounded summable r.settled in
      let funding = w.state.total_funding in
      (
        w,
        returned,
        r.settled,
        r.recorded,
        r.netted,
        value,
        ap
              (λ v.
                num.round
                  (num.add (num.sub (num.sub v cash) (roots.sum (finite_profits w.state))) funding)
                  2)
              value
            ∙ ap
                (λ ps.
                  num.round
                    (num.add
                      (num.sub
                        (num.sub
                          (num.sub (num.add cash (roots.sum (map (λ t. t.net_pnl) r.settled)))
                            funding)
                          cash)
                        (roots.sum ps))
                      funding)
                    2)
                realized
            ∙ ap (λ x. num.round x 2) (rounding_error summable cash _ funding _),
      )
