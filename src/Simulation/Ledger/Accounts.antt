-- ===== src/Simulation/Ledger/Accounts.antt =====
-- The books after the steps that leave the trades alone: the strategy's answer, the equity curve, the
-- margin account's equity and funding.
use finbar.Common.{
  ◌≡◌, ◌∙◌, sym, ap, refl, none, some, List, String, arith, Option, Bool-cases, not, if◌then◌else◌,
  inl, inr,
}
use mathlib.Core.Path.{subst}
use finbar.Simulation.Number.{Number, eq, nought}
use finbar.Simulation.Types.{
  ExecutionConfig, SimulationState, World, PendingEntry, SimulatedPosition, add_diagnostic,
  MarginAccount,
}
use finbar.Simulation.Exits.{resolve}
use finbar.Simulation.Margin.{apply_funding, pay_funding, sync_state_equity, equity}
use finbar.Simulation.Sizer.{resolve_size}
use finbar.Simulation.Executor.{fund, sync_margin_equity, restate}
use finbar.Simulation.Frame.{resolve_size-SameBook}
use finbar.Simulation.Settlement.Trips.{sub-sub, add-sub, sub-add}
use finbar.Simulation.Ledger.{
  IsExact, Balanced, uninvested, bought, sold_short, with_profits, SameCash, Reconciled,
  SameAccounts, Reconciled-same,
}
use finbar.Simulation.Runner.{SignalResult, process_signal, track_equity}

module _ {F : Type 0} ⦃num : Number F⦄ where
  -- A step that changes none of the accounts, nor the margin account.
  pub Reconciled-state :
      (initial : F) (w : World F) (s : SimulationState F)
      → SameAccounts w.state s
      → Reconciled initial w
      → Reconciled initial (record w { state = s })
  Reconciled-state initial w s same r =
      Reconciled-same initial w (record w { state = s }) same (same_cash_of w.margin r.same_cash) r
    where
      same_cash_of :
          (m : Option (MarginAccount F))
          → SameCash (record w { margin = m })
          → SameCash (record { state = s; margin = m })
      same_cash_of none h = tt
      same_cash_of (some a) h = h ∙ sym same.cash

  pub add_diagnostic-same :
      (s : SimulationState F) (severity code date : String) (metadata : List (String × F))
      → SameAccounts s (add_diagnostic s severity code date metadata)
  unfolding add_diagnostic
  add_diagnostic-same s severity code date metadata = ground arith

  pub resolve_size-same :
      (c : ExecutionConfig F) (s : SimulationState F) (e : PendingEntry F) (price value : F)
      (date : String)
      → SameAccounts s (resolve_size c s e price value date).1
  resolve_size-same c s e price value date =
      let same = resolve_size-SameBook c s e price value date in
      record {
        cash = same.cash;
        trades = same.trades;
        funding = same.funding;
        size = ap (λ p. p.size) same.position;
        direction = ap (λ p. p.direction) same.position;
        entry_price = ap (λ p. p.entry_price) same.position;
        commission = ap (λ p. p.entry_commission) same.position;
      }

  pub process_signal-same :
      (s : SimulationState F) (g : Option (SignalResult F)) (price risk : F)
      → SameAccounts s (process_signal s g price risk)
  unfolding process_signal
  process_signal-same s g price risk = ground arith

  pub track_equity-same :
      (s : SimulationState F) (price : F) (date : String)
      → SameAccounts s (track_equity s price date)
  unfolding track_equity
  track_equity-same s price date = ground arith

  pub restate-same : (s : SimulationState F) (price : F) → SameAccounts s (restate s price)
  unfolding restate
  restate-same s price = ground arith

  pub sync_margin_equity-same :
      (w : World F)
      → SameCash w
      → SameAccounts w.state (sync_margin_equity w).state × SameCash (sync_margin_equity w)
  unfolding sync_margin_equity sync_state_equity equity
  sync_margin_equity-same w same = ground arith

  pub sync_margin_equity-Reconciled :
      (initial : F) (w : World F) → Reconciled initial w → Reconciled initial (sync_margin_equity w)
  sync_margin_equity-Reconciled initial w r =
      let (same, cash) = sync_margin_equity-same w r.same_cash in
      Reconciled-same initial w (sync_margin_equity w) same cash r

  -- A payment out of the cash.
  Balanced-pay :
      (base payment cash : F) (s : SimulationState F) (total : F)
      → IsExact F
      → cash ≡ num.sub s.cash payment
      → Balanced base s
      → Balanced (num.sub base payment) (record s { cash = cash; total_funding = total })
  Balanced-pay base payment cash s total exact paid (uninvested none_held at) =
      uninvested none_held (paid ∙ ap (λ x. num.sub x payment) at)
  Balanced-pay base payment cash s total exact paid (bought held positive goes at) =
      bought held positive goes
        (paid ∙ ap (λ x. num.sub x payment) at ∙ sub-sub exact.ring base _ payment)
  Balanced-pay base payment cash s total exact paid (sold_short held negative goes at) =
      sold_short held negative goes
        (paid ∙ ap (λ x. num.sub x payment) at ∙ sym (add-sub exact.ring base payment _))

  apply_funding-cash :
      (c : ExecutionConfig F) (p : SimulatedPosition F) (a : MarginAccount F)
      → IsExact F
      → (apply_funding c p a).1.cash ≡ num.sub a.cash (apply_funding c p a).0
  unfolding apply_funding pay_funding
  apply_funding-cash c p a exact = ground (arith, exact.ring.sub-nought a.cash)

  -- The total of the payments, to which one of 0 is not added.
  funding_total :
      (sum total payment : F)
      → IsExact F
      → num.sub (num.sub sum total) payment
        ≡ num.sub sum (if not (eq payment nought) then num.add total payment else total)
  funding_total sum total payment exact = elim (Bool-cases (eq payment nought)) [
    | inl nothing ↦
        rw nothing
          (rw (exact.eq_nought payment nothing) (exact.ring.sub-nought (num.sub sum total)))
    | inr something ↦ rw something (sym (sub-add exact.ring sum total payment))
  ]

  pub fund-Reconciled :
      (c : ExecutionConfig F) (initial : F) (w : World F)
      → IsExact F
      → Reconciled initial w
      → Reconciled initial (fund c w)
  unfolding fund sync_state_equity equity
  fund-Reconciled c initial w exact r = by_account w.margin r.same_cash
    where
      by_account :
          (m : Option (MarginAccount F))
          → SameCash (record w { margin = m })
          → Reconciled initial (fund c (record w { margin = m }))
      by_account none h = record {
        settled = r.settled;
        recorded = r.recorded;
        netted = r.netted;
        balanced = r.balanced;
        same_cash = tt;
      }
      by_account (some a) h =
          let paid = apply_funding c w.state.position a in
          let books = with_profits initial r.settled in
          record {
            settled = r.settled;
            recorded = r.recorded;
            netted = r.netted;
            balanced =
                subst (λ b. Balanced b (fund c (record w { margin = some a })).state)
                  (funding_total books w.state.total_funding paid.0 exact)
                  (Balanced-pay _ paid.0 paid.1.cash w.state _ exact
                    (apply_funding-cash c w.state.position a exact ∙ ap (λ x. num.sub x paid.0) h)
                    r.balanced);
            same_cash = refl;
          }

  pub resolve-flat :
      (p : SimulatedPosition F) (o h l : F) → IsExact F → p.size ≡ nought → resolve p o h l ≡ none
  unfolding resolve
  resolve-flat p o h l exact none_held = rw (none_held, exact.lt_irrefl)
