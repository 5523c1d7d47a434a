-- ===== src/Simulation/Ledger/Steps.antt =====
-- The books after each operation of position_closer.py, position_opener.py and position_executor.py.
use finbar.Common.{
  ◌≡◌, ◌∙◌, sym, ap, refl, false, none, some, [], ◌∷◌, ◌++◌, All-append, String, arith, ok,
}
use mathlib.Core.List.{map-append}
use mathlib.Core.Path.{subst}
use finbar.Simulation.Number.{Number, le, eq, nought}
use finbar.Simulation.Types.{
  long, short, other, Direction, ExecutionConfig, SimulatedPosition, SimulationState, World,
  PendingEntry, ExitReason, flat,
}
use finbar.Simulation.Holding.{Clock}
use finbar.Simulation.Margin.{lock_entry_margin, credit_entry_short, settle_exit}
use finbar.Simulation.Closer.{build_trade, to_dict, close, settle, release_margin}
use finbar.Simulation.Opener.{open_position}
use finbar.Simulation.Frame.{close-Closed}
use finbar.Simulation.Settlement.{
  close-long_cash, close-short_cash, open_position-long, open_position-short,
}
use finbar.Simulation.Settlement.Trips.{add-sub}
use finbar.Simulation.Ledger.{
  IsExact, Balanced, uninvested, bought, sold_short, IsNet, with_profits, with_profits-snoc,
  SameCash, Reconciled, SameAccounts,
}

module _ {F : Type 0} ⦃num : Number F⦄ ⦃clock : Clock F⦄ where
  close-funding :
      (c : ExecutionConfig F) (w : World F) (price : F) (date : String) (reason : ExitReason)
      → (close c w price date reason).state.total_funding ≡ w.state.total_funding
  unfolding close settle release_margin
  close-funding c w price date reason = ground arith

  pub close-SameCash :
      (c : ExecutionConfig F) (w : World F) (price : F) (date : String) (reason : ExitReason)
      → SameCash (close c w price date reason)
  unfolding close settle_exit
  close-SameCash c w price date reason =
      elim w.margin as (λ m. SameCash (close c (record w { margin = m }) price date reason)) [
        | none ↦ tt
        | some a ↦ refl
      ]

  build_trade-IsNet :
      (c : ExecutionConfig F) (p : SimulatedPosition F) (price : F) (date : String)
      (reason : ExitReason)
      → IsNet (build_trade c p price date reason)
  unfolding build_trade
  build_trade-IsNet c p price date reason = refl

  module _ (exact : IsExact F) where
    close-Balanced :
        (c : ExecutionConfig F) (base : F) (w : World F) (price : F) (date : String)
        (reason : ExitReason)
        → Balanced base w.state
        → eq w.state.position.size nought ≡ false
        → (close c w price date reason).state.cash
          ≡ num.add base (build_trade c w.state.position price date reason).net_pnl
    close-Balanced c base w price date reason (uninvested none_held cash) held =
        cc (exact.nought_eq)
    close-Balanced c base w price date reason (bought _ positive goes cash) held =
        close-long_cash c base price w date reason exact.ring positive goes cash
    close-Balanced c base w price date reason (sold_short _ negative goes cash) held =
        close-short_cash c base price w date reason exact.ring negative goes cash

    pub close-Reconciled :
        (c : ExecutionConfig F) (initial : F) (w : World F) (price : F) (date : String)
        (reason : ExitReason)
        → eq w.state.position.size nought ≡ false
        → Reconciled initial w
        → Reconciled initial (close c w price date reason)
    unfolding flat
    close-Reconciled c initial w price date reason held r =
        let t = build_trade c w.state.position price date reason in
        let closed = close-Closed c w price date reason in
        let before = with_profits initial r.settled in
        record {
          settled = r.settled ++ t ∷ [];
          recorded =
              closed.trades
              ∙ ap (λ xs. xs ++ to_dict t ∷ []) r.recorded
              ∙ sym (map-append to_dict r.settled (t ∷ []));
          netted =
              All-append IsNet r.settled (t ∷ []) r.netted
                (build_trade-IsNet c w.state.position price date reason, tt);
          balanced = uninvested (ap (λ p. p.size) closed.position) (
              close-Balanced c _ w price date reason r.balanced held
              ∙ add-sub exact.ring before w.state.total_funding t.net_pnl
              ∙ ap (λ x. num.sub x w.state.total_funding)
                  (sym (with_profits-snoc initial r.settled t))
              ∙ ap (num.sub (with_profits initial (r.settled ++ t ∷ [])))
                  (sym (close-funding c w price date reason)));
          same_cash = close-SameCash c w price date reason;
        }

module _ {F : Type 0} ⦃num : Number F⦄ where
  open_position-trades :
      (c : ExecutionConfig F) (w : World F) (e : PendingEntry F) (size raw fill : F) (date : String)
      {w' : World F}
      → open_position c w e size raw fill date ≡ ok w'
      → (w'.state.trades ≡ w.state.trades) × (w'.state.total_funding ≡ w.state.total_funding)
  unfolding open_position
  open_position-trades c w e size raw fill date opened = ground arith

  pub open_position-SameCash :
      (c : ExecutionConfig F) (w : World F) (e : PendingEntry F) (size raw fill : F) (date : String)
      {w' : World F}
      → SameCash w
      → open_position c w e size raw fill date ≡ ok w'
      → SameCash w'
  unfolding open_position lock_entry_margin credit_entry_short
  open_position-SameCash c w e size raw fill date same opened = ground arith

  open_position-other :
      (c : ExecutionConfig F) (w : World F) (e : PendingEntry F) (size raw fill : F)
      (date name : String) {w' : World F}
      → e.direction ≡ other name
      → open_position c w e size raw fill date ≡ ok w'
      → SameAccounts w.state w'.state
  unfolding open_position
  open_position-other c w e size raw fill date name goes opened = ground arith

  module _ (exact : IsExact F) where
    -- With no position open the cash is the base.
    pub flat-cash :
        (base : F) (s : SimulationState F)
        → s.position.size ≡ nought
        → Balanced base s
        → s.cash ≡ base
    flat-cash base s none_held (uninvested _ cash) = cash
    flat-cash base s none_held (bought held _ _ _) = cc (exact.nought_eq)
    flat-cash base s none_held (sold_short held _ _ _) = cc (exact.nought_eq)

    open_position-Balanced :
        (c : ExecutionConfig F) (base : F) (w : World F) (e : PendingEntry F) (size raw fill : F)
        (date : String) (d : Direction) {w' : World F}
        → le size nought ≡ false
        → w.state.position.size ≡ nought
        → w.state.cash ≡ base
        → e.direction ≡ d
        → open_position c w e size raw fill date ≡ ok w'
        → Balanced base w'.state
    open_position-Balanced c base w e size raw fill date long sized none_held cash goes opened =
        let (size_is, price, direction, fee, paid) =
          open_position-long c w e size raw fill date goes opened in
        bought (rw size_is (exact.positive_eq size sized)) (rw size_is (exact.positive size sized))
          direction (rw (size_is, price, fee, exact.abs_positive size sized, ← cash) paid)
    open_position-Balanced c base w e size raw fill date short sized none_held cash goes opened =
        let (size_is, price, direction, fee, paid) =
          open_position-short c w e size raw fill date goes opened in
        sold_short (rw size_is (exact.negative_eq size sized))
          (rw size_is (exact.negative size sized)) direction
          (rw (size_is, price, fee, exact.abs_negative size sized, ← cash) paid)
    open_position-Balanced c base w e size raw fill date (other name) sized none_held cash goes
          opened =
        let same = open_position-other c w e size raw fill date name goes opened in
        uninvested (same.size ∙ none_held) (same.cash ∙ cash)

    pub open_position-Reconciled :
        (c : ExecutionConfig F) (initial : F) (w : World F) (e : PendingEntry F) (size raw fill : F)
        (date : String) {w' : World F}
        → le size nought ≡ false
        → w.state.position.size ≡ nought
        → open_position c w e size raw fill date ≡ ok w'
        → Reconciled initial w
        → Reconciled initial w'
    open_position-Reconciled c initial w e size raw fill date {w' = w'} sized none_held opened r =
        let (trades, funding) = open_position-trades c w e size raw fill date opened in
        record {
          settled = r.settled;
          recorded = trades ∙ r.recorded;
          netted = r.netted;
          balanced =
              subst (λ f. Balanced (num.sub (with_profits initial r.settled) f) w'.state)
                (sym funding)
                (open_position-Balanced c _ w e size raw fill date e.direction sized none_held
                  (flat-cash _ w.state none_held r.balanced) refl opened);
          same_cash = open_position-SameCash c w e size raw fill date r.same_cash opened;
        }
