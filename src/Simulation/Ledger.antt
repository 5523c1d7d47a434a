-- ===== src/Simulation/Ledger.antt =====
-- The books of a run of backtest_runner.py: what its closed trades and its open position say of the
-- cash.
pub mod Steps
pub mod Accounts
pub mod Orders
pub mod Run
pub mod FinalValue
use finbar.Common.{
  ◌≡◌, ◌∙◌, sym, ap, refl, true, false, none, some, List, [], ◌∷◌, ◌++◌, All, All-append, map,
  String, arith, ok,
}
use mathlib.Core.Path.{subst}
use finbar.Simulation.Number.{Number, lt, le, eq, nought, neg, abs}
use finbar.Simulation.Types.{
  long, short, Direction, ExecutionConfig, SimulatedPosition, SimulationState, TradeRecord, World,
  PendingEntry, ExitReason, flat,
}
use finbar.Simulation.Holding.{Clock}
use finbar.Simulation.Closer.{build_trade, to_dict, close}
use finbar.Simulation.Settlement.Trips.{IsRing, add-sub, sub-sub, add-add}

-- Arithmetic without rounding, and what the code's tests on a size say there.
pub record IsExact (F : Type 0) ⦃num : Number F⦄ : Type 0 where
  pub ring : IsRing F
  pub nought_eq : num.eq (num.of_nat 0) (num.of_nat 0) ≡ true
  pub eq_nought : (x : F) → num.eq x (num.of_nat 0) ≡ true → x ≡ num.of_nat 0
  pub lt_irrefl : num.lt (num.of_nat 0) (num.of_nat 0) ≡ false
  pub positive : (x : F) → num.le x (num.of_nat 0) ≡ false → num.lt (num.of_nat 0) x ≡ true
  pub negative :
      (x : F) → num.le x (num.of_nat 0) ≡ false → num.lt (num.of_nat 0) (num.neg x) ≡ false
  pub positive_eq : (x : F) → num.le x (num.of_nat 0) ≡ false → num.eq x (num.of_nat 0) ≡ false
  pub negative_eq :
      (x : F) → num.le x (num.of_nat 0) ≡ false → num.eq (num.neg x) (num.of_nat 0) ≡ false
  pub abs_positive : (x : F) → num.le x (num.of_nat 0) ≡ false → num.abs x ≡ x
  pub abs_negative : (x : F) → num.le x (num.of_nat 0) ≡ false → num.abs (num.neg x) ≡ x

module _ {F : Type 0} ⦃num : Number F⦄ where
  -- The cash is `base`, but for what an open position has cost or brought.
  pub data Balanced (base : F) (s : SimulationState F) : Type 0 where
    uninvested : s.position.size ≡ nought → s.cash ≡ base → Balanced base s
    bought :
        eq s.position.size nought ≡ false
        → lt nought s.position.size ≡ true
        → s.position.direction ≡ long
        → s.cash
          ≡ num.sub base (
              num.add
                (num.mul (abs s.position.size) s.position.entry_price)
                s.position.entry_commission)
        → Balanced base s
    sold_short :
        eq s.position.size nought ≡ false
        → lt nought s.position.size ≡ false
        → s.position.direction ≡ short
        → s.cash
          ≡ num.add base (
              num.sub
                (num.mul (abs s.position.size) s.position.entry_price)
                s.position.entry_commission)
        → Balanced base s

  -- The net profit of a trade is its gross profit less its commissions and what borrowing cost.
  abbrev pub IsNet : TradeRecord F → Type 0
  IsNet t =
      t.net_pnl
      ≡ num.sub (num.sub (num.sub t.gross_pnl t.entry_commission) t.exit_commission) t.borrow_cost

  -- A sum and the net profits of trades.
  abbrev pub with_profits : F → List (TradeRecord F) → F
  with_profits sum [] = sum
  with_profits sum (t ∷ ts) = with_profits (num.add sum t.net_pnl) ts

  pub with_profits-snoc :
      (sum : F) (ts : List (TradeRecord F)) (t : TradeRecord F)
      → with_profits sum (ts ++ t ∷ []) ≡ num.add (with_profits sum ts) t.net_pnl
  with_profits-snoc sum [] t = refl
  with_profits-snoc sum (x ∷ xs) t = with_profits-snoc (num.add sum x.net_pnl) xs t

  -- The executor's account, if there is one, has the same cash as the state.
  abbrev pub SameCash : World F → Type 0
  SameCash w = elim w.margin [ none ↦ Unit | some a ↦ a.cash ≡ w.state.cash ]

  -- The recorded trades are the roundings of trades whose net profits, with the initial cash and the
  -- funding, make up the cash.
  pub record Reconciled (initial : F) (w : World F) : Type 0 where
    pub settled : List (TradeRecord F)
    pub recorded : w.state.trades ≡ map to_dict settled
    pub netted : All IsNet settled
    pub balanced : Balanced (num.sub (with_profits initial settled) w.state.total_funding) w.state
    pub same_cash : SameCash w

  -- What the books read of a state.
  pub record SameAccounts (s t : SimulationState F) : Type 0 where
    pub cash : t.cash ≡ s.cash
    pub trades : t.trades ≡ s.trades
    pub funding : t.total_funding ≡ s.total_funding
    pub size : t.position.size ≡ s.position.size
    pub direction : t.position.direction ≡ s.position.direction
    pub entry_price : t.position.entry_price ≡ s.position.entry_price
    pub commission : t.position.entry_commission ≡ s.position.entry_commission

  Balanced-same :
      (base : F) (s t : SimulationState F) → SameAccounts s t → Balanced base s → Balanced base t
  Balanced-same base s t same (uninvested none_held cash) =
      uninvested (same.size ∙ none_held) (same.cash ∙ cash)
  Balanced-same base s t same (bought held positive goes cash) =
      bought (rw same.size held) (rw same.size positive) (same.direction ∙ goes)
        (rw (same.cash, same.size, same.entry_price, same.commission) cash)
  Balanced-same base s t same (sold_short held negative goes cash) =
      sold_short (rw same.size held) (rw same.size negative) (same.direction ∙ goes)
        (rw (same.cash, same.size, same.entry_price, same.commission) cash)

  pub Reconciled-same :
      (initial : F) (w v : World F)
      → SameAccounts w.state v.state
      → SameCash v
      → Reconciled initial w
      → Reconciled initial v
  Reconciled-same initial w v same cash r = record {
    settled = r.settled;
    recorded = same.trades ∙ r.recorded;
    netted = r.netted;
    balanced =
        subst (λ f. Balanced (num.sub (with_profits initial r.settled) f) v.state)
          (sym same.funding) (Balanced-same _ w.state v.state same r.balanced);
    same_cash = cash;
  }
