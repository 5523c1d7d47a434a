-- ===== src/Simulation/Margin.antt =====
-- MarginAccount and MarginAccountManager (simulation/margin_account.py and
-- margin_account_manager.py).
use finbar.Common.{Bool, false, not, ◌||◌, ◌&&◌, if◌then◌else◌}
use finbar.Simulation.Number.{
  Number, ◌+◌, ◌-◌, ◌*◌, ◌/◌, neg, abs, lt, le, eq, nought, unity, min, max,
}
use finbar.Simulation.Types.{ExecutionConfig, SimulatedPosition, SimulationState, MarginAccount}

module _ {F : Type 0} ⦃num : Number F⦄ where
  -- `MarginAccount(cash=initial_cash)`
  unfoldable pub open_account : F → MarginAccount F
  open_account initial_cash = record {
    cash = initial_cash;
    margin_book = nought;
    unrealized_pnl = nought;
    total_borrow_cost = nought;
    total_funding_paid = nought;
  }

  unfoldable pub equity : MarginAccount F → F
  equity a = a.cash

  unfoldable pub available_margin : MarginAccount F → F
  unfolding equity
  available_margin a = max nought (equity a - a.margin_book)

  unfoldable pub lock_margin : MarginAccount F → F → MarginAccount F
  lock_margin a amount =
      let actual : F = min amount a.cash in
      record a { cash = a.cash - actual; margin_book = a.margin_book + actual }

  unfoldable pub release_book : MarginAccount F → F → MarginAccount F
  release_book a amount =
      let actual : F = min amount a.margin_book in
      record a { margin_book = a.margin_book - actual; cash = a.cash + actual }

  unfoldable pub pay_funding : MarginAccount F → F → MarginAccount F
  pay_funding a payment = record a {
    cash = a.cash - payment;
    total_funding_paid = a.total_funding_paid + abs payment;
  }

  unfoldable pub apply_borrow : MarginAccount F → F → MarginAccount F
  apply_borrow a cost = record a {
    cash = a.cash - cost;
    total_borrow_cost = a.total_borrow_cost + cost;
  }

  -- The margin of a notional value, without the check of `LeverageConfig.margin_required`.
  unfoldable pub margin_of : ExecutionConfig F → F → F
  margin_of c notional =
      if lt nought c.leverage_multiplier then notional / c.leverage_multiplier else notional

  unfoldable pub lock_entry_margin :
      ExecutionConfig F → SimulationState F → F → F → MarginAccount F → MarginAccount F
  unfolding margin_of
  lock_entry_margin c s cost fee a = record a {
    margin_book = a.margin_book + margin_of c cost;
    cash = if num.isclose s.cash a.cash then a.cash - (cost + fee) else s.cash;
  }

  unfoldable pub credit_entry_short : SimulationState F → F → F → MarginAccount F → MarginAccount F
  credit_entry_short s cost fee a = record a {
    cash = if num.isclose s.cash a.cash then a.cash + (cost - fee) else s.cash;
  }

  unfoldable pub settle_exit :
      ExecutionConfig F → SimulationState F → F → F → MarginAccount F → MarginAccount F
  unfolding margin_of release_book
  settle_exit c s abs_size entry_price a =
      let released = release_book a (min (margin_of c (abs_size * entry_price)) a.margin_book) in
      record released { cash = s.cash }

  unfoldable pub sync_state_equity : MarginAccount F → SimulationState F → SimulationState F
  unfolding equity
  sync_state_equity a s = record s { cash = equity a }

  -- The signed payment for one bar, and the account after it.
  unfoldable pub apply_funding :
      ExecutionConfig F → SimulatedPosition F → MarginAccount F → F × MarginAccount F
  unfolding pay_funding
  apply_funding c p a =
      if not c.enable_funding || eq p.size nought
      then (nought, a)
      else if le (abs p.size) nought || le p.entry_price nought
      then (nought, a)
      else let due : F = abs p.size * p.entry_price * c.funding_rate in
        let payment : F = if lt p.size nought then neg due else due in
        (payment, pay_funding a payment)

  -- True where the source returns "liquidation".
  unfoldable pub check_margin_call : ExecutionConfig F → SimulatedPosition F → F → Bool
  check_margin_call c p close =
      if eq p.size nought || le c.leverage_multiplier unity
      then false
      else if le p.entry_price nought || le (abs p.size) nought
      then false
      else if lt nought p.liquidation_price
      then (lt nought p.size && le close p.liquidation_price)
        || (lt p.size nought && le p.liquidation_price close)
      else false
