-- ===== src/Simulation/Closer.antt =====
-- PositionCloser (simulation/position_closer.py): the settlement of an exit.
use finbar.Common.{
  String, Bool, true, false, not, ◌||◌, ◌&&◌, Option, none, some, [], ◌∷◌, ◌++◌, if◌then◌else◌,
}
use mathlib.Core.Option
use finbar.Simulation.Number.{Number, ◌+◌, ◌-◌, ◌*◌, ◌/◌, neg, abs, lt, le, eq, nought, max}
use finbar.Simulation.Types.{
  Direction, long, short, other, exit, ExecutionConfig, SimulatedPosition, SimulationState,
  TradeRecord, World, ExitReason, liquidation, flat,
}
use finbar.Simulation.Leverage.{is_spot, leverage_of}
use finbar.Simulation.Holding.{Clock, time_held}
use finbar.Simulation.Costs.{apply_slippage, commission}
use finbar.Simulation.Margin.{settle_exit}

-- `direction == "short"`
unfoldable pub is_short : Direction → Bool
is_short long = false
is_short short = true
is_short (other d) = false

module _ {F : Type 0} ⦃num : Number F⦄ where
  unfoldable pub calc_pnl : F → F → F → F → F
  calc_pnl size entry_price exit_price abs_size =
      if lt nought size
      then (exit_price - entry_price) * abs_size
      else (entry_price - exit_price) * abs_size

  unfoldable pub cash_settlement : F → F → F → F → F
  cash_settlement size fill_cost fee borrow =
      if lt nought size then fill_cost - fee else neg (fill_cost + fee + borrow)

  -- A leveraged multiplier is above 1, so `margin_required` does not raise here.
  unfoldable pub release_margin : ExecutionConfig F → SimulationState F → F → F → SimulationState F
  release_margin c s abs_size entry_price =
      if not (is_spot (leverage_of c)) && lt nought entry_price
      then record s {
        used_margin = max nought (s.used_margin - abs_size * entry_price / c.leverage_multiplier);
      }
      else s

  -- `TradeRecord.to_dict`
  unfoldable pub to_dict : TradeRecord F → TradeRecord F
  to_dict t = record t {
    entry_price = num.round t.entry_price 8;
    exit_price = num.round t.exit_price 8;
    gross_pnl = num.round t.gross_pnl 2;
    net_pnl = num.round t.net_pnl 2;
    entry_commission = num.round t.entry_commission 2;
    exit_commission = num.round t.exit_commission 2;
    borrow_cost = num.round t.borrow_cost 2;
    total_commission = num.round t.total_commission 2;
    pnl_pct = num.round t.pnl_pct 4;
  }

module _ {F : Type 0} ⦃num : Number F⦄ ⦃clock : Clock F⦄ where
  borrow_for : F → F → Option F → F
  borrow_for notional fee none = nought
  borrow_for notional fee (some days) = notional * fee * (days / num.of_nat 365)

  unfoldable pub borrow_cost : ExecutionConfig F → F → F → Direction → String → String → F
  unfolding borrow_for is_short
  borrow_cost c abs_size entry_price direction entry_date exit_date =
      if not (is_short direction)
        || (le c.borrow_fee_annual_pct nought || (le abs_size nought || le entry_price nought))
      then nought
      else borrow_for (abs_size * entry_price) c.borrow_fee_annual_pct
          (time_held entry_date exit_date c.borrow_time_basis)

  -- The values that `close` computes before it records the trade.
  unfoldable pub build_trade :
      ExecutionConfig F → SimulatedPosition F → F → String → ExitReason → TradeRecord F
  build_trade c p exit_price bar_date reason =
      let size : F = abs p.size in
      let fill_price : F = apply_slippage exit_price p.direction exit c.slippage_pct in
      let fee : F = commission (size * fill_price) c.commission_pct in
      let gross : F = calc_pnl p.size p.entry_price fill_price size in
      let borrow : F = borrow_cost c size p.entry_price p.direction p.entry_date bar_date in
      let net : F = gross - p.entry_commission - fee - borrow in
      record {
        entry_date = p.entry_date;
        exit_date = bar_date;
        entry_price = p.entry_price;
        exit_price = fill_price;
        size = size;
        gross_pnl = gross;
        net_pnl = net;
        entry_commission = p.entry_commission;
        exit_commission = fee;
        borrow_cost = borrow;
        total_commission = p.entry_commission + fee;
        pnl_pct =
            if lt nought p.entry_price && lt nought size
            then net / (p.entry_price * size)
            else nought;
        duration_bars = p.bars_held;
        direction = p.direction;
        exit_reason = reason;
      }

  -- The state with the cash, the totals and the margin of the exit settled.
  unfoldable pub settle :
      ExecutionConfig F → SimulationState F → TradeRecord F → F → SimulationState F
  settle c s t exit_price =
      let settled : SimulationState F = record s {
        total_commission = s.total_commission + t.exit_commission;
        total_slippage = s.total_slippage + abs (t.exit_price - exit_price) * t.size;
        total_borrow_cost = s.total_borrow_cost + t.borrow_cost;
        cash =
            s.cash
            + cash_settlement s.position.size (t.size * t.exit_price) t.exit_commission
                t.borrow_cost;
      } in
      release_margin c settled t.size t.entry_price

  unfoldable pub close : ExecutionConfig F → World F → F → String → ExitReason → World F
  close c w exit_price bar_date reason =
      let t = build_trade c w.state.position exit_price bar_date reason in
      let s = settle c w.state t exit_price in
      record {
        state = record s { trades = s.trades ++ to_dict t ∷ []; position = flat };
        margin = Option.map (settle_exit c s t.size t.entry_price) w.margin;
      }

  -- The world after the check, and whether it liquidated the position.
  unfoldable pub check_liquidation : ExecutionConfig F → World F → F → F → String → World F × Bool
  check_liquidation c w high low date =
      let p = w.state.position in
      if is_spot (leverage_of c) || eq p.size nought
      then (w, false)
      else if (lt nought p.size && le low p.liquidation_price)
          || (lt p.size nought && le p.liquidation_price high)
      then (close c w p.liquidation_price date liquidation, true)
      else (w, false)
