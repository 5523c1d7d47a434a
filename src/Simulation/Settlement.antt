-- ===== src/Simulation/Settlement.antt =====
-- What an entry and its exit by position_opener.py and position_closer.py do to the cash together.
pub mod Trips
use finbar.Common.{String, true, false, ok, ◌≡◌, ◌∙◌, sym, ap, ◌⊎◌, inl, inr, arith}
use finbar.Simulation.Number.{Number, lt, nought, neg, abs}
use finbar.Simulation.Types.{
  long, short, exit, ExecutionConfig, SimulatedPosition, World, PendingEntry, ExitReason,
}
use finbar.Simulation.Holding.{Clock}
use finbar.Simulation.Costs.{commission, apply_slippage}
use finbar.Simulation.Closer.{
  build_trade, settle, close, release_margin, cash_settlement, calc_pnl, borrow_cost, is_short,
}
use finbar.Simulation.Opener.{open_position}
use finbar.Simulation.Settlement.Trips.{IsRing, long_trip, short_trip, add-sub, add-add}

-- What stays of a position while it is held.
pub record SameHolding {F : Type 0} (p q : SimulatedPosition F) : Type 0 where
  pub size : q.size ≡ p.size
  pub entry_price : q.entry_price ≡ p.entry_price
  pub direction : q.direction ≡ p.direction
  pub commission : q.entry_commission ≡ p.entry_commission

module _ {F : Type 0} ⦃num : Number F⦄ where
  pub open_position-long :
      (c : ExecutionConfig F) (w : World F) (e : PendingEntry F) (size raw fill : F) (date : String)
      {w' : World F}
      → e.direction ≡ long
      → open_position c w e size raw fill date ≡ ok w'
      → let cost = num.mul size fill in
        (w'.state.position.size ≡ size)
        × (w'.state.position.entry_price ≡ fill)
        × (w'.state.position.direction ≡ long)
        × (w'.state.position.entry_commission ≡ commission cost c.commission_pct)
        × (w'.state.cash ≡ num.sub w.state.cash (num.add cost (commission cost c.commission_pct)))
  unfolding open_position
  open_position-long c w e size raw fill date goes opened = ground arith

  pub open_position-short :
      (c : ExecutionConfig F) (w : World F) (e : PendingEntry F) (size raw fill : F) (date : String)
      {w' : World F}
      → e.direction ≡ short
      → open_position c w e size raw fill date ≡ ok w'
      → let cost = num.mul size fill in
        (w'.state.position.size ≡ neg size)
        × (w'.state.position.entry_price ≡ fill)
        × (w'.state.position.direction ≡ short)
        × (w'.state.position.entry_commission ≡ commission cost c.commission_pct)
        × (w'.state.cash ≡ num.add w.state.cash (num.sub cost (commission cost c.commission_pct)))
  unfolding open_position
  open_position-short c w e size raw fill date goes opened = ground arith

module _ {F : Type 0} ⦃num : Number F⦄ ⦃clock : Clock F⦄ where
  close-cash :
      (c : ExecutionConfig F) (w : World F) (price : F) (date : String) (reason : ExitReason)
      → let t = build_trade c w.state.position price date reason in
        (close c w price date reason).state.cash
        ≡ num.add w.state.cash (
            cash_settlement w.state.position.size
              (num.mul t.size t.exit_price)
              t.exit_commission
              t.borrow_cost)
  unfolding close settle release_margin
  close-cash c w price date reason = ground arith

  -- Closing a position that was paid for out of `base`, or whose proceeds were added to it, leaves
  -- `base` and the net profit.
  pub close-long_cash :
      (c : ExecutionConfig F) (base price : F) (w : World F) (date : String) (reason : ExitReason)
      → IsRing F
      → lt nought w.state.position.size ≡ true
      → w.state.position.direction ≡ long
      → w.state.cash
        ≡ num.sub base (
            num.add
              (num.mul (abs w.state.position.size) w.state.position.entry_price)
              w.state.position.entry_commission)
      → (close c w price date reason).state.cash
        ≡ num.add base (build_trade c w.state.position price date reason).net_pnl
  unfolding build_trade cash_settlement calc_pnl borrow_cost is_short
  close-long_cash c base price w date reason ring positive goes paid =
      let p = w.state.position in
      let fill = apply_slippage price long exit c.slippage_pct in
      close-cash c w price date reason
      ∙ rw (goes, paid, positive)
          (long_trip ring base (abs p.size) p.entry_price p.entry_commission fill
            (commission (num.mul (abs p.size) fill) c.commission_pct))

  pub close-short_cash :
      (c : ExecutionConfig F) (base price : F) (w : World F) (date : String) (reason : ExitReason)
      → IsRing F
      → lt nought w.state.position.size ≡ false
      → w.state.position.direction ≡ short
      → w.state.cash
        ≡ num.add base (
            num.sub
              (num.mul (abs w.state.position.size) w.state.position.entry_price)
              w.state.position.entry_commission)
      → (close c w price date reason).state.cash
        ≡ num.add base (build_trade c w.state.position price date reason).net_pnl
  unfolding build_trade cash_settlement calc_pnl
  close-short_cash c base price w date reason ring negative goes paid =
      let p = w.state.position in
      let fill = apply_slippage price short exit c.slippage_pct in
      close-cash c w price date reason
      ∙ rw (goes, paid, negative)
          (short_trip ring base (abs p.size) p.entry_price p.entry_commission fill
            (commission (num.mul (abs p.size) fill) c.commission_pct) _)

  -- A position of a positive size that is opened long or short, held while the cash changes by `drift`,
  -- and closed, leaves the cash that there was before it, with the drift and the net profit of its
  -- trade, whatever prices, commissions, slippage and borrowing costs it met. (The trade's net profit
  -- before it is rounded for the record; arithmetic without rounding.)
  close-open_position-cash :
      (c : ExecutionConfig F) (before opened held : World F) (e : PendingEntry F)
      (size raw fill drift price : F) (date later : String) (reason : ExitReason)
      → IsRing F
      → lt nought size ≡ true
      → lt nought (neg size) ≡ false
      → abs size ≡ size
      → abs (neg size) ≡ size
      → (e.direction ≡ long) ⊎ (e.direction ≡ short)
      → open_position c before e size raw fill date ≡ ok opened
      → SameHolding opened.state.position held.state.position
      → held.state.cash ≡ num.add opened.state.cash drift
      → (close c held price later reason).state.cash
        ≡ num.add
            (num.add before.state.cash drift)
            (build_trade c held.state.position price later reason).net_pnl
  close-open_position-cash c before opened held e size raw fill drift price date later reason ring
        positive negative own own_short (inl goes) ran same paid =
      let (size_is, entry, direction, fee, cash) =
        open_position-long c before e size raw fill date goes ran in
      let held_size = same.size ∙ size_is in
      close-long_cash c (num.add before.state.cash drift) price held later reason ring
        (rw held_size positive) (same.direction ∙ direction)
        (rw (held_size, same.entry_price ∙ entry, same.commission ∙ fee, own)
          (paid ∙ ap (λ x. num.add x drift) cash ∙ add-sub ring before.state.cash _ drift))
  close-open_position-cash c before opened held e size raw fill drift price date later reason ring
        positive negative own own_short (inr goes) ran same paid =
      let (size_is, entry, direction, fee, cash) =
        open_position-short c before e size raw fill date goes ran in
      let held_size = same.size ∙ size_is in
      close-short_cash c (num.add before.state.cash drift) price held later reason ring
        (rw held_size negative) (same.direction ∙ direction)
        (rw (held_size, same.entry_price ∙ entry, same.commission ∙ fee, own_short)
          (paid ∙ ap (λ x. num.add x drift) cash ∙ add-add ring before.state.cash _ drift))
