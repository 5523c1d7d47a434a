-- ===== src/Simulation/Sample.antt =====
-- Whole numbers in the place of floats, to run the simulator and to meet its hypotheses.
use finbar.Common.{
  ℕ, ◌+◌, ◌/◌, refl, not, ◌&&◌, none, if◌then◌else◌, arith, ℤ, pos, to_ℕ, neg_part, neg_ℤ, ◌+ℤ◌,
  ◌-ℤ◌, ◌*ℤ◌, leb_ℤ, true, false,
}
use finbar.Simulation.Number.{Number, IsOrdered}
use finbar.Simulation.Holding.{Clock}
use finbar.Simulation.Types.{ExecutionConfig, fixed_equity_risk, full, signal_close, calendar_day}

-- Division rounds towards zero; `x / 0` is 0. `round` cuts the last digit off, so that rounding shows.
abbrev pub div_ℤ : ℤ → ℤ → ℤ
div_ℤ a b =
    let quotient : ℕ = (to_ℕ a + neg_part a) / (to_ℕ b + neg_part b) in
    if leb_ℤ (pos 0) (a *ℤ b) then pos quotient else neg_ℤ (pos quotient)

instance abbrev pub whole : Number ℤ
whole = record {
  of_nat = pos;
  thousandths = λ n. pos (n / 1000);
  add = ◌+ℤ◌;
  sub = ◌-ℤ◌;
  mul = ◌*ℤ◌;
  div = div_ℤ;
  neg = neg_ℤ;
  abs = λ a. pos (to_ℕ a + neg_part a);
  lt = λ a b. not (leb_ℤ b a);
  le = leb_ℤ;
  eq = λ a b. leb_ℤ a b && leb_ℤ b a;
  round = λ a digits. div_ℤ a (pos 10) *ℤ pos 10;
  isclose = λ a b. leb_ℤ a b && leb_ℤ b a;
}

-- A clock that can read no date.
instance abbrev pub no_clock : Clock ℤ
no_clock = record { seconds_between = λ a b. none }

pub ℤ-IsOrdered : IsOrdered ℤ
ℤ-IsOrdered = record {
  le_trans = λ x y z p q. ground arith;
  lt-eq-not-le = λ x y p q. refl;
  le_total = λ x y p q. ground arith;
}

abbrev pub config : ExecutionConfig ℤ
config = record {
  commission_pct = pos 0;
  slippage_pct = pos 0;
  leverage_multiplier = pos 1;
  risk_mode = fixed_equity_risk;
  cap_explicit_size = true;
  reject_oversized_explicit_orders = false;
  allow_negative_cash = false;
  borrow_fee_annual_pct = pos 0;
  margin_mode = full;
  maintenance_margin_pct = pos 0;
  enable_funding = true;
  funding_rate = pos 0;
  risk_price_basis = signal_close;
  borrow_time_basis = calendar_day;
}
