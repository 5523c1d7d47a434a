-- ===== src/Simulation/Types.antt =====
-- The data of the simulator
-- (packages/strategy-runtime/finbar_strategy_runtime/simulation/*.py, one record to a class).
use finbar.Common.{ℕ, String, Bool, Option, none, List, [], ◌∷◌, ◌++◌, Result}
use finbar.Simulation.Number.{Number, nought}

-- A direction string. `other` is any text but "long" and "short".
pub data Direction : Type 0 where
  long : Direction
  short : Direction
  other : String → Direction

pub data Side : Type 0 where
  entry : Side
  exit : Side

pub data RiskMode : Type 0 where
  fixed_equity_risk : RiskMode
  leverage_scaled_risk : RiskMode

pub data MarginMode : Type 0 where
  simplified : MarginMode
  full : MarginMode

pub data RiskPriceBasis : Type 0 where
  signal_close : RiskPriceBasis
  entry_fill : RiskPriceBasis

pub data BorrowTimeBasis : Type 0 where
  calendar_day : BorrowTimeBasis
  timestamp_delta : BorrowTimeBasis

-- The reason strings that the executor and the bar loop pass.
pub data ExitReason : Type 0 where
  stop_loss_gap : ExitReason
  take_profit_gap : ExitReason
  stop_loss : ExitReason
  take_profit : ExitReason
  liquidation : ExitReason
  margin_call : ExitReason
  signal_exit_next_open : ExitReason
  end_of_backtest : ExitReason

-- The `ValueError`s of `LeverageConfig`.
pub data Error : Type 0 where
  unknown_direction : String → Error
  bad_multiplier : Error

abbrev pub Fallible : Type 0 → Type 0
Fallible A = Result Error A

pub record ExecutionConfig (F : Type 0) : Type 0 where
  pub commission_pct : F
  pub slippage_pct : F
  pub leverage_multiplier : F
  pub risk_mode : RiskMode
  pub cap_explicit_size : Bool
  pub reject_oversized_explicit_orders : Bool
  pub allow_negative_cash : Bool
  pub borrow_fee_annual_pct : F
  pub margin_mode : MarginMode
  pub maintenance_margin_pct : F
  pub enable_funding : Bool
  pub funding_rate : F
  pub risk_price_basis : RiskPriceBasis
  pub borrow_time_basis : BorrowTimeBasis

pub record SimulatedPosition (F : Type 0) : Type 0 where
  pub size : F
  pub direction : Direction
  pub entry_price : F
  pub entry_date : String
  pub stop_price : F
  pub target_price : F
  pub liquidation_price : F
  pub bars_held : ℕ
  pub entry_commission : F
  pub entry_slippage : F

pub record PendingEntry (F : Type 0) : Type 0 where
  pub direction : Direction
  pub stop_price : F
  pub target_price : F
  pub position_size : ℕ
  pub explicit_size : Bool
  pub risk_per_trade : F
  pub signal_close : F

pub record PendingExit (F : Type 0) : Type 0 where
  pub direction : Direction
  pub confidence : F

-- The message text, which formats the numbers of `metadata`, is left out.
pub record BacktestDiagnostic (F : Type 0) : Type 0 where
  pub severity : String
  pub code : String
  pub date : String
  pub metadata : List (String × F)

-- A trade; the state keeps it as `TradeRecord.to_dict` rounds it.
pub record TradeRecord (F : Type 0) : Type 0 where
  pub entry_date : String
  pub exit_date : String
  pub entry_price : F
  pub exit_price : F
  pub size : F
  pub gross_pnl : F
  pub net_pnl : F
  pub entry_commission : F
  pub exit_commission : F
  pub borrow_cost : F
  pub total_commission : F
  pub pnl_pct : F
  pub duration_bars : ℕ
  pub direction : Direction
  pub exit_reason : ExitReason

pub record EquityPoint (F : Type 0) : Type 0 where
  pub date : String
  pub close : F
  pub value : F
  pub drawdown : F
  pub position : F

pub record SimulationState (F : Type 0) : Type 0 where
  pub initial_cash : F
  pub cash : F
  pub position : SimulatedPosition F
  pub trades : List (TradeRecord F)
  pub equity_curve : List (EquityPoint F)
  pub pending_entry : Option (PendingEntry F)
  pub pending_exit : Option (PendingExit F)
  pub peak_value : F
  pub total_commission : F
  pub total_slippage : F
  pub used_margin : F
  pub diagnostics : List (BacktestDiagnostic F)
  pub total_borrow_cost : F
  pub total_funding : F

pub record MarginAccount (F : Type 0) : Type 0 where
  pub cash : F
  pub margin_book : F
  pub unrealized_pnl : F
  pub total_borrow_cost : F
  pub total_funding_paid : F

-- What one run mutates: the loop state, and the margin account of the executor if there is one.
pub record World (F : Type 0) : Type 0 where
  pub state : SimulationState F
  pub margin : Option (MarginAccount F)

module _ {F : Type 0} ⦃num : Number F⦄ where
  -- `SimulatedPosition()`, which is also what `reset` leaves.
  unfoldable pub flat : SimulatedPosition F
  flat = record {
    size = nought;
    direction = other "";
    entry_price = nought;
    entry_date = "";
    stop_price = nought;
    target_price = nought;
    liquidation_price = nought;
    bars_held = 0;
    entry_commission = nought;
    entry_slippage = nought;
  }

  -- `SimulationState(initial_cash)`
  unfoldable pub initial_state : F → SimulationState F
  initial_state initial_cash = record {
    initial_cash = initial_cash;
    cash = initial_cash;
    position = flat;
    trades = [];
    equity_curve = [];
    pending_entry = none;
    pending_exit = none;
    peak_value = initial_cash;
    total_commission = nought;
    total_slippage = nought;
    used_margin = nought;
    diagnostics = [];
    total_borrow_cost = nought;
    total_funding = nought;
  }

module _ {F : Type 0} where
  unfoldable pub add_diagnostic :
      SimulationState F → String → String → String → List (String × F) → SimulationState F
  add_diagnostic s severity code date metadata = record s {
    diagnostics =
        s.diagnostics
        ++ record { severity = severity; code = code; date = date; metadata = metadata } ∷ [];
  }
