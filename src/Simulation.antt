-- ===== src/Simulation.antt =====
-- The bar-by-bar backtest simulator.
pub mod Number
pub mod Types
pub mod Leverage
pub mod Exits
pub mod Holding
pub mod Costs
pub mod Margin
pub mod Closer
pub mod Sizer
pub mod Opener
pub mod Executor
pub mod Runner
pub mod Frame
pub mod MarginCall
pub mod Settlement
pub mod Metrics
pub mod Ledger
pub mod Report
pub mod ModeParity
mod MetricTests
mod ReportTests
mod WholeRing
pub mod Sample
mod Tests
mod ClosingTests
mod ExitTests
