-- ===== src/Strategy.antt =====
-- JSON strategies: their conditions, their evaluation on a bar and their JSON form
-- (packages/strategy-runtime/finbar_strategy_runtime/{evaluation,parser}/).
pub mod Values
pub mod Evaluator
pub mod Risk
pub mod Rules
pub mod Parser
pub mod Serializer
pub mod Parameters
pub mod Columns
pub mod Backtest
pub mod Sample
mod Tests
mod ParserTests
mod ParameterTests
