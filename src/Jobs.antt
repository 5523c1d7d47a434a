-- ===== src/Jobs.antt =====
-- The in-memory job managers (finbar/infrastructure/services/*_job_manager.py).
pub mod Store
pub mod Dict
pub mod Eviction
pub mod Expiry
pub mod Fetch
pub mod Optimization
pub mod Indicator
mod Tests
mod IndicatorTests
