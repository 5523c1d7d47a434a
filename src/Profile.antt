-- ===== src/Profile.antt =====
-- The volume profiles of finbar_strategy_runtime: the batch computation
-- (domain/services/volume_profile.py, _profile_utils.py) and the streaming state
-- (indicators/streaming/incremental_session_vp_state.py).
pub mod Numpy
pub mod Area
pub mod Session
pub mod Streaming
pub mod Sample
mod Tests
pub mod Rolling
