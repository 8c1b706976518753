-- ===== src/Timers.antt =====
-- The performance counters of src/core/core.impl/MGDFTimer.cpp, with the GPU queries of Direct3D 11, and
-- those of Direct3D 12 in src/core/core.impl/MGDFD3D12Timer.cpp.
pub mod Samples
pub mod Queries
pub mod Frames
