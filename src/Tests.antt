-- ===== src/Tests.antt =====
-- The properties applied to concrete values, one module for each part of the program.
pub mod Network
pub mod RenderSettings
pub mod Streamline
pub mod Audio
pub mod Saves
pub mod Version
pub mod Metrics
pub mod Archive
pub mod Sockets
pub mod Streams
pub mod Timers
pub mod Input
pub mod Parameters
pub mod Statistics
pub mod Render
