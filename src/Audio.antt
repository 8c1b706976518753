-- ===== src/Audio.antt =====
-- The sound system of src/core/audio/openal: the pool of OpenAL sources, the sounds that hold them, and
-- the shared buffers.
pub mod Sources
pub mod Buffers
pub mod Sounds
pub mod Priorities
pub mod Streams
