-- ===== src/Render.antt =====
-- Rendering: the window messages, the render thread and its devices of src/core/MGDFD3DAppFramework.cpp, the
-- frames and adapters of src/core/MGDFD3D12RenderBackend.cpp, and the display modes of src/core/MGDFApp.cpp.
pub mod Window
pub mod Host
pub mod Devices
pub mod Rounds
pub mod Frames
pub mod Adapters
pub mod Displays
