-- ===== src/Lib.antt =====
-- A model of the core of MGDF, the Moo Game Development Framework, and theorems about it.
--
-- MGDF's core (src/core) is the library that a game runs on. The modules here are those parts of it that
-- keep state and make decisions, each translated from its C++ source:
--   Network: the HTTP client, the HTTP server and the websockets of src/core/network/impl, and the
--     websocket of src/core/core.impl/MGDFNetworkImpl.cpp. Network.Pending is HttpClientPendingRequest,
--     Network.Manager the poll thread of NetworkManagerComponent with its queue, Network.Headers the
--     header lines that client and server exchange, Network.Encoding their bodies, Network.Zlib the
--     compression of MGDFResources.cpp in src/core/common,
--     Network.Responses a request to the server, Network.Frames the websocket frames, Network.WebSocket
--     the websocket client with its pump, and Network.Inbox the messages that a game reads.
--   RenderSettings: RenderSettingsManager and PendingRenderSettingsChange of
--     src/core/core.impl/MGDFRenderSettingsManagerImpl.cpp, with child modules for a change, the device,
--     the display modes, the swap chain and the preferences.
--   Streamline: the state of src/core/core.impl/MGDFStreamline.cpp, with its frame calls and upscaling.
--     What it supports is what RenderSettings clamps its settings to.
--   Audio: the source pool, the sounds, the shared buffers and the priorities of src/core/audio/openal;
--     Audio.Streams is VorbisStream with the count of its decoder library, Audio.Streams.Decoder the
--     decoding of a buffer. It takes its source from the pool of Audio.Sources.
--   Timers: the moving averages and the query pools of src/core/core.impl/MGDFTimer.cpp (Timers.Samples,
--     Timers.Queries), and the query heaps of MGDFD3D12Timer.cpp (Timers.Frames).
--   Input: the raw input and the simulation's view of it, of src/core/input/xinput, and the button
--     presses of a gamepad (Input.Gamepads).
--   Saves: PendingSave, GameState and SaveManager of src/core/core.impl/MGDFSaveManagerImpl.cpp.
--   Metrics: the tag keys and the values of src/core/core.impl/MGDFMetrics.hpp and MGDFMetrics.cpp.
--   Archive: the tree of a zip archive of src/core/vfs/archive/zip/ZipArchiveHandlerImpl.cpp, and the
--     reading of its files (Archive.Reader, of ZipFileImpl.cpp beside it).
--   Statistics: StatisticsManager of src/core/core.impl/MGDFStatisticsManagerImpl.cpp, with its flush
--     thread; its statistics carry the values of Metrics.
--   Parameters: ParameterManager of src/core/common/MGDFParameterManager.cpp.
--   Version: VersionHelper of src/core/common/MGDFVersionHelper.cpp.
--   Render: the render thread. Render.Window is the window's messages and the queue of display changes,
--     Render.Devices the set-up and renewal of a device and Render.Rounds the loop of the thread, all of
--     src/core/MGDFD3DAppFramework.cpp; Render.Host the callbacks to the module that
--     src/core/core.impl/MGDFHostImpl.cpp passes on, which the former call; Render.Frames the frames of
--     src/core/MGDFD3D12RenderBackend.cpp, with the counters of Timers.Frames, Render.Adapters its choice
--     of an adapter, and Render.Displays the display modes that src/core/MGDFApp.cpp merges for
--     RenderSettings.
--   Tests: the properties applied to concrete values. Prelude: the names that all of them share.
--
-- Conventions. A class is a record of its members, and a method a function from the record to the record
-- and its result; the name is the method's, in lower case. An HRESULT or BOOL that reports a failure is
-- `none`, `false` or a constructor of a result type. Text is the list of its bytes. Unsigned members are
-- natural numbers, with the wrap-around written out where the code subtracts or counts (2 ^ 32 for
-- UINT32, 2 ^ 64 for size_t). What curl, civetweb, zlib, OpenAL, Direct3D, Streamline and the file system
-- answer is an argument, so that the theorems hold whatever they answer; where the code relies on
-- documented behaviour, that is a hypothesis (Zlib in Network.Zlib, the fresh ids of Audio.Buffers).
-- A loop that asks curl or the decoder until it has nothing more runs over the list of the answers.
-- A callback is observed by the list of what it was called with. Objects that are shared by pointer are
-- numbers with a store. Threads are steps in any order (Step in Network.Manager): each step is what the
-- code does under one lock.
--
-- Bounds and fuel. Loops are recursion on the list they run over, or on the number of rounds: the probe
-- of the multisample levels runs 31 rounds, as many as its loop has. The decimal digits of a number are
-- taken on fuel; the number itself is enough, which reading the digits back shows. The tags of a metric's
-- key are read on fuel, the length of the key, which is more than there are tags. The loop that puts a
-- buffer's channels in order runs on as much fuel as there are samples, of which each round takes six; and
-- that which resolves the queries of a frame on as much as there are pending samples, of which each round
-- takes one at least. The flags of a command line are read on fuel, one more than its characters. A lost
-- device is set up again in at most six attempts, as in the source. A file of an archive is copied in one
-- round for each buffer that it fills and two more.
--
-- Not modelled: the Direct3D 11 backend, and what the Direct3D 12 backend makes besides its frames; raw
-- input and the closing of the window; the callbacks of the simulation thread; the files of the disk, the
-- storage of preferences, parameters from the environment, the frame limiter and the clock, the search for
-- gamepads and their dead zones, logging but for the division in what LoadPreferences logs, and the tools
-- and sample modules. The gain and position of sounds, the position of the mouse, the contents of frame
-- constants, and the messages that are logged are left out of the modelled parts; what code outside of the
-- repository does (the Vorbis decoder, curl, Direct3D) is an argument.
pub mod Prelude
pub mod Network
pub mod RenderSettings
pub mod Streamline
pub mod Audio
pub mod Timers
pub mod Input
pub mod Saves
pub mod Archive
pub mod Version
pub mod Metrics
pub mod Tests
pub mod Parameters
pub mod Statistics
pub mod Render
