-- ===== src/Render/Host.antt =====
-- Host of src/core/core.impl/MGDFHostImpl.cpp, as the render thread uses it: what it has of the device, and
-- which callbacks it passes on to the module. A module that refuses a callback ends the process; the model
-- follows the runs in which it refuses none.
use mgdf.Prelude.{ℕ, ◌+◌, Bool, true, false, List, [], ◌∷◌, ◌++◌, if◌then◌else◌}

-- The calls of the render thread.
pub data Callback : Type 0 where
  before_first_draw set_devices before_back_buffer_change back_buffer_change : Callback
  before_device_reset device_reset draw after_present shut_down : Callback

-- A callback of the module, with what the host has of the device and the back buffer at that time.
pub record ModuleCall : Type 0 where
  pub callback : Callback
  pub device : Bool
  pub back_buffer : Bool

-- `device` is `_d3dDevice` or `_d3d12Device`, and `back_buffer` what is known of the back buffer
-- (`_backBufferInfo`, and with Direct3D 11 `_backBuffer`).
pub record Host : Type 0 where
  pub has_module : Bool
  pub device : Bool
  pub back_buffer : Bool
  pub rendered_frames : ℕ
  pub calls : List ModuleCall

abbrev pub new_host : Host
new_host = record {
  has_module = false;
  device = false;
  back_buffer = false;
  rendered_frames = 0;
  calls = [];
}

-- `STCreateModule`.
unfoldable pub create_module : Host → Host
create_module h = record h { has_module = true }

unfoldable pub forward : Callback → Host → Host
forward c h =
    let call : ModuleCall = record {
      callback = c;
      device = h.device;
      back_buffer = h.back_buffer;
    } in
    if h.has_module then record h { calls = h.calls ++ call ∷ [] } else h

-- The methods of the same names, which start with RT in the source.
unfoldable pub receive : Callback → Host → Host
unfolding forward
receive before_first_draw h = forward before_first_draw h
receive set_devices h = record h { device = true }
receive before_back_buffer_change h =
    forward before_back_buffer_change (record h { back_buffer = false })
receive back_buffer_change h = forward back_buffer_change (record h { back_buffer = true })
receive before_device_reset h = record (forward before_device_reset h) { device = false }
receive device_reset h = forward device_reset h
receive draw h = forward draw h
receive after_present h =
    forward after_present (record h { rendered_frames = h.rendered_frames + 1 })
receive shut_down h = record (forward shut_down h) { back_buffer = false; device = false }
