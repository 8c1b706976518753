-- ===== src/Streamline/Frames.antt =====
-- The frame calls of src/core/core.impl/MGDFStreamline.cpp: what is told to the plugin in a frame, and
-- when frame generation runs. The latency markers and pings are not modelled.
use mgdf.RenderSettings.{LowLatencyMode}
use mgdf.Streamline.{
  State, ReflexMode, reflex_off, low_latency, same_reflex, to_reflex_mode, dlssg_off, dlssg_on,
  is_off, is_on,
}
use mgdf.Prelude.{
  ℕ, ◌+◌, ◌-◌, ◌%◌, ◌^◌, min, Bool, true, false, not, ◌&&◌, ◌||◌, Option, none, some, List, [], ◌∷◌,
  ltb, ◌==◌, if◌then◌else◌,
}

abbrev pub has_token : State → Bool
has_token s = elim s.token [ none ↦ false | some t ↦ true ]

-- `ClearFrameGenerationTagsLocked`.
unfoldable pub clear_tags : State → State
clear_tags s =
    if not s.frame_generation_tagged || not (has_token s)
    then s
    else record s { frame_generation_tagged = false }

-- `accepted` says whether the plugin takes the options, here and below.
unfoldable pub suspend : Bool → State → State
unfolding clear_tags
suspend accepted s =
    let t = clear_tags (record s { frame_generation_suspended = true }) in
    if not s.frame_generation
    then s
    else if not (is_off t.frame_generation_mode) && accepted
    then record t { frame_generation_mode = some dlssg_off }
    else t

unfoldable pub resume : State → State
resume s = record s { frame_generation_suspended = false }

unfoldable pub sync_interval : ℕ → State → ℕ
sync_interval requested s =
    if s.frame_generation && not s.frame_generation_vsync then 0 else min requested 1

abbrev is_mode : ReflexMode → Option ReflexMode → Bool
is_mode m none = false
is_mode m (some n) = same_reflex n m

-- The mode that `RTBeginFrame` asks for.
unfoldable pub wanted_reflex : LowLatencyMode → State → ReflexMode
wanted_reflex latency s =
    let mode = if s.low_latency then to_reflex_mode latency else reflex_off in
    if s.frame_generation && same_reflex mode reflex_off then low_latency else mode

unfoldable pub set_reflex : Bool → ReflexMode → State → State
set_reflex accepted mode s =
    if s.reflex && (not (is_mode mode s.reflex_mode) && accepted)
    then record s { reflex_mode = some mode }
    else s

unfoldable pub started : Bool → LowLatencyMode → Option ℕ → State → State
unfolding set_reflex wanted_reflex
started accepted latency none s = record s { token = none }
started accepted latency (some t) s =
    set_reflex accepted (wanted_reflex latency s) (record s { token = some t })

-- `token` is what the plugin gives for the frame.
unfoldable pub begin_frame : Bool → LowLatencyMode → Option ℕ → State → State
unfolding started
begin_frame accepted latency token s =
    if not s.active
    then s
    else started accepted latency token
        (record s { constants_set = false; frame_generation_inputs = false })

-- `RTSetFrameConstants`; `given` says whether there are constants. What they are is not modelled.
unfoldable pub set_frame_constants : Bool → Bool → State → State
set_frame_constants accepted given s =
    if not given || (not (has_token s) || not s.upscale && (s.max_generated_frames == 0))
    then s
    else if s.constants_set
    then s
    else if accepted
    then record s { constants_set = true }
    else s

-- The results of the calls that have one.
pub data Result : Type 0 where
  s_ok s_false e_invalidarg e_fail e_notimpl e_illegal_method_call : Result

-- `RTSetFrameGenerationInputs`: `desc` says whether both the depth and the motion vectors are there.
unfoldable pub set_inputs : Bool → Option Bool → State → State × Result
set_inputs accepted none s =
    if not s.frame_generation || not (has_token s)
    then (s, s_false)
    else (record s { frame_generation_inputs = false }, s_ok)
set_inputs accepted (some complete) s =
    if not s.frame_generation || not (has_token s)
    then (s, s_false)
    else if not complete
    then (s, e_invalidarg)
    else if accepted
    then (record s { frame_generation_tagged = true; frame_generation_inputs = true }, s_ok)
    else (s, e_fail)

-- Whether `RTBeforePresent` runs frame generation.
abbrev pub runs : State → Bool
runs s =
    s.frame_generation_inputs
    && (s.constants_set && (not s.frame_generation_suspended && not s.frame_generation_failed))

unfoldable pub set_mode : Bool → Bool → State → State
set_mode accepted run s =
    if (if run then is_on s.frame_generation_mode else is_off s.frame_generation_mode)
    then s
    else if accepted
    then record s { frame_generation_mode = some (if run then dlssg_on else dlssg_off) }
    else s

unfoldable pub before_present : Bool → State → State
unfolding clear_tags set_mode
before_present accepted s =
    if not s.active || not (has_token s)
    then s
    else if not s.frame_generation
    then s
    else set_mode accepted (runs s) (if runs s then s else clear_tags s)

-- The first report that is complete: its start is not 0, and its end is after its start. The reports
-- are given in the order in which the loop reads them, from the last on.
find_latency : List (ℕ × ℕ) → Option ℕ
find_latency [] = none
find_latency ((start, end) ∷ rs) =
    if not (start == 0) && ltb start end then some (end - start) else find_latency rs

newer : Option ℕ → Option ℕ → Option ℕ
newer none old = old
newer (some l) old = some l

-- What the plugin answers in `RTAfterPresent`: the frames presented and whether the status is good, and
-- the latency reports.
unfoldable pub count_presented : Option (ℕ × Bool) → State → State
count_presented none s = s
count_presented (some (presented, good)) s = record s {
  presented_frames = (s.presented_frames + presented) % 2 ^ 64;
  frame_generation_failed = not good && is_on s.frame_generation_mode || s.frame_generation_failed;
}

unfoldable pub report : Option (List (ℕ × ℕ)) → State → State
unfolding newer find_latency
report none s = s
report (some reports) s =
    if s.reflex && (s.rendered_frames % 30 == 0)
    then record s { latency = newer (find_latency reports) s.latency }
    else s

unfoldable pub after_present : Option (ℕ × Bool) → Option (List (ℕ × ℕ)) → State → State
unfolding count_presented report
after_present answer reports s =
    let t = record s { rendered_frames = (s.rendered_frames + 1) % 2 ^ 64 } in
    if not s.active || not (has_token s)
    then s
    else report reports (
        if s.frame_generation
        then count_presented answer t
        else record t { presented_frames = (t.presented_frames + 1) % 2 ^ 64 })
