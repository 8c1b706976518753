-- ===== src/Streamline/Invariant.antt =====
-- What holds of a Streamline session after any sequence of calls.
use mgdf.RenderSettings.{LowLatencyMode}
use mgdf.Streamline.{
  State, reflex_off, to_reflex_mode, is_on, fresh, shutdown, Answers, rt_init, with_generation,
  features, init_features, Prepared, prepare_swap_chain, reset_generation,
}
use mgdf.Streamline.Frames.{
  has_token, clear_tags, suspend, resume, begin_frame, started, set_reflex, wanted_reflex,
  set_frame_constants, set_inputs, runs, set_mode, before_present, after_present, count_presented,
  report, sync_interval,
}
use mgdf.Streamline.Upscale.{UpscaleDesc, rt_upscale}
use mgdf.Streamline.Upscale.Results.{rt_upscale-KeepsSession}
use mgdf.Prelude.{
  ℕ, min, ◌≡◌, refl, ◌≢◌, Bool, true, false, not, ◌&&◌, ◌||◌, Option, none, some, List, [], ◌∷◌,
  arith, ltb, leb, if◌then◌else◌,
}

abbrev implies : Bool → Bool → Bool
implies a b = not a || b

-- Frame generation belongs to an active session with Reflex and a bound on the frames, which is kept;
-- inputs belong to a frame in which it is on, and so do constants to a frame; and its mode is only ever
-- "on" where frame generation is.
abbrev pub IsSound : State → Type 0
IsSound s =
    (implies s.frame_generation (s.active && (s.reflex && ltb 0 s.max_generated_frames)) ≡ true)
    × (implies s.frame_generation (leb s.generated_frames s.max_generated_frames) ≡ true)
    × (implies (ltb 0 s.max_generated_frames) s.reflex ≡ true)
    × (implies s.frame_generation_inputs (s.frame_generation && has_token s) ≡ true)
    × (implies s.constants_set (s.active && has_token s) ≡ true)
    × (implies (is_on s.frame_generation_mode) s.frame_generation ≡ true)
    × (implies (has_token s) s.active ≡ true)

-- The calls, with the plugin's answers.
pub data Call : Type 0 where
  inits : Answers → Call
  shuts_down : Call
  prepares : Prepared → ℕ → Bool → Call
  suspends : Bool → Call
  resumes : Call
  begins : Bool → LowLatencyMode → Option ℕ → Call
  sets_constants : Bool → Bool → Call
  upscales : Bool → Bool → Bool → UpscaleDesc → Call
  sets_inputs : Bool → Option Bool → Call
  presents : Bool → Call
  presented : Option (ℕ × Bool) → Option (List (ℕ × ℕ)) → Call

call : Call → State → State
call (inits a) s = rt_init a s
call shuts_down s = shutdown s
call (prepares p n scrgb) s = (prepare_swap_chain p n scrgb s).0
call (suspends accepted) s = suspend accepted s
call resumes s = resume s
call (begins accepted latency token) s = begin_frame accepted latency token s
call (sets_constants accepted given) s = set_frame_constants accepted given s
call (upscales recording accepted evaluated d) s = (rt_upscale recording accepted evaluated d s).0
call (sets_inputs accepted desc) s = (set_inputs accepted desc s).0
call (presents accepted) s = before_present accepted s
call (presented answer reports) s = after_present answer reports s

pub call_all : List Call → State → State
unfolding call
call_all [] s = s
call_all (c ∷ cs) s = call_all cs (call c s)

init-IsSound : (a : Answers) (s : State) → IsSound (rt_init a s)
unfolding rt_init with_generation features init_features
init-IsSound a s = ground arith

prepare-IsSound :
    (p : Prepared) (n : ℕ) (b : Bool) (s : State)
    → IsSound s
    → IsSound (prepare_swap_chain p n b s).0
unfolding prepare_swap_chain reset_generation
prepare-IsSound p n b s v = ground arith

suspend-IsSound : (b : Bool) (s : State) → IsSound s → IsSound (suspend b s)
unfolding suspend clear_tags
suspend-IsSound b s v = ground arith

begin-IsSound :
    (b : Bool) (l : LowLatencyMode) (t : Option ℕ) (s : State)
    → IsSound s
    → IsSound (begin_frame b l t s)
unfolding begin_frame started set_reflex
begin-IsSound b l t s v = ground arith

present-IsSound : (b : Bool) (s : State) → IsSound s → IsSound (before_present b s)
unfolding before_present clear_tags set_mode
present-IsSound b s v = ground arith

constants-IsSound : (a b : Bool) (s : State) → IsSound s → IsSound (set_frame_constants a b s)
unfolding set_frame_constants
constants-IsSound a b s v = ground arith

inputs-IsSound : (a : Bool) (d : Option Bool) (s : State) → IsSound s → IsSound (set_inputs a d s).0
unfolding set_inputs
inputs-IsSound a none s v = ground arith
inputs-IsSound a (some b) s v = ground arith

presented-IsSound :
    (a : Option (ℕ × Bool)) (r : Option (List (ℕ × ℕ))) (s : State)
    → IsSound s
    → IsSound (after_present a r s)
unfolding after_present count_presented report
presented-IsSound a none s v = ground arith
presented-IsSound a (some r) s v = ground arith

call-IsSound : (c : Call) (s : State) → IsSound s → IsSound (call c s)
unfolding call shutdown resume
call-IsSound (inits a) s v = init-IsSound a s
call-IsSound shuts_down s v = (refl, refl, refl, refl, refl, refl, refl)
call-IsSound (prepares p n b) s v = prepare-IsSound p n b s v
call-IsSound (suspends b) s v = suspend-IsSound b s v
call-IsSound resumes s v = v
call-IsSound (begins b l t) s v = begin-IsSound b l t s v
call-IsSound (sets_constants a b) s v = constants-IsSound a b s v
call-IsSound (upscales r a e d) s v = let (o, q) = rt_upscale-KeepsSession r a e d s in rw q v
call-IsSound (sets_inputs a d) s v = inputs-IsSound a d s v
call-IsSound (presents b) s v = present-IsSound b s v
call-IsSound (presented a r) s v = presented-IsSound a r s v

call_all-IsSound' : (cs : List Call) (s : State) → IsSound s → IsSound (call_all cs s)
unfolding call_all
call_all-IsSound' [] s v = v
call_all-IsSound' (c ∷ cs) s v = call_all-IsSound' cs (call c s) (call-IsSound c s v)

-- After any calls, in any order and whatever the plugin answered, the session is sound: frame generation
-- is on only in an active session with Reflex, with no more frames than the plugin generates; its inputs
-- and the constants belong to a frame; and the plugin's mode is "on" only while frame generation is on.
pub call_all-IsSound : (cs : List Call) → IsSound (call_all cs fresh)
call_all-IsSound cs = call_all-IsSound' cs fresh (refl, refl, refl, refl, refl, refl, refl)

-- A new frame starts without inputs and constants: a present that follows its start at once does not run
-- frame generation, and leaves the plugin's mode off if the plugin takes the options.
before_present-begin_frame :
    (a b : Bool) (l : LowLatencyMode) (t : Option ℕ) (s : State)
    → s.active ≡ true
    → let u = begin_frame a l t s in
      (runs u ≡ false)
      × (is_on (before_present true u).frame_generation_mode
          ≡ (is_on s.frame_generation_mode && (not s.frame_generation || not (has_token u))))
unfolding begin_frame started set_reflex before_present clear_tags set_mode
before_present-begin_frame a b l t s h = ground arith

-- While frame generation is on, Reflex does not stay off: a frame that starts with a token and whose
-- options the plugin takes has a Reflex mode other than off, and the swap chain is synchronised with at
-- most one interval, with none if VSync is not supported.
begin_frame-reflex :
    (l : LowLatencyMode) (t n : ℕ) (s : State)
    → s.active ≡ true
    → s.reflex ≡ true
    → s.frame_generation ≡ true
    → let u = begin_frame true l (some t) s in
      (u.reflex_mode ≢ some reflex_off)
      × (sync_interval n u ≡ (if s.frame_generation_vsync then min n 1 else 0))
unfolding begin_frame started set_reflex wanted_reflex to_reflex_mode sync_interval
begin_frame-reflex l t n s a r f = (ground arith, ground arith)
