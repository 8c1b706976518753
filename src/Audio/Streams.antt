-- ===== src/Audio/Streams.antt =====
-- VorbisStream of src/core/audio/openal/VorbisStream.cpp: how a stream is set up, played, refilled and
-- taken down, and the count of streams that use the decoder's library. The answers of the library, of
-- the file and of OpenAL are arguments.
pub mod Decoder
pub mod Stopping
pub mod Takedown
pub mod References
use mgdf.Audio.Sources.{Sources, acquire, release}
use mgdf.Audio.Streams.Decoder.{decode_ogg}
use mgdf.Prelude.Int.{ℤ, pos, negsuc, ltb_ℤ, eq_ℤ}
use mgdf.Prelude.{
  ℕ, zero, suc, ◌+◌, ◌-◌, ◌*◌, ◌/◌, ◌%◌, ◌^◌, ◌≤◌, ◌<◌, min, max, ◌≡◌, refl, sym, ap, ◌∙◌, ◌≢◌, ◌↔◌,
  ◌⊎◌, inl, inr, Bool, true, false, not, ◌&&◌, ◌||◌, Option, none, some, List, [], ◌∷◌, ◌++◌, map,
  append-nil, append_assoc, arith, ltb, leb, ◌==◌, if◌then◌else◌, ltb→lt, lt→ltb, ==_iff, ==_refl,
  Bool-cases, Option-cases, length, get_elem?, take, drop, keep, any, all, null, length-append,
  length-take, length-drop, length-keep-le, keep-append, Text, codes, same_text, same_text_refl,
  same_text→eq, same_text_ne, find, insert, assign, find-insert, find-assign,
}

-- `_references`, whether `_vorbisInstance` is set, and whether the decoder was called without it.
pub record Library : Type 0 where
  pub references : ℤ
  pub loaded : Bool
  pub stray_call : Bool

abbrev incr : ℤ → ℤ
incr (pos n) = pos (suc n)
incr (negsuc zero) = pos 0
incr (negsuc (suc n)) = negsuc n

abbrev decr : ℤ → ℤ
decr (pos zero) = negsuc 0
decr (pos (suc n)) = pos n
decr (negsuc n) = negsuc (suc n)

-- What LoadLibrary and GetProcAddress give: no library, one that lacks a function, or all of it.
pub data Loading : Type 0 where
  missing incomplete whole : Loading

init_vorbis : Loading → Library → Library × Bool
init_vorbis result l =
    if ltb_ℤ (pos 0) l.references
    then (record l { references = incr l.references }, true)
    else elim result [
      | missing ↦ (record l { loaded = false }, false)
      | incomplete ↦ (record l { loaded = true }, false)
      | whole ↦ (record l { references = incr l.references; loaded = true }, true)
    ]

uninit_vorbis : Library → Library
uninit_vorbis l =
    let n = decr l.references in
    record l { references = n; loaded = if eq_ℤ n (pos 0) then false else l.loaded }

-- A call of one of the decoder's functions.
call_decoder : Library → Library
call_decoder l = if l.loaded then l else record l { stray_call = true }

pub data StreamState : Type 0 where
  not_started playing paused stopped : StreamState

pub record Stream : Type 0 where
  pub init_level : ℕ
  pub state : StreamState
  pub frequency : ℕ
  pub channels : ℕ
  pub format : ℕ
  pub buffer_size : ℕ
  pub source : ℕ
  -- The buffers that the source has, by their place in `_buffers`, and what the decoder will read.
  pub queued : List ℕ
  pub reads : List ℕ

-- The library's counters and the pool of sources, which all streams share.
pub record System : Type 0 where
  pub library : Library
  pub sources : Sources

-- OpenAL's codes; those of `alGetEnumValue` are among the answers.
abbrev al_format_mono16 : ℕ
al_format_mono16 = 0x1101

abbrev al_format_stereo16 : ℕ
al_format_stereo16 = 0x1103

pub record Answers : Type 0 where
  pub loading : Loading
  pub opens : Bool
  pub decodes : Bool
  pub info : Option (ℕ × ℕ)
  pub quad16 : ℕ
  pub chn16_51 : ℕ
  pub reads : List ℕ

-- A quarter of a second, cut to whole blocks, in an `unsigned long` of 32 bits.
unfoldable pub buffer_size_of : ℕ → ℕ → ℕ
buffer_size_of rate channels =
    let half = rate / 2 in
    let twice = rate * 2 % 2 ^ 32 in
    let thrice = rate * 3 % 2 ^ 32 in
    if channels == 1
    then half - half % 2
    else if channels == 2
    then rate - rate % 4
    else if channels == 4
    then twice - twice % 8
    else if channels == 6
    then thrice - thrice % 12
    else 0

pub format_of : Answers → ℕ → ℕ
format_of a channels =
    if channels == 1
    then al_format_mono16
    else if channels == 2
    then al_format_stereo16
    else if channels == 4
    then a.quad16
    else if channels == 6
    then a.chn16_51
    else 0

-- `UninitStream`.
uninit_stream : System → Stream → System × Stream
unfolding call_decoder
uninit_stream w s =
    let sources = if s.init_level == 5 then release s.source w.sources else w.sources in
    let library = if leb 2 s.init_level then call_decoder w.library else w.library in
    (
      record { library = library; sources = sources },
      record s { init_level = 0; queued = if leb 4 s.init_level then [] else s.queued },
    )

-- An error after the library was counted: the count is taken back, then the stream is taken down.
give_up : System → Stream → System × Stream × Bool
unfolding uninit_vorbis uninit_stream
give_up w s =
    let (w', s') = uninit_stream (record w { library = uninit_vorbis w.library }) s in
    (w', s', false)

-- The loop that fills the buffers from the `i`th on.
fill : ℕ → ℕ → Stream → Stream
fill zero i s = s
fill (suc n) i s =
    let (bytes, rest) = decode_ogg s.buffer_size s.reads in
    fill n (i + 1)
      (record s { reads = rest; queued = if bytes == 0 then s.queued else s.queued ++ i ∷ [] })

-- The end of `InitStream`, from `AcquireSource` on.
with_source : Option (ℕ × Sources) → System → Stream → System × Stream × Bool
unfolding give_up fill
with_source none w s = give_up w s
with_source (some (source, sources)) w s =
    (record w { sources = sources }, fill 4 0 (record s { init_level = 5; source = source }), true)

with_info : Answers → Option (ℕ × ℕ) → Stream → Stream
with_info a none s = s
with_info a (some (rate, channels)) s = record s {
  frequency = rate;
  channels = channels;
  format = format_of a channels;
  buffer_size = buffer_size_of rate channels;
}

-- `InitStream` after the library was counted.
set_up : Answers → System → Stream → System × Stream × Bool
unfolding uninit_vorbis give_up with_source with_info call_decoder
set_up a w s =
    let w' = record w { library = call_decoder w.library } in
    let t = with_info a a.info (record s { init_level = 2 }) in
    if not a.opens
    then (record w { library = uninit_vorbis w.library }, s, false)
    else if not a.decodes
    then give_up w' (record s { init_level = 1 })
    else if t.format == 0
    then give_up w' t
    else with_source (acquire w.sources) w' (record t { init_level = 4 })

-- `InitStream`; the result is success.
init_stream : Answers → System → Stream → System × Stream × Bool
unfolding init_vorbis set_up
init_stream a w s =
    let fresh = record s {
      init_level = 0;
      state = not_started;
      frequency = 0;
      format = 0;
      channels = 0;
      reads = a.reads;
    } in
    let (library, counted) = init_vorbis a.loading w.library in
    let w' = record w { library = library } in
    if counted then set_up a w' fresh else (w', fresh, false)

-- The destructor.
destroy : System → Stream → System × Stream
unfolding uninit_vorbis uninit_stream
destroy w s = uninit_stream (record w { library = uninit_vorbis w.library }) s

abbrev new_stream : Stream
new_stream = record {
  init_level = 0;
  state = not_started;
  frequency = 0;
  channels = 0;
  format = 0;
  buffer_size = 0;
  source = 0;
  queued = [];
  reads = [];
}

-- `TryCreate`: a stream that cannot be set up is destroyed at once.
unfoldable pub try_create : Answers → System → System × Option Stream
unfolding init_stream destroy
try_create a w =
    let (w', s, ok) = init_stream a w new_stream in
    if ok then (w', some s) else ((destroy w' s).0, none)

started : System × Stream × Bool → System × Stream × Bool
started (w, s, true) = (w, record s { state = playing }, true)
started (w, s, false) = (w, s, false)

-- `Play`; a stream that was stopped is set up again.
play : Answers → System → Stream → System × Stream × Bool
unfolding init_stream uninit_stream started
play a w s =
    let (w', s') = uninit_stream w s in
    elim s.state [
      | stopped ↦ started (init_stream a w' s')
      | _ ↦ (w, record s { state = playing }, true)
    ]

pause : Stream → Stream
pause s = elim s.state [ playing ↦ record s { state = paused } | _ ↦ s ]

stop : Stream → Stream
stop s = record s { state = stopped }

-- The loop of `Update` over the buffers that were processed: each is filled again and queued, if the
-- decoder gives anything.
requeue : ℕ → List ℕ → Stream → Stream
requeue bytes [] s = s
requeue bytes (b ∷ bs) s = record s { queued = if bytes == 0 then bs else bs ++ b ∷ [] }

refill : ℕ → Stream → Stream
unfolding requeue
refill zero s = s
refill (suc n) s =
    let (bytes, rest) = decode_ogg s.buffer_size s.reads in
    refill n (requeue bytes s.queued (record s { reads = rest }))

-- `Update`, on the number of processed buffers and whether OpenAL plays the source after them.
update : ℕ → Bool → System → Stream → System × Stream
unfolding refill call_decoder
update processed is_playing w s =
    let t = refill processed s in
    let u = if not is_playing && null t.queued then record t { state = stopped } else t in
    let library = if processed == 0 then w.library else call_decoder w.library in
    elim s.state [ paused ↦ (w, s) | stopped ↦ (w, s) | _ ↦ (record w { library = library }, u) ]

-- What a game and the mixer may call on a stream, with the answers.
pub data Call : Type 0 where
  plays : Answers → Call
  pauses stops : Call
  updates : ℕ → Bool → Call

call : Call → System × Stream → System × Stream
unfolding play pause stop update
call (plays a) (w, s) = let (w', s', ok) = play a w s in (w', s')
call pauses (w, s) = (w, pause s)
call stops (w, s) = (w, stop s)
call (updates processed is_playing) (w, s) = update processed is_playing w s

call_all : List Call → System × Stream → System × Stream
unfolding call
call_all [] r = r
call_all (c ∷ cs) r = call_all cs (call c r)
