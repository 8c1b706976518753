-- ===== src/Audio/Streams/References.antt =====
-- How the count of streams that use the decoder's library goes wrong.
use mgdf.Audio.Sources.{Sources, acquire}
use mgdf.Audio.Streams.{
  not_started, with_info, incr, decr, init_vorbis, uninit_vorbis, call_decoder, Stream, System,
  Answers, uninit_stream, give_up, with_source, set_up, init_stream, destroy, new_stream,
  try_create, started, play, stop,
}
use mgdf.Prelude.Int.{pos}
use mgdf.Prelude.{
  ℕ, suc, ◌+◌, ◌≡◌, refl, Bool, true, false, Option, none, some, List, [], ◌∷◌, arith, ◌==◌,
  if◌then◌else◌, length,
}

with_source-library :
    (r : Option (ℕ × Sources)) (w : System) (s : Stream)
    → let (w', s', ok) = with_source r w s in
      w'.library.references ≡ (if ok then w.library.references else decr w.library.references)
unfolding with_source give_up uninit_stream call_decoder uninit_vorbis
with_source-library none w s = ground arith
with_source-library (some (x, t)) w s = refl

-- Setting up takes the count back if it fails.
set_up-references :
    (a : Answers) (w : System) (s : Stream)
    → let (w', s', ok) = set_up a w s in
      w'.library.references ≡ (if ok then w.library.references else decr w.library.references)
unfolding set_up give_up uninit_stream call_decoder uninit_vorbis
set_up-references a w s =
    let t = with_info a a.info (record s { init_level = 2 }) in
    ground (
      arith,
      with_source-library (acquire w.sources) (record w { library = call_decoder w.library })
          (record t { init_level = 4 }),
    )

-- While other streams use the library, it counts as loaded for every new one.
init_stream-references :
    (a : Answers) (w : System) (s : Stream) (n : ℕ)
    → w.library.references ≡ pos (suc n)
    → let (w', s', ok) = init_stream a w s in
      w'.library.references ≡ (if ok then pos (suc (suc n)) else pos (suc n))
unfolding init_stream init_vorbis
init_stream-references a w s n e =
    let fresh = record s {
      init_level = 0;
      state = not_started;
      frequency = 0;
      format = 0;
      channels = 0;
      reads = a.reads;
    } in
    let w' = record w { library = record w.library { references = incr w.library.references } } in
    ground (arith, set_up-references a w' fresh)

destroy-library :
    (w : System) (s : Stream) → (destroy w s).0.library.references ≡ decr w.library.references
unfolding destroy uninit_stream uninit_vorbis call_decoder
destroy-library w s = ground arith

destroy-loaded :
    (w : System) (s : Stream)
    → w.library.references ≡ pos 1
    → (destroy w s).0.library.loaded ≡ false
unfolding destroy uninit_stream uninit_vorbis call_decoder
destroy-loaded w s e = ground arith

-- A stream that cannot be set up is counted out twice, once by `InitStream` and once by the destructor:
-- while n + 1 other streams use the library, n are counted afterwards; and where there was one, the
-- library is unloaded although that stream still uses it.
pub try_create_failed-references :
    (a : Answers) (w : System) (n : ℕ)
    → w.library.references ≡ pos (suc n)
    → (try_create a w).1 ≡ none
    → ((try_create a w).0.library.references ≡ pos n)
      × ((try_create a w).0.library.loaded
          ≡ (if n == 0 then false else (try_create a w).0.library.loaded))
unfolding try_create
try_create_failed-references a w n e h =
    let (w', s', ok) = init_stream a w new_stream in
    ground (
      arith,
      init_stream-references a w new_stream n e,
      destroy-library w' s',
      destroy-loaded w' s',
    )

started-library :
    (r : System × Stream × Bool) → ((started r).0.library ≡ r.0.library) × ((started r).2 ≡ r.2)
unfolding started
started-library (w, s, true) = (refl, refl)
started-library (w, s, false) = (refl, refl)

-- `Play` of a stream that was stopped counts it again, and nothing counts it out before.
play-references :
    (a : Answers) (w : System) (s : Stream) (n : ℕ)
    → w.library.references ≡ pos (suc n)
    → (play a w (stop s)).2 ≡ true
    → (play a w (stop s)).0.library.references ≡ pos (suc (suc n))
unfolding play stop uninit_stream call_decoder
play-references a w s n e h =
    let (w', s') = uninit_stream w (stop s) in
    ground (arith, started-library (init_stream a w' s'), init_stream-references a w' s' n)

-- A stream that is stopped and played again, with these answers in turn; `none` if one of these fails.
replay_all : List Answers → System → Stream → Option (System × Stream)
replay_all [] w s = some (w, s)
replay_all (a ∷ rest) w s =
    let (w', s', ok) = play a w (stop s) in
    let more = replay_all rest w' s' in if ok then more else none

replay_all-counted :
    (plays : List Answers) (w : System) (s : Stream) (n : ℕ) (v : System) (t : Stream)
    → w.library.references ≡ pos (suc n)
    → replay_all plays w s ≡ some (v, t)
    → v.library.references ≡ pos (suc (n + length plays))
unfolding replay_all
replay_all-counted [] w s n v t e h = ground arith
replay_all-counted (a ∷ rest) w s n v t e h =
    let (w', s', ok) = play a w (stop s) in
    ground (arith, play-references a w s n e, replay_all-counted rest w' s' (suc n) v t)

-- Every time that a stream is stopped and played again, it is counted once more, and the destructor takes
-- back one: of a library with n + 1 uses, n and one for each replay are left, so that it is never unloaded.
destroy-replay_all :
    (plays : List Answers) (w : System) (s : Stream) (n : ℕ) (v : System) (t : Stream)
    → w.library.references ≡ pos (suc n)
    → replay_all plays w s ≡ some (v, t)
    → (destroy v t).0.library.references ≡ pos (n + length plays)
destroy-replay_all plays w s n v t e h =
    ground (arith, destroy-library v t, replay_all-counted plays w s n v t e h)
