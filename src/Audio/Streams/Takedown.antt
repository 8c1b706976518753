-- ===== src/Audio/Streams/Takedown.antt =====
-- A stream gives back the source that it takes, wherever setting it up fails.
use mgdf.Audio.Sources.{Sources, acquire, release, release-acquire}
use mgdf.Audio.Streams.Decoder.{decode_ogg}
use mgdf.Audio.Streams.{
  init_vorbis, call_decoder, Stream, System, Answers, not_started, uninit_stream, give_up, fill,
  with_source, with_info, set_up, init_stream, destroy, new_stream, try_create, started, play,
  pause, stop, requeue, refill, update, Call, plays, pauses, stops, updates, call, call_all,
}
use mgdf.Prelude.{
  ℕ, zero, suc, ◌+◌, ◌≡◌, refl, ◌∙◌, Bool, true, false, Option, none, some, List, [], ◌∷◌, ◌++◌,
  arith, ◌==◌, if◌then◌else◌,
}

-- What is left in the pool when the stream is taken down.
abbrev left : System → Stream → Sources
left w s = if s.init_level == 5 then release s.source w.sources else w.sources

abbrev SameSource : Stream → Stream → Type 0
SameSource s t = (t.init_level ≡ s.init_level) × (t.source ≡ s.source)

fill-SameSource : (n i : ℕ) (s : Stream) → SameSource s (fill n i s)
unfolding fill
fill-SameSource zero i s = (refl, refl)
fill-SameSource (suc n) i s =
    let (bytes, rest) = decode_ogg s.buffer_size s.reads in
    fill-SameSource n (i + 1)
      (record s { reads = rest; queued = if bytes == 0 then s.queued else s.queued ++ i ∷ [] })

requeue-SameSource : (bytes : ℕ) (q : List ℕ) (s : Stream) → SameSource s (requeue bytes q s)
unfolding requeue
requeue-SameSource bytes [] s = (refl, refl)
requeue-SameSource bytes (b ∷ bs) s = (refl, refl)

refill-SameSource : (n : ℕ) (s : Stream) → SameSource s (refill n s)
unfolding refill
refill-SameSource zero s = (refl, refl)
refill-SameSource (suc n) s =
    let (bytes, rest) = decode_ogg s.buffer_size s.reads in
    let t = record s { reads = rest } in
    ground
      (arith, requeue-SameSource bytes s.queued t, refill-SameSource n (requeue bytes s.queued t))

module _ (pool : Sources) where
  with_source-left :
      (r : Option (ℕ × Sources)) (w : System) (s : Stream)
      → acquire pool ≡ r
      → w.sources ≡ pool
      → s.init_level ≡ 4
      → left (with_source r w s).0 (with_source r w s).1 ≡ pool
  unfolding with_source give_up uninit_stream
  with_source-left none w s h e l = ground arith
  with_source-left (some (x, t)) w s h e l = ground (
    arith,
    fill-SameSource 4 0 (record s { init_level = 5; source = x }),
    release-acquire pool t x h,
  )

  with_info-level :
      (a : Answers) (i : Option (ℕ × ℕ)) (s : Stream) → (with_info a i s).init_level ≡ s.init_level
  unfolding with_info
  with_info-level a none s = refl
  with_info-level a (some (r, c)) s = refl

  set_up-left :
      (a : Answers) (w : System) (s : Stream)
      → w.sources ≡ pool
      → s.init_level ≡ 0
      → left (set_up a w s).0 (set_up a w s).1 ≡ pool
  unfolding set_up give_up uninit_stream
  set_up-left a w s e l =
      let t = with_info a a.info (record s { init_level = 2 }) in
      let w' = record w { library = call_decoder w.library } in
      ground (
        arith,
        with_source-left (acquire w.sources) w' (record t { init_level = 4 }) (rw e refl) e refl,
        with_info-level a a.info (record s { init_level = 2 }),
      )

  init_stream-left :
      (a : Answers) (w : System) (s : Stream)
      → w.sources ≡ pool
      → left (init_stream a w s).0 (init_stream a w s).1 ≡ pool
  unfolding init_stream
  init_stream-left a w s e =
      let (library, counted) = init_vorbis a.loading w.library in
      let fresh = record s {
        init_level = 0;
        state = not_started;
        frequency = 0;
        format = 0;
        channels = 0;
        reads = a.reads;
      } in
      ground (arith, set_up-left a (record w { library = library }) fresh e refl)

  uninit_stream-sources : (w : System) (s : Stream) → (uninit_stream w s).0.sources ≡ left w s
  unfolding uninit_stream
  uninit_stream-sources w s = refl

  started-left :
      (r : System × Stream × Bool) → left r.0 r.1 ≡ pool → left (started r).0 (started r).1 ≡ pool
  unfolding started
  started-left (w, s, true) e = e
  started-left (w, s, false) e = e

  play-left :
      (a : Answers) (w : System) (s : Stream)
      → left w s ≡ pool
      → left (play a w s).0 (play a w s).1 ≡ pool
  unfolding play
  play-left a w s e =
      let r = uninit_stream w s in
      ground (
        arith,
        started-left (init_stream a r.0 r.1)
            (init_stream-left a r.0 r.1 (uninit_stream-sources w s ∙ e)),
      )

  call-left :
      (c : Call) (w : System) (s : Stream)
      → left w s ≡ pool
      → left (call c (w, s)).0 (call c (w, s)).1 ≡ pool
  unfolding call pause stop update
  call-left (plays a) w s e = play-left a w s e
  call-left pauses w s e = ground arith
  call-left stops w s e = e
  call-left (updates n b) w s e = ground (arith, refill-SameSource n s)

  all-left :
      (cs : List Call) (w : System) (s : Stream)
      → left w s ≡ pool
      → left (call_all cs (w, s)).0 (call_all cs (w, s)).1 ≡ pool
  unfolding call_all
  all-left [] w s e = e
  all-left (c ∷ cs) w s e = all-left cs (call c (w, s)).0 (call c (w, s)).1 (call-left c w s e)

  try_create-left :
      (a : Answers) (w : System) (s : Stream)
      → w.sources ≡ pool
      → (try_create a w).1 ≡ some s
      → left (try_create a w).0 s ≡ pool
  unfolding try_create
  try_create-left a w s e h =
      let (w', s', ok) = init_stream a w new_stream in
      ground (arith, init_stream-left a w new_stream)

  try_create_failed :
      (a : Answers) (w : System)
      → w.sources ≡ pool
      → (try_create a w).1 ≡ none
      → (try_create a w).0.sources ≡ pool
  unfolding try_create destroy uninit_stream
  try_create_failed a w e h =
      let (w', s', ok) = init_stream a w new_stream in
      ground (arith, init_stream-left a w new_stream)

lived : List Call → System → Option Stream → System
lived cs w none = w
lived cs w (some s) = let (w', s') = call_all cs (w, s) in (destroy w' s').0

-- The life of a stream: its creation, some calls if that went well, and its end.
pub live : Answers → List Call → System → System
unfolding lived
live a cs w = let (w', r) = try_create a w in lived cs w' r

lived-sources :
    (r : Option Stream) (a : Answers) (w : System) (cs : List Call)
    → (try_create a w).1 ≡ r
    → (lived cs (try_create a w).0 r).sources ≡ w.sources
unfolding lived destroy uninit_stream
lived-sources none a w cs h = try_create_failed w.sources a w refl h
lived-sources (some s) a w cs h =
    all-left w.sources cs (try_create a w).0 s (try_create-left w.sources a w s refl h)

-- The pool of sources is as it was when a stream is gone: after its creation failed, for whatever reason;
-- and after it was created, played, paused, stopped and updated in any order, with whatever answers, also
-- where setting it up again failed, and then destroyed.
pub live-sources : (a : Answers) (cs : List Call) (w : System) → (live a cs w).sources ≡ w.sources
unfolding live
live-sources a cs w = lived-sources (try_create a w).1 a w cs refl
