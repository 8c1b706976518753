-- ===== src/Audio/Streams/Stopping.antt =====
-- Which buffers a stream keeps queued, and when it stops.
use mgdf.Audio.Streams.Decoder.{decode_ogg}
use mgdf.Audio.Streams.{Stream, System, paused, stopped, StreamState, requeue, refill, update}
use mgdf.Prelude.{
  ℕ, zero, suc, ◌+◌, ◌≤◌, ◌<◌, ◌≡◌, refl, ◌↔◌, Bool, true, false, List, [], ◌∷◌, arith, ◌==◌,
  if◌then◌else◌, length, length-append,
}

-- The number of the first `n` fills for which the decoder has nothing.
dry : ℕ → ℕ → List ℕ → ℕ
dry zero size reads = 0
dry (suc n) size reads =
    let (bytes, rest) = decode_ogg size reads in (if bytes == 0 then 1 else 0) + dry n size rest

requeue-length :
    (bytes : ℕ) (q : List ℕ) (s : Stream)
    → s.queued ≡ q
    → 0 < length q
    → (length (requeue bytes q s).queued + (if bytes == 0 then 1 else 0) ≡ length q)
      × ((requeue bytes q s).reads ≡ s.reads)
      × ((requeue bytes q s).buffer_size ≡ s.buffer_size)
      × ((requeue bytes q s).state ≡ s.state)
unfolding requeue
requeue-length bytes [] s e h = absurd (omega arith)
requeue-length bytes (b ∷ bs) s e h = ground (arith, length-append bs (b ∷ []))

refill-length :
    (n : ℕ) (s : Stream)
    → n ≤ length s.queued
    → (length (refill n s).queued + dry n s.buffer_size s.reads ≡ length s.queued)
      × ((refill n s).state ≡ s.state)
unfolding refill dry
refill-length zero s h = (omega arith, refl)
refill-length (suc n) s h =
    let (bytes, rest) = decode_ogg s.buffer_size s.reads in
    let t = record s { reads = rest } in
    ground (arith, requeue-length bytes s.queued t refl, refill-length n (requeue bytes s.queued t))

abbrev is_running : StreamState → Bool
is_running paused = false
is_running stopped = false
is_running _ = true

-- No buffer is lost before the end: of a stream that runs, an update loses as many of the queued buffers
-- as the decoder had nothing for, if OpenAL has processed no more than were queued; and the stream stops
-- exactly if none is queued then and OpenAL does not play.
update-queued :
    (n : ℕ) (is_playing : Bool) (w : System) (s : Stream)
    → is_running s.state ≡ true
    → n ≤ length s.queued
    → let t = (update n is_playing w s).1 in
      (length t.queued + dry n s.buffer_size s.reads ≡ length s.queued)
      × ((t.state ≡ stopped) ↔ ((is_playing ≡ false) × (t.queued ≡ [])))
unfolding update
update-queued n is_playing w s run h = ground (arith, refill-length n s h)

dry-ended : (n size : ℕ) → dry n size [] ≡ n
unfolding dry decode_ogg
dry-ended zero size = refl
dry-ended (suc n) size = ground (arith, dry-ended n size)

-- A stream comes to its end: once the decoder has nothing more, an update that finds all that was queued
-- processed, and the source idle, stops the stream.
update-ended :
    (w : System) (s : Stream)
    → is_running s.state ≡ true
    → s.reads ≡ []
    → (update (length s.queued) false w s).1.state ≡ stopped
update-ended w s run e =
    let (kept, stops) = update-queued (length s.queued) false w s run (omega arith) in
    ground (arith, dry-ended (length s.queued) s.buffer_size)
