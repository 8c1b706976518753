-- ===== src/Tests/Timers.antt =====
-- The properties of the timers at concrete frames.
use mgdf.Timers.Frames.{
  Answers, Call, begins, ends, begins_frame, call_all, start, end_frame, current,
}
use mgdf.Timers.Frames.Resolving.{expand, ended_queries}
use mgdf.Timers.Frames.Bounds.{call_all-queries, in_heap}
use mgdf.Prelude.{◌≡◌, ◌⊎◌, true, false, some, List, [], ◌∷◌, all}

abbrev succeed : Answers
succeed = record { allocator_reset = true; list_reset = true; list_close = true }

abbrev calls : List Call
calls =
    begins_frame 1 0 (λ q. q)
    ∷ begins 3 (some 9)
    ∷ begins 4 (some 9)
    ∷ begins 5 (some 9)
    ∷ ends 2 (some 9)
    ∷ ends 0 (some 9)
    ∷ []

call_all-queries_example :
    (all in_heap (call_all calls start).written ≡ true)
    × ((expand (end_frame succeed (call_all calls start)).1
          ≡ ended_queries (call_all calls start).samples (current (call_all calls start)).pending)
        ⊎ ((end_frame succeed (call_all calls start)).2 ≡ false))
call_all-queries_example = call_all-queries calls succeed
