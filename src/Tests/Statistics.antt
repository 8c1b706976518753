-- ===== src/Tests/Statistics.antt =====
-- The properties of the statistics at a concrete session.
use mgdf.Statistics.{Step, sets_endpoint, pushes_string, flushes, steps, create}
use mgdf.Statistics.Flushing.{
  total, all_added, steps-all_added, sent_of, destroy, destroy-all_added, is_ended, is_waiting,
}
use mgdf.Prelude.{◌≡◌, refl, true, false, List, [], ◌∷◌, ◌++◌, if◌then◌else◌, codes}

-- The second statistic is pushed while the first is sent.
abbrev session : List Step
session =
    sets_endpoint (codes "http://a/") true
    ∷ flushes false
    ∷ pushes_string 12 (codes "start") [] []
    ∷ flushes false
    ∷ pushes_string 15 (codes "end") [] []
    ∷ []

steps-all_added_example : total (steps session (create 10)) ≡ all_added session (create 10)
steps-all_added_example = steps-all_added session 10

destroy-all_added_example :
    (is_ended (destroy false (steps session (create 10))).phase ≡ true)
    × (sent_of (destroy false (steps session (create 10))).sent
          ++ (if is_waiting (steps session (create 10)).phase
              then []
              else (steps session (create 10)).events)
        ≡ all_added session (create 10))
unfolding steps
destroy-all_added_example = destroy-all_added session 10 false refl
