-- ===== src/Tests/Streamline.antt =====
-- The properties of a Streamline session at concrete calls.
use mgdf.RenderSettings.{on}
use mgdf.Streamline.{Answers, fresh}
use mgdf.Streamline.Invariant.{
  Call, inits, begins, sets_constants, presents, call_all, IsSound, call_all-IsSound,
}
use mgdf.Prelude.{true, false, some, List, [], ◌∷◌}

abbrev answers : Answers
answers = record {
  adapter = true;
  loaded = true;
  started = true;
  device = true;
  dlss = true;
  pcl = true;
  reflex = true;
  low_latency = true;
  reflex_set = true;
  generation = some (3, false);
  upgraded = true;
}

abbrev calls : List Call
calls = inits answers ∷ begins true on (some 1) ∷ sets_constants true true ∷ presents true ∷ []

call_all-IsSound_example : IsSound (call_all calls fresh)
call_all-IsSound_example = call_all-IsSound calls
