-- ===== src/Tests/Metrics.antt =====
-- The properties of the metrics at concrete tags and values.
use mgdf.Metrics.Tags.{dump_tags}
use mgdf.Metrics.Tags.RoundTrip.{keys_of, first_value, dump_tags-keys_of}
use mgdf.Prelude.{◌≡◌, refl, Option, none, some, find, List, [], ◌∷◌, Text, codes}

-- Out of order, and one name twice.
abbrev tags : List (Text × Text)
tags = (codes "os", codes "a,b") ∷ (codes "gpu", codes "x=1") ∷ (codes "os", codes "c") ∷ []

-- With these tags, with others, and with none.
abbrev recorded : List (Option (List (Text × Text)))
recorded = some tags ∷ none ∷ some ((codes "os", codes "d") ∷ (codes "cpu", codes "8") ∷ []) ∷ []

dump_tags-keys_of_example :
    (pushed : List (Text × Text)) × (dump_tags (keys_of recorded) [] ≡ some pushed)
    × ((k : Text) → find k pushed ≡ first_value k recorded)
dump_tags-keys_of_example = dump_tags-keys_of recorded refl
