-- ===== src/Tests/Parameters.antt =====
-- The properties of the parameters at a concrete command line.
use mgdf.Prelude.{List, [], ◌∷◌, Text, codes}

abbrev flags : List (Text × Text)
flags = (codes "game", codes "my-game dir") ∷ (codes "log", []) ∷ (codes "game", codes "other") ∷ []
