-- ===== src/Network/Headers/RoundTrip.antt =====
-- A client reads back the headers that a server wrote.
use mgdf.Network.Encoding.{content_encoding}
use mgdf.Network.Headers.{is_eol, is_blank, starts_with, content_length}
use mgdf.Prelude.{
  Bool, true, not, ◌&&◌, ◌||◌, Option, none, some, List, [], ◌∷◌, ◌==◌, all, Text, codes, same_text,
  insert,
}

-- No line break in the value, and no blank in front of it.
abbrev is_value : Text → Bool
is_value [] = true
is_value (c ∷ cs) = not (is_blank c) && all (λ d. not (is_eol d)) (c ∷ cs)

-- No colon, and nothing that looks like a status line.
abbrev is_name : Text → Bool
is_name name = all (λ d. not (d == b':')) name && not (starts_with name (codes "HTTP/"))

abbrev are_headers : List (Text × Text) → Bool
are_headers hs = all (λ h. is_name h.0 && is_value h.1) hs

abbrev insert_all : List (Text × Text) → List (Text × Text) → List (Text × Text)
insert_all [] acc = acc
insert_all ((k, v) ∷ hs) acc = insert_all hs (insert k v acc)

-- What `SendHttpResponse` leaves out.
abbrev pub is_sent : Bool → Text × Text → Bool
is_sent strip h = not (same_text h.0 content_length || same_text h.0 content_encoding && strip)

abbrev or_else : Option Text → Option Text → Option Text
or_else none o = o
or_else (some v) o = some v
