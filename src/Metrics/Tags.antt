-- ===== src/Metrics/Tags.antt =====
-- MetricImpl::Record and DumpPush of src/core/core.impl/MGDFMetrics.hpp: tags are written into a key,
-- and read back from it when the metrics are pushed.
pub mod RoundTrip
use mgdf.Prelude.{
  ℕ, zero, suc, ◌+◌, ◌-◌, ◌*◌, ◌/◌, ◌%◌, ◌^◌, ◌≤◌, ◌<◌, min, max, ◌≡◌, refl, sym, ap, ◌∙◌, ◌≢◌, ◌↔◌,
  ◌⊎◌, inl, inr, Bool, true, false, not, ◌&&◌, ◌||◌, Option, none, some, List, [], ◌∷◌, ◌++◌, map,
  append-nil, append_assoc, arith, ltb, leb, ◌==◌, if◌then◌else◌, ltb→lt, lt→ltb, ==_iff, ==_refl,
  Bool-cases, Option-cases, length, get_elem?, take, drop, keep, any, all, null, length-append,
  length-take, length-drop, length-keep-le, keep-append, Text, codes, same_text, same_text_refl,
  same_text→eq, same_text_ne, find, insert, assign, find-insert, find-assign,
}

-- The order of `std::string_view`.
less_text : Text → Text → Bool
less_text [] [] = false
less_text [] (y ∷ ys) = true
less_text (x ∷ xs) [] = false
less_text (x ∷ xs) (y ∷ ys) = let rest = less_text xs ys in if x == y then rest else ltb x y

-- `std::map::emplace`: in order, and a name that is there keeps its value.
emplace : Text → Text → List (Text × Text) → List (Text × Text)
emplace k v [] = (k, v) ∷ []
emplace k v ((j, w) ∷ m) =
    let rest = emplace k v m in
    if less_text j k
    then (j, w) ∷ rest
    else if less_text k j
    then (k, v) ∷ (j, w) ∷ m
    else (j, w) ∷ m

-- The loop over the tags that a caller gives.
tag_map : List (Text × Text) → List (Text × Text) → List (Text × Text)
tag_map [] m = m
tag_map ((k, v) ∷ tags) m = tag_map tags (emplace k v m)

-- One tag: the name, and the value in quotes.
abbrev tag_text : Text × Text → Text
tag_text (k, v) = k ++ b'=' ∷ b'"' ∷ (v ++ b'"' ∷ [])

-- The loop that writes the tags; `first` says that no tag was written yet.
write_tags : Bool → List (Text × Text) → Text
write_tags first [] = []
write_tags first (t ∷ ts) = (if first then [] else b',' ∷ []) ++ (tag_text t ++ write_tags false ts)

-- The key; `none` is the null pointer.
tag_key : Option (List (Text × Text)) → Text
unfolding write_tags tag_map
tag_key none = b'{' ∷ b'}' ∷ []
tag_key (some tags) = b'{' ∷ (write_tags true (tag_map tags []) ++ b'}' ∷ [])

after_stop : ℕ → Option (Text × Text) → Option (Text × Text)
after_stop c none = none
after_stop c (some (front, rest)) = some (c ∷ front, rest)

-- An inner loop of `DumpPush`: up to the stop character, which is skipped. `none` where the source reads
-- behind the end.
until : ℕ → Text → Option (Text × Text)
unfolding after_stop
until stop [] = none
until stop (c ∷ cs) = if c == stop then some ([], cs) else after_stop c (until stop cs)

skip_comma : Text → Text
skip_comma [] = []
skip_comma (c ∷ cs) = if c == b',' then cs else c ∷ cs

with_value : Text → Option (Text × Text) → Option ((Text × Text) × Text)
unfolding skip_comma
with_value name none = none
with_value name (some (value, rest)) = some ((name, value), skip_comma rest)

-- The quote after the equals sign is skipped unseen.
with_name : Option (Text × Text) → Option ((Text × Text) × Text)
unfolding until with_value
with_name none = none
with_name (some (name, rest)) = with_value name (until b'"' (drop 1 rest))

-- One round of the outer loop: a tag, and the rest of the key.
parse_tag : Text → Option ((Text × Text) × Text)
unfolding until with_name
parse_tag s = with_name (until b'=' s)

add_tag : Text × Text → Option (List (Text × Text)) → Option (List (Text × Text))
add_tag t none = none
add_tag t (some ts) = some (t ∷ ts)

-- The rest of the loop, after a tag that was read.
carry_on :
    (Text → Option (List (Text × Text)))
    → Option ((Text × Text) × Text)
    → Option (List (Text × Text))
unfolding add_tag
carry_on loop none = none
carry_on loop (some (t, s)) = add_tag t (loop s)

-- The outer loop, on fuel: up to a closing brace in front.
parse_tags : ℕ → Text → Option (List (Text × Text))
unfolding parse_tag carry_on
parse_tags fuel [] = none
parse_tags zero (c ∷ cs) = none
parse_tags (suc fuel) (c ∷ cs) =
    if c == b'}' then some [] else carry_on (λ s. parse_tags fuel s) (parse_tag (c ∷ cs))

-- The tags of a key, from behind its opening brace: the loop of `DumpPush` over one key.
tags_of : Text → Option (List (Text × Text))
unfolding parse_tags
tags_of key = parse_tags (length key) (drop 1 key)

-- `stat.Tags.insert`, for the tags of a key: a name that is there keeps its value.
insert_all : List (Text × Text) → List (Text × Text) → List (Text × Text)
insert_all [] pushed = pushed
insert_all ((name, value) ∷ tags) pushed = insert_all tags (insert name value pushed)

-- `DumpPush`, on the keys of `_metric` in the order of its iteration, and the tags pushed so far.
pub dump_tags : List Text → List (Text × Text) → Option (List (Text × Text))
unfolding insert_all
dump_tags [] pushed = some pushed
dump_tags (key ∷ keys) pushed = elim (tags_of key) [
  | none ↦ none
  | some tags ↦ dump_tags keys (insert_all tags pushed)
]
