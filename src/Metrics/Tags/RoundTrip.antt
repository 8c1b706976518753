-- ===== src/Metrics/Tags/RoundTrip.antt =====
-- That tags are read back from their key.
use mgdf.Metrics.Tags.{
  insert_all, dump_tags, emplace, tag_map, tag_text, write_tags, tag_key, until, after_stop,
  skip_comma, with_value, with_name, parse_tag, add_tag, carry_on, parse_tags, tags_of,
}
use mgdf.Prelude.{
  Option, none, find, insert, value_or, find-insert, same_text, same_text→eq, ◌∙◌, ap, sym,
  Bool-cases, inl, inr, ℕ, zero, suc, ◌≤◌, ◌<◌, ◌≡◌, refl, Bool, true, false, not, ◌&&◌, some, List,
  [], ◌∷◌, ◌++◌, append_assoc, arith, ◌==◌, if◌then◌else◌, ==_refl, length, all, length-append,
  Text,
}

abbrev lacks : ℕ → Text → Bool
lacks stop s = all (λ c. not (c == stop)) s

abbrev is_closing : Text → Bool
is_closing [] = false
is_closing (c ∷ cs) = c == b'}'

-- A name with no equals sign and no closing brace in front, and a value with no quote.
abbrev is_clean : Text × Text → Bool
is_clean (k, v) = lacks b'=' k && (not (is_closing k) && lacks b'"' v)

abbrev all_clean : List (Text × Text) → Bool
all_clean ts = all is_clean ts

until-stop :
    (stop : ℕ) (s rest : Text)
    → lacks stop s ≡ true
    → until stop (s ++ stop ∷ rest) ≡ some (s, rest)
unfolding until after_stop
until-stop stop [] rest h = ground (arith, ==_refl stop)
until-stop stop (c ∷ cs) rest h =
    rw (until-stop stop cs rest (ground (arith, h))) (ground (arith, h))

parse_tag-text :
    (k v rest : Text)
    → is_clean (k, v) ≡ true
    → parse_tag (k ++ b'=' ∷ b'"' ∷ (v ++ b'"' ∷ rest)) ≡ some ((k, v), skip_comma rest)
unfolding parse_tag with_name with_value
parse_tag-text k v rest h =
    rw
      (
        until-stop b'=' k (b'"' ∷ (v ++ b'"' ∷ rest)) (ground (arith, h)),
        until-stop b'"' v rest (ground (arith, h)),
      )
      refl

abbrev brace : Text
brace = b'}' ∷ []

skip_comma-write :
    (ts : List (Text × Text))
    → skip_comma (write_tags false ts ++ brace) ≡ write_tags true ts ++ brace
unfolding skip_comma write_tags
skip_comma-write [] = refl
skip_comma-write (t ∷ ts) = refl

-- The first tag with what follows it, in the shape in which it is read.
write_tags-head :
    (k v : Text) (ts : List (Text × Text))
    → write_tags true ((k, v) ∷ ts) ++ brace
      ≡ k ++ b'=' ∷ b'"' ∷ (v ++ b'"' ∷ (write_tags false ts ++ brace))
unfolding write_tags
write_tags-head k v ts =
    let w = write_tags false ts in
    rw
      (
        append_assoc (tag_text (k, v)) w brace,
        append_assoc k (b'=' ∷ b'"' ∷ (v ++ b'"' ∷ [])) (w ++ brace),
        append_assoc v (b'"' ∷ []) (w ++ brace),
      )
      refl

parse_tags-step :
    (fuel : ℕ) (k s : Text)
    → is_closing k ≡ false
    → parse_tags (suc fuel) (k ++ b'=' ∷ s)
      ≡ carry_on (λ r. parse_tags fuel r) (parse_tag (k ++ b'=' ∷ s))
unfolding parse_tags
parse_tags-step fuel [] s h = refl
parse_tags-step fuel (c ∷ cs) s h = rw h refl

parse_tags-write :
    (fuel : ℕ) (ts : List (Text × Text))
    → length ts < fuel
    → all_clean ts ≡ true
    → parse_tags fuel (write_tags true ts ++ brace) ≡ some ts
unfolding parse_tags write_tags carry_on add_tag
parse_tags-write zero ts h c = absurd (omega arith)
parse_tags-write (suc fuel) [] h c = refl
parse_tags-write (suc fuel) ((k, v) ∷ ts) h c =
    let rest = write_tags false ts ++ brace in
    rw
      (
        write_tags-head k v ts,
        parse_tags-step fuel k (b'"' ∷ (v ++ b'"' ∷ rest)) (ground (arith, c)),
        parse_tag-text k v rest (ground (arith, c)),
        skip_comma-write ts,
        parse_tags-write fuel ts (omega arith) (ground (arith, c)),
      )
      refl

length-write_tags : (b : Bool) (ts : List (Text × Text)) → length ts ≤ length (write_tags b ts)
unfolding write_tags
length-write_tags b [] = omega arith
length-write_tags b ((k, v) ∷ ts) =
    let comma : Text = if b then [] else b',' ∷ [] in
    let end : Text = b'=' ∷ b'"' ∷ (v ++ b'"' ∷ []) in
    let rest = write_tags false ts in
    omega (
      arith,
      length-append comma (tag_text (k, v) ++ rest),
      length-append (tag_text (k, v)) rest,
      length-append k end,
      length-write_tags false ts,
    )

emplace-clean :
    (k v : Text) (m : List (Text × Text))
    → is_clean (k, v) ≡ true
    → all_clean m ≡ true
    → all_clean (emplace k v m) ≡ true
unfolding emplace
emplace-clean k v [] h c = ground (arith, h)
emplace-clean k v ((j, w) ∷ m) h c = ground (arith, h, c, emplace-clean k v m h)

tag_map-clean :
    (ts m : List (Text × Text))
    → all_clean ts ≡ true
    → all_clean m ≡ true
    → all_clean (tag_map ts m) ≡ true
unfolding tag_map
tag_map-clean [] m h c = c
tag_map-clean ((k, v) ∷ ts) m h c =
    tag_map-clean ts (emplace k v m) (ground (arith, h)) (emplace-clean k v m (ground (arith, h)) c)

-- The key that `Record` writes of one set of tags is read back as the same tags, in the order of their names,
-- if no name holds an equals sign or begins with a closing brace, and no value holds a quote.
tags_of-tag_key :
    (ts : List (Text × Text))
    → all_clean ts ≡ true
    → tags_of (tag_key (some ts)) ≡ some (tag_map ts [])
unfolding tags_of tag_key
tags_of-tag_key ts h =
    let m = tag_map ts [] in
    let text = write_tags true m ++ brace in
    parse_tags-write (suc (length text)) m
      (omega (arith, length-append (write_tags true m) brace, length-write_tags true m))
      (tag_map-clean ts [] h refl)

-- The tags that a caller gives to `Record`; a null pointer gives none.
abbrev given : Option (List (Text × Text)) → List (Text × Text)
given none = []
given (some tags) = tags

tag_key-given : (o : Option (List (Text × Text))) → tag_key o ≡ tag_key (some (given o))
unfolding tag_key tag_map write_tags
tag_key-given none = refl
tag_key-given (some tags) = refl

-- The keys of what a metric was recorded with.
pub keys_of : List (Option (List (Text × Text))) → List Text
keys_of [] = []
keys_of (o ∷ os) = tag_key o ∷ keys_of os

abbrev or_else : Option Text → Option Text → Option Text
or_else none v = v
or_else (some v) w = some v

-- The value of a name in the first of the sets of tags that has it.
pub first_value : Text → List (Option (List (Text × Text))) → Option Text
first_value k [] = none
first_value k (o ∷ os) = or_else (find k (tag_map (given o) [])) (first_value k os)

abbrev all_given_clean : List (Option (List (Text × Text))) → Bool
all_given_clean os = all (λ o. all_clean (given o)) os

or_else-none : (a : Option Text) → or_else a none ≡ a
or_else-none none = refl
or_else-none (some v) = refl

or_else_assoc : (a b c : Option Text) → or_else (or_else a b) c ≡ or_else a (or_else b c)
or_else_assoc none b c = refl
or_else_assoc (some v) b c = refl

or_else-value_or :
    (a : Option Text) (v : Text) (b : Option Text) → or_else (value_or a v) b ≡ or_else a (some v)
or_else-value_or none v b = refl
or_else-value_or (some w) v b = refl

find-insert_all :
    (k : Text) (ts m : List (Text × Text))
    → find k (insert_all ts m) ≡ or_else (find k m) (find k ts)
unfolding insert_all find
find-insert_all k [] m = sym (or_else-none (find k m))
find-insert_all k ((j, v) ∷ ts) m =
    find-insert_all k ts (insert j v m)
    ∙ ap (λ (o : Option Text). or_else o (find k ts)) (find-insert j k v m)
    ∙ elim (Bool-cases (same_text j k)) [
      | inl e ↦
          let there : find j m ≡ find k m = ap (λ (n : Text). find n m) (same_text→eq j k e) in
          rw (e, there) (or_else-value_or (find k m) v (find k ts))
      | inr e ↦ rw e refl
    ]

dump_tags-parsed :
    (key : Text) (keys : List Text) (m tags : List (Text × Text))
    → tags_of key ≡ some tags
    → dump_tags (key ∷ keys) m ≡ dump_tags keys (insert_all tags m)
unfolding dump_tags
dump_tags-parsed key keys m tags e = rw (dump_tags, e) refl

dump_tags-keys :
    (os : List (Option (List (Text × Text)))) (m : List (Text × Text))
    → all_given_clean os ≡ true
    → (pushed : List (Text × Text)) × (dump_tags (keys_of os) m ≡ some pushed)
      × ((k : Text) → find k pushed ≡ or_else (find k m) (first_value k os))
unfolding dump_tags keys_of first_value
dump_tags-keys [] m h = (m, refl, λ k. sym (or_else-none (find k m)))
dump_tags-keys (o ∷ os) m h =
    let tags = tag_map (given o) [] in
    let clean : all_clean (given o) ≡ true = ground (arith, h) in
    let parsed : tags_of (tag_key o) ≡ some tags =
      ap (λ (key : Text). tags_of key) (tag_key-given o) ∙ tags_of-tag_key (given o) clean in
    let (pushed, dumped, finds) = dump_tags-keys os (insert_all tags m) (ground (arith, h)) in
    (
      pushed,
      dump_tags-parsed (tag_key o) (keys_of os) m tags parsed ∙ dumped,
      λ k.
          finds k
          ∙ ap (λ (a : Option Text). or_else a (first_value k os)) (find-insert_all k tags m)
          ∙ or_else_assoc (find k m) (find k tags) (first_value k os),
    )

-- What a metric was recorded with, in the order in which the map of its keys is gone through, is pushed as one
-- set of tags: if no name holds an equals sign or begins with a closing brace, and no value holds a quote,
-- then DumpPush reads all the keys without going behind their end, and a name is pushed with the value that
-- the first of the sets of tags that has it gives it, and not at all if none has it.
pub dump_tags-keys_of :
    (os : List (Option (List (Text × Text))))
    → all_given_clean os ≡ true
    → (pushed : List (Text × Text)) × (dump_tags (keys_of os) [] ≡ some pushed)
      × ((k : Text) → find k pushed ≡ first_value k os)
unfolding find
dump_tags-keys_of os h = dump_tags-keys os [] h
