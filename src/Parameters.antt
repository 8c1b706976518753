-- ===== src/Parameters.antt =====
-- ParameterManager of src/core/common/MGDFParameterManager.cpp: the flags of a command line.
pub mod Parsing
use mgdf.Prelude.{
  ℕ, zero, suc, ◌+◌, ◌-◌, ◌*◌, ◌/◌, ◌%◌, ◌^◌, ◌≤◌, ◌<◌, min, max, ◌≡◌, refl, sym, ap, ◌∙◌, ◌≢◌, ◌↔◌,
  ◌⊎◌, inl, inr, Bool, true, false, not, ◌&&◌, ◌||◌, Option, none, some, List, [], ◌∷◌, ◌++◌, map,
  append-nil, append_assoc, arith, ltb, leb, ◌==◌, if◌then◌else◌, ltb→lt, lt→ltb, ==_iff, ==_refl,
  Bool-cases, if_cases, Option-cases, length, get_elem?, take, drop, keep, any, all, null,
  length-append, length-take, length-drop, length-keep-le, keep-append, Text, codes, same_text,
  same_text_refl, same_text→eq, same_text_ne, find, insert, assign, find-insert, find-assign,
}

abbrev Parameters : Type 0
Parameters = List (Text × Text)

-- `c <= ' '` on a `char`, which is signed: a byte from 128 on is negative.
abbrev is_blank : ℕ → Bool
is_blank c = leb c 32 || leb 128 c

-- The loops that skip white space.
skip_blank : Text → Text
skip_blank [] = []
skip_blank (c ∷ rest) = let more = skip_blank rest in if is_blank c then more else c ∷ rest

-- The loops that read up to white space: what was read, and what is left.
token : Text → Text × Text
token [] = ([], [])
token (c ∷ rest) =
    let (read, left) = token rest in if is_blank c then ([], c ∷ rest) else (c ∷ read, left)

-- The loop that reads up to the closing quote, which is skipped if it is there.
quoted : ℕ → Text → Text × Text
quoted quote [] = ([], [])
quoted quote (c ∷ rest) =
    let (read, left) = quoted quote rest in if c == quote then ([], rest) else (c ∷ read, left)

-- The value at the start of the text, or none before a flag.
value_of : Text → Text × Text
unfolding quoted token
value_of [] = ([], [])
value_of (c ∷ rest) =
    if c == 45
    then ([], c ∷ rest)
    else if c == 34 || c == 39
    then quoted c rest
    else token (c ∷ rest)

-- The end of a round of the loop, from the key on; a key that is empty is E_INVALIDARG, and the
-- parameters that were read before it stay.
with_key : (Text → Parameters → Parameters × Bool) → Text × Text → Parameters → Parameters × Bool
unfolding value_of skip_blank
with_key again ([], left) m = (m, false)
with_key again (k ∷ ks, left) m =
    let (value, rest) = value_of (skip_blank left) in again rest (assign (k ∷ ks) value m)

-- A round of the loop, after white space was skipped.
round : (Text → Parameters → Parameters × Bool) → Text → Parameters → Parameters × Bool
unfolding with_key token
round again [] m = (m, true)
round again (c ∷ rest) m = if c == 45 then with_key again (token rest) m else (m, false)

-- The loop of `ParseParameters`, on fuel.
parse : ℕ → Text → Parameters → Parameters × Bool
unfolding round skip_blank
parse zero s m = (m, false)
parse (suc fuel) s m = round (parse fuel) (skip_blank s) m

-- `AddParameterString`. Each round reads a character at least.
pub add_parameter_string : Text → Parameters → Parameters × Bool
unfolding parse
add_parameter_string s m = parse (suc (length s)) s m

get_parameter : Text → Parameters → Option Text
get_parameter name m = find name m
