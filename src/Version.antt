-- ===== src/Version.antt =====
-- VersionHelper of src/core/common/MGDFVersionHelper.cpp: the text form of a version, and its order.
-- `atoi` and the decimal output of streams are those of the standard library, on numbers that fit.
pub mod Order
pub mod RoundTrip
use mgdf.Prelude.Int.{ℤ, pos, negsuc, ltb_ℤ, eq_ℤ}
use mgdf.Prelude.{
  ℕ, zero, suc, ◌+◌, ◌-◌, ◌*◌, ◌/◌, ◌%◌, ◌^◌, ◌≤◌, ◌<◌, min, max, ◌≡◌, refl, sym, ap, ◌∙◌, ◌≢◌, ◌↔◌,
  ◌⊎◌, inl, inr, Bool, true, false, not, ◌&&◌, ◌||◌, Option, none, some, List, [], ◌∷◌, ◌++◌, map,
  append-nil, append_assoc, arith, ltb, leb, ◌==◌, if◌then◌else◌, ltb→lt, lt→ltb, ==_iff, ==_refl,
  Bool-cases, Option-cases, length, get_elem?, take, drop, keep, any, all, null, length-append,
  length-take, length-drop, length-keep-le, keep-append, Text, codes, same_text, same_text_refl,
  same_text→eq, same_text_ne, find, insert, assign, find-insert, find-assign,
}

-- `MGDFVersion`; a part that is missing is -1.
pub record Version : Type 0 where
  pub major : ℤ
  pub minor : ℤ
  pub build : ℤ
  pub revision : ℤ

abbrev missing : ℤ
missing = negsuc 0

-- The decimal digits of a number, on fuel; the number itself is enough.
digits : ℕ → ℕ → Text
digits zero n = (48 + n % 10) ∷ []
digits (suc fuel) n =
    let front = digits fuel (n / 10) in
    if ltb n 10 then (48 + n) ∷ [] else front ++ (48 + n % 10) ∷ []

show : ℤ → Text
show (pos n) = digits n n
show (negsuc n) = b'-' ∷ digits (suc n) (suc n)

abbrev is_missing : ℤ → Bool
is_missing (pos n) = false
is_missing (negsuc n) = true

abbrev dotted : ℤ → Text
dotted part = if is_missing part then [] else b'.' ∷ show part

pub format : Version → Text
unfolding show
format v = (show v.major ++ b'.' ∷ show v.minor) ++ (dotted v.build ++ dotted v.revision)

abbrev is_digit : ℕ → Bool
is_digit c = leb 48 c && leb c 57

read_digits : ℕ → Text → ℕ
read_digits acc [] = acc
read_digits acc (c ∷ cs) =
    let rest = read_digits (acc * 10 + (c - 48)) cs in if is_digit c then rest else acc

negate : ℕ → ℤ
negate zero = pos zero
negate (suc n) = negsuc n

-- `atoi`, on a text with no blank in front.
atoi : Text → ℤ
unfolding read_digits negate
atoi [] = pos 0
atoi (c ∷ cs) = if c == b'-' then negate (read_digits 0 cs) else pos (read_digits 0 (c ∷ cs))

-- `strtok_s` with ".": the dots in front are skipped.
skip_dots : Text → Text
skip_dots [] = []
skip_dots (c ∷ cs) = if c == b'.' then skip_dots cs else c ∷ cs

put_front : ℕ → Text × Text → Text × Text
put_front c (token, rest) = (c ∷ token, rest)

-- The token, and what comes after the dot that ends it.
cut : Text → Text × Text
unfolding put_front
cut [] = ([], [])
cut (c ∷ cs) = if c == b'.' then ([], cs) else put_front c (cut cs)

-- A token is not empty: `none` is the null pointer.
some_token : Text × Text → Option (Text × Text)
some_token ([], rest) = none
some_token (c ∷ cs, rest) = some (c ∷ cs, rest)

next_token : Text → Option (Text × Text)
unfolding skip_dots cut some_token
next_token s = some_token (cut (skip_dots s))

with_revision : Version → Option (Text × Text) → Version
with_revision v none = v
with_revision v (some (token, rest)) = record v { revision = atoi token }

with_build : Version → Option (Text × Text) → Version
unfolding with_revision next_token
with_build v none = v
with_build v (some (token, rest)) =
    with_revision (record v { build = atoi token }) (next_token rest)

with_minor : Version → Option (Text × Text) → Option Version
unfolding with_build next_token
with_minor v none = none
with_minor v (some (token, rest)) =
    some (with_build (record v { minor = atoi token }) (next_token rest))

with_major : Option (Text × Text) → Option Version
unfolding with_minor next_token
with_major none = none
with_major (some (token, rest)) =
    with_minor (record { major = atoi token; minor = missing; build = missing; revision = missing })
      (next_token rest)

-- `Create`; `none` where there are no two parts, which the source asserts.
pub create_version : Text → Option Version
unfolding with_major next_token
create_version text = with_major (next_token text)

sign : Bool → ℤ
sign greater = if greater then pos 1 else negsuc 0

-- One comparison of the chain, and what decides if the parts are equal.
compare_part : ℤ → ℤ → ℤ → ℤ
unfolding sign
compare_part x y rest = if not (eq_ℤ x y) then sign (ltb_ℤ y x) else rest

compare_versions : Version → Version → ℤ
unfolding compare_part
compare_versions a b = compare_part a.major b.major (
    compare_part a.minor b.minor
      (compare_part a.build b.build (compare_part a.revision b.revision (pos 0))))
