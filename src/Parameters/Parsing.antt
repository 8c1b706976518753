-- ===== src/Parameters/Parsing.antt =====
-- What ParameterManager::ParseParameters reads: its end, and flags that were written out.
use mgdf.Parameters.{
  Parameters, is_blank, skip_blank, token, quoted, value_of, with_key, round, parse,
  add_parameter_string,
}
use mgdf.Prelude.{
  ℕ, zero, suc, ◌+◌, ◌≤◌, ◌<◌, ◌≡◌, refl, ap, Bool, false, not, ◌&&◌, [], ◌∷◌, ◌++◌, arith, ◌==◌,
  if◌then◌else◌, length, all, null, Text, assign,
}

length-skip_blank : (s : Text) → length (skip_blank s) ≤ length s
unfolding skip_blank
length-skip_blank [] = omega arith
length-skip_blank (c ∷ rest) = ground (arith, length-skip_blank rest)

length-token : (s : Text) → length (token s).1 ≤ length s
unfolding token
length-token [] = omega arith
length-token (c ∷ rest) = ground (arith, length-token rest)

length-quoted : (q : ℕ) (s : Text) → length (quoted q s).1 ≤ length s
unfolding quoted
length-quoted q [] = omega arith
length-quoted q (c ∷ rest) = ground (arith, length-quoted q rest)

length-value_of : (s : Text) → length (value_of s).1 ≤ length s
unfolding value_of
length-value_of [] = omega arith
length-value_of (c ∷ rest) = ground (arith, length-quoted c rest, length-token (c ∷ rest))

abbrev Agree :
    (Text → Parameters → Parameters × Bool) → (Text → Parameters → Parameters × Bool) → ℕ → Type 0
Agree f g n = (s : Text) (m : Parameters) → length s < n → f s m ≡ g s m

with_key-Agree :
    (f g : Text → Parameters → Parameters × Bool) (t : Text × Text) (n : ℕ) (m : Parameters)
    → length t.1 < n
    → Agree f g n
    → with_key f t m ≡ with_key g t m
unfolding with_key
with_key-Agree f g ([], left) n m h v = refl
with_key-Agree f g (k ∷ ks, left) n m h v =
    v _ _ (ground (arith, length-value_of (skip_blank left), length-skip_blank left))

round-Agree :
    (f g : Text → Parameters → Parameters × Bool) (s : Text) (m : Parameters)
    → Agree f g (length s)
    → round f s m ≡ round g s m
unfolding round
round-Agree f g [] m v = refl
round-Agree f g (c ∷ rest) m v =
    ap (λ (r : Parameters × Bool). if c == 45 then r else (m, false))
      (with_key-Agree f g (token rest) (length (c ∷ rest)) m (ground (arith, length-token rest)) v)

parse-Agree :
    (i j : ℕ) (s : Text) (m : Parameters) → length s < i → length s < j → parse i s m ≡ parse j s m
unfolding parse
parse-Agree zero j s m h l = absurd (omega arith)
parse-Agree (suc i) zero s m h l = absurd (omega arith)
parse-Agree (suc i) (suc j) s m h l =
    let short = length-skip_blank s in
    round-Agree (parse i) (parse j) (skip_blank s) m
      (λ t n k. parse-Agree i j t n (omega arith) (omega arith))

-- The loop that reads parameters comes to its end: after as many rounds as the text has characters,
-- further rounds would change neither the parameters nor the result.
add_parameter_string-parse :
    (s : Text) (m : Parameters) (more : ℕ)
    → add_parameter_string s m ≡ parse (suc (length s) + more) s m
unfolding add_parameter_string
add_parameter_string-parse s m more =
    parse-Agree (suc (length s)) (suc (length s) + more) s m (omega arith) (omega arith)

-- Flags with their values in double quotes.
pub written : Parameters → Text
written [] = []
written ((key, value) ∷ rest) = 45 ∷ (key ++ (32 ∷ 34 ∷ (value ++ (34 ∷ 32 ∷ written rest))))

-- A key that is not empty, without white space, and a value without a double quote.
abbrev is_plain : Text × Text → Bool
is_plain (key, value) =
    (not (null key) && all (λ c. not (is_blank c)) key) && all (λ c. not (c == 34)) value

pub assign_all : Parameters → Parameters → Parameters
assign_all [] m = m
assign_all ((key, value) ∷ rest) m = assign_all rest (assign key value m)
