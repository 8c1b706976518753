-- ===== src/Version/RoundTrip.antt =====
-- That a version is read back from its text.
use mgdf.Prelude.Int.{pos}
use mgdf.Version.{
  Version, missing, digits, show, format, is_digit, read_digits, atoi, skip_dots, put_front, cut,
  some_token, next_token, with_major, with_minor, with_build, with_revision, create_version,
}
use mgdf.Prelude.Every.{all-append}
use mgdf.Prelude.{
  ℕ, zero, suc, ◌+◌, ◌-◌, ◌*◌, ◌/◌, ◌%◌, ◌≤◌, ◌<◌, ◌≡◌, refl, true, false, some, [], ◌∷◌, ◌++◌,
  append-nil, append_assoc, arith, all, null, Text,
}

abbrev IsDigits : Text → Type 0
IsDigits s = all is_digit s ≡ true

digits-IsDigits : (fuel n : ℕ) → IsDigits (digits fuel n)
unfolding digits
digits-IsDigits zero n = ground arith
digits-IsDigits (suc fuel) n = ground (
  arith,
  digits-IsDigits fuel (n / 10),
  all-append is_digit (digits fuel (n / 10)) ((48 + n % 10) ∷ []),
)

read_digits-append :
    (acc d : ℕ) (s : Text)
    → IsDigits s
    → d < 10
    → read_digits acc (s ++ (48 + d) ∷ []) ≡ read_digits acc s * 10 + d
unfolding read_digits
read_digits-append acc d [] h lt = ground arith
read_digits-append acc d (c ∷ cs) h lt =
    ground (arith, read_digits-append (acc * 10 + (c - 48)) d cs)

-- Reading the digits of a number gives the number.
read_digits-digits : (fuel n : ℕ) → n ≤ fuel → read_digits 0 (digits fuel n) ≡ n
unfolding digits read_digits
read_digits-digits zero n h = ground arith
read_digits-digits (suc fuel) n h = ground (
  arith,
  read_digits-digits fuel (n / 10),
  read_digits-append 0 (n % 10) (digits fuel (n / 10)) (digits-IsDigits fuel (n / 10)),
)

null-append : (xs : Text) (d : ℕ) → null (xs ++ d ∷ []) ≡ false
null-append [] d = refl
null-append (x ∷ xs) d = refl

digits-nonempty : (fuel n : ℕ) → null (digits fuel n) ≡ false
unfolding digits
digits-nonempty zero n = refl
digits-nonempty (suc fuel) n = ground (arith, null-append (digits fuel (n / 10)) (48 + n % 10))

-- The text of a natural number: digits, not none, and read back as the number.
record IsNumber (s : Text) (n : ℕ) : Type 0 where
  digit : IsDigits s
  nonempty : null s ≡ false
  value : read_digits 0 s ≡ n

show-IsNumber : (n : ℕ) → IsNumber (digits n n) n
show-IsNumber n = record {
  digit = digits-IsDigits n n;
  nonempty = digits-nonempty n n;
  value = read_digits-digits n n (omega arith);
}

atoi-IsNumber : (s : Text) (n : ℕ) → IsNumber s n → atoi s ≡ pos n
unfolding atoi
atoi-IsNumber [] n v = absurd (ground (arith, v.nonempty))
atoi-IsNumber (c ∷ cs) n v = ground (arith, v.digit, v.value)

cut-end : (s : Text) → IsDigits s → cut s ≡ (s, [])
unfolding cut put_front
cut-end [] h = refl
cut-end (c ∷ cs) h = ground (arith, cut-end cs)

cut-dot : (s rest : Text) → IsDigits s → cut (s ++ b'.' ∷ rest) ≡ (s, rest)
unfolding cut put_front
cut-dot [] rest h = refl
cut-dot (c ∷ cs) rest h = ground (arith, cut-dot cs rest)

next_token-dot :
    (s rest : Text) (n : ℕ) → IsNumber s n → next_token (s ++ b'.' ∷ rest) ≡ some (s, rest)
unfolding next_token skip_dots some_token
next_token-dot [] rest n v = absurd (ground (arith, v.nonempty))
next_token-dot (c ∷ cs) rest n v = ground (arith, v.digit, cut-dot (c ∷ cs) rest v.digit)

next_token-end : (s : Text) (n : ℕ) → IsNumber s n → next_token s ≡ some (s, [])
unfolding next_token skip_dots some_token
next_token-end [] n v = absurd (ground (arith, v.nonempty))
next_token-end (c ∷ cs) n v = ground (arith, v.digit, cut-end (c ∷ cs) v.digit)

-- The versions that are written with two, three or four parts.
pub data Parts : Type 0 where
  two : ℕ → ℕ → Parts
  three : ℕ → ℕ → ℕ → Parts
  four : ℕ → ℕ → ℕ → ℕ → Parts

abbrev pub version_of : Parts → Version
version_of (two a b) = record { major = pos a; minor = pos b; build = missing; revision = missing }
version_of (three a b c) = record {
  major = pos a;
  minor = pos b;
  build = pos c;
  revision = missing;
}
version_of (four a b c d) = record { major = pos a; minor = pos b; build = pos c; revision = pos d }

abbrev part : ℕ → Text
part n = digits n n

-- What is written is read back: a version with two, three or four parts, none of them negative, is the
-- version that its text gives.
pub create_version-format :
    (p : Parts) → create_version (format (version_of p)) ≡ some (version_of p)
unfolding create_version format show with_major with_minor with_build with_revision
create_version-format (two a b) =
    let m = show-IsNumber a in
    let n = show-IsNumber b in
    rw
      (
        append-nil (part a ++ b'.' ∷ part b),
        next_token-dot (part a) (part b) a m,
        next_token-end (part b) b n,
        atoi-IsNumber (part a) a m,
        atoi-IsNumber (part b) b n,
      )
      refl
create_version-format (three a b c) =
    let m = show-IsNumber a in
    let n = show-IsNumber b in
    let o = show-IsNumber c in
    rw
      (
        append-nil (part c),
        append_assoc (part a) (b'.' ∷ part b) (b'.' ∷ part c),
        next_token-dot (part a) (part b ++ b'.' ∷ part c) a m,
        next_token-dot (part b) (part c) b n,
        next_token-end (part c) c o,
        atoi-IsNumber (part a) a m,
        atoi-IsNumber (part b) b n,
        atoi-IsNumber (part c) c o,
      )
      refl
create_version-format (four a b c d) =
    let m = show-IsNumber a in
    let n = show-IsNumber b in
    let o = show-IsNumber c in
    let q = show-IsNumber d in
    let end : Text = part c ++ b'.' ∷ part d in
    rw
      (
        append_assoc (part a) (b'.' ∷ part b) (b'.' ∷ end),
        next_token-dot (part a) (part b ++ b'.' ∷ end) a m,
        next_token-dot (part b) end b n,
        next_token-dot (part c) (part d) c o,
        next_token-end (part d) d q,
        atoi-IsNumber (part a) a m,
        atoi-IsNumber (part b) b n,
        atoi-IsNumber (part c) c o,
        atoi-IsNumber (part d) d q,
      )
      refl

-- A version with a revision and no build is not read back: its revision comes back as the build.
create_version_shifted :
    (a b d : ℕ)
    → create_version
        (format (record { major = pos a; minor = pos b; build = missing; revision = pos d }))
      ≡ some (record { major = pos a; minor = pos b; build = pos d; revision = missing })
unfolding create_version format show
create_version_shifted a b d =
    let m = show-IsNumber a in
    let n = show-IsNumber b in
    let o = show-IsNumber d in
    rw
      (
        append_assoc (part a) (b'.' ∷ part b) (b'.' ∷ part d),
        next_token-dot (part a) (part b ++ b'.' ∷ part d) a m,
        next_token-dot (part b) (part d) b n,
        next_token-end (part d) d o,
        atoi-IsNumber (part a) a m,
        atoi-IsNumber (part b) b n,
        atoi-IsNumber (part d) d o,
      )
      refl
