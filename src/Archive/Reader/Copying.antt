-- ===== src/Archive/Reader/Copying.antt =====
-- Copying a file of an archive (ZipFileImpl::CopyTo).
use mathlib.Core.Path.{subst}
use mgdf.Archive.Reader.{
  Reader, buffer_size, Copy, copied, refused, outside, unfinished, write_piece, copy_loop, copy_to,
}
use mgdf.Archive.Reader.Pieces.{at, read_least, take_add, take_nil}
use mgdf.Prelude.{
  ℕ, zero, suc, ◌+◌, ◌-◌, ◌*◌, ◌/◌, ◌^◌, ◌≤◌, ◌<◌, min, ◌≡◌, refl, sym, ap, ◌∙◌, Option, some, List,
  [], ◌∷◌, ◌++◌, arith, ltb, ◌==◌, if_cases, length, take, drop, length-take, length-drop,
}

-- How a copy may end, where the writes take so much at most: all was copied, or a write that takes less than
-- the buffer was the last one, and what was written is a first part of the file.
abbrev pub IsCopyOf : (ℕ → ℕ) → List ℕ → Copy → Type 0
IsCopyOf limits bytes (copied written) = written ≡ bytes
IsCopyOf limits bytes (refused written) =
    (i : ℕ) × (limits i < buffer_size) × ((k : ℕ) × (k < length bytes) × (written ≡ take k bytes))
IsCopyOf limits bytes outside = ⊥
IsCopyOf limits bytes unfinished = ⊥

take_all : (n : ℕ) (xs : List ℕ) → length xs ≤ n → take n xs ≡ xs
take_all n [] le = take_nil n
take_all zero (x ∷ xs) le = absurd (omega (arith, le))
take_all (suc n) (x ∷ xs) le = ap (λ (ys : List ℕ). x ∷ ys) (take_all n xs (omega (arith, le)))

take_twice : (n m : ℕ) (xs : List ℕ) → n ≤ m → take n (take m xs) ≡ take n xs
take_twice zero m xs le = refl
take_twice (suc n) zero xs le = absurd (omega (arith, le))
take_twice (suc n) (suc m) [] le = refl
take_twice (suc n) (suc m) (x ∷ xs) le =
    ap (λ (ys : List ℕ). x ∷ ys) (take_twice n m xs (omega (arith, le)))

-- A round of the copy, if what follows it is a copy.
write_piece-IsCopyOf :
    (limits : ℕ → ℕ) (again : ℕ → Reader → List ℕ → Copy) (i p step : ℕ) (bytes : List ℕ)
    → p + step ≤ length bytes
    → step ≤ buffer_size
    → IsCopyOf limits bytes (again (p + step) (at bytes (p + step)) (take (p + step) bytes))
    → IsCopyOf limits bytes (
        write_piece again
          (limits i)
          p
          (take p bytes)
          (some (take step (drop p bytes), at bytes (p + step))))
unfolding write_piece
write_piece-IsCopyOf limits again i p step bytes le fits next =
    let piece = take step (drop p bytes) in
    let long : length piece ≡ step =
      length-take step (drop p bytes)
      ∙ ap (λ (k : ℕ). min step k) (length-drop p bytes)
      ∙ omega (arith, le) in
    if_cases (IsCopyOf limits bytes) (min (limits i) (length piece) == length piece) _
      (refused (take p bytes ++ take (limits i) piece))
      (λ all_taken. rw (long, take_add p step bytes) next)
      (λ short.
        let less : limits i < step = ground (arith, long, short) in
        let first =
          ap (λ (ys : List ℕ). take p bytes ++ ys)
            (take_twice (limits i) step (drop p bytes) (omega (arith, less))) in
        (
          i,
          omega (arith, less, fits),
          (p + limits i, omega (arith, less, le), first ∙ take_add p (limits i) bytes),
        ))

copy_loop-IsCopyOf :
    (n i : ℕ) (limits : ℕ → ℕ) (p : ℕ) (bytes : List ℕ)
    → p ≤ length bytes
    → length bytes ≤ p + n * buffer_size
    → length bytes < 2 ^ 32
    → IsCopyOf limits bytes (copy_loop (suc n) i limits p (at bytes p) (take p bytes))
unfolding copy_loop
copy_loop-IsCopyOf zero i limits p bytes le enough lt =
    if_cases (IsCopyOf limits bytes) (ltb p (length bytes)) _ (copied (take p bytes))
      (λ more. absurd (ground (arith, more, enough)))
      (λ done. take_all p bytes (ground (arith, done)))
copy_loop-IsCopyOf (suc n) i limits p bytes le enough lt =
    let step = min buffer_size (length bytes - p) in
    let again = copy_loop (suc n) (i + 1) limits in
    let next =
      copy_loop-IsCopyOf n (i + 1) limits (p + step) bytes (omega (arith, le))
        (omega (arith, le, enough)) lt in
    if_cases (IsCopyOf limits bytes) (ltb p (length bytes)) _ (copied (take p bytes))
      (λ more.
        subst
          (λ (o : Option (List ℕ × Reader)).
            IsCopyOf limits bytes (write_piece again (limits i) p (take p bytes) o))
          (sym (read_least buffer_size p bytes le lt))
          (write_piece-IsCopyOf limits again i p step bytes (omega (arith, le)) (omega arith) next))
      (λ done. take_all p bytes (ground (arith, done)))

-- CopyTo of a file of an archive (of less than 2 ^ 32 bytes) comes to an end within the rounds, and reads no
-- byte outside of the file: either all of the bytes are written, in order, or there is a write that takes less
-- than the buffer, and what is written is a first part of them.
pub copy_to-IsCopyOf :
    (limits : ℕ → ℕ) (bytes : List ℕ)
    → length bytes < 2 ^ 32
    → IsCopyOf limits bytes (copy_to limits bytes)
unfolding copy_to
copy_to-IsCopyOf limits bytes lt =
    let rounds : length bytes / buffer_size + 2 ≡ suc (length bytes / buffer_size + 1) =
      omega arith in
    rw rounds (
      copy_loop-IsCopyOf (length bytes / buffer_size + 1) 0 limits 0 bytes (omega arith)
        (omega arith) lt)
