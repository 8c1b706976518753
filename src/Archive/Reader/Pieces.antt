-- ===== src/Archive/Reader/Pieces.antt =====
-- Reading a file of an archive piece by piece.
use mgdf.Prelude.Int.{pos}
use mgdf.Archive.Reader.{Reader, size, remaining, copy_out, read, set_position, new_reader}
use mgdf.Prelude.{
  ℕ, zero, suc, ◌+◌, ◌-◌, ◌^◌, ◌≤◌, ◌<◌, min, ◌≡◌, refl, sym, ap, ◌∙◌, true, false, Option, none,
  some, List, [], ◌∷◌, ◌++◌, arith, leb, length, take, drop, length-drop,
}

-- What is read by a read and by others after it.
followed : (Reader → Option (List ℕ × Reader)) → Option (List ℕ × Reader) → Option (List ℕ × Reader)
followed others none = none
followed others (some (piece, r)) = elim (others r) [
  | none ↦ none
  | some (rest, s) ↦ some (piece ++ rest, s)
]

-- Reads of these lengths, one after the other: all that they read, and the reader after them.
pub read_all : List ℕ → Reader → Option (List ℕ × Reader)
unfolding read followed
read_all [] r = some ([], r)
read_all (n ∷ ns) r = followed (read_all ns) (read n r)

abbrev pub total : List ℕ → ℕ
total [] = 0
total (n ∷ ns) = n + total ns

abbrev pub at : List ℕ → ℕ → Reader
at bytes p = record { bytes = bytes; position = pos p }

remaining_lem : (n p : ℕ) → p ≤ n → n < 2 ^ 32 → remaining n (pos p) ≡ n - p
unfolding remaining
remaining_lem n p le lt = omega (arith, le, lt)

pub take_nil : (n : ℕ) → take {A = ℕ} n [] ≡ []
take_nil zero = refl
take_nil (suc n) = refl

drop_nil : (n : ℕ) → drop {A = ℕ} n [] ≡ []
drop_nil zero = refl
drop_nil (suc n) = refl

pub take_add : (n m : ℕ) (xs : List ℕ) → take n xs ++ take m (drop n xs) ≡ take (n + m) xs
take_add zero m xs = ground arith
take_add (suc n) m [] = take_nil m ∙ sym (take_nil (suc n + m))
take_add (suc n) m (x ∷ xs) =
    let sum : suc n + m ≡ suc (n + m) = omega arith in
    rw sum (ap (λ (ys : List ℕ). x ∷ ys) (take_add n m xs))

drop_add : (p n : ℕ) (xs : List ℕ) → drop n (drop p xs) ≡ drop (p + n) xs
drop_add zero n xs = ap (λ (k : ℕ). drop k xs) (omega arith)
drop_add (suc p) n [] = drop_nil n ∙ sym (drop_nil (suc p + n))
drop_add (suc p) n (x ∷ xs) =
    let sum : suc p + n ≡ suc (p + n) = omega arith in rw sum (drop_add p n xs)

take_least : (n : ℕ) (xs : List ℕ) → take (min n (length xs)) xs ≡ take n xs
take_least zero xs = ground arith
take_least (suc n) [] = take_nil (min (suc n) 0)
take_least (suc n) (x ∷ xs) =
    let least : min (suc n) (suc (length xs)) ≡ suc (min n (length xs)) = omega arith in
    rw least (ap (λ (ys : List ℕ). x ∷ ys) (take_least n xs))

drop_least : (n : ℕ) (xs : List ℕ) → drop (min n (length xs)) xs ≡ drop n xs
drop_least zero xs = let none_left : min 0 (length xs) ≡ 0 = omega arith in rw none_left refl
drop_least (suc n) [] = drop_nil (min (suc n) 0)
drop_least (suc n) (x ∷ xs) =
    let least : min (suc n) (suc (length xs)) ≡ suc (min n (length xs)) = omega arith in
    rw least (drop_least n xs)

-- Two pieces of a file, where the first one ends at the end of the file at most.
pieces :
    (n m p : ℕ) (bytes : List ℕ)
    → take n (drop p bytes) ++ take m (drop (p + min n (length bytes - p)) bytes)
      ≡ take (n + m) (drop p bytes)
pieces n m p bytes =
    let there : length (drop p bytes) ≡ length bytes - p = length-drop p bytes in
    let after : drop (p + min n (length bytes - p)) bytes ≡ drop n (drop p bytes) =
      sym (drop_add p (min n (length bytes - p)) bytes)
      ∙ ap (λ (k : ℕ). drop (min n k) (drop p bytes)) (sym there)
      ∙ drop_least n (drop p bytes) in
    ap (λ (xs : List ℕ). take n (drop p bytes) ++ take m xs) after ∙ take_add n m (drop p bytes)

-- A read in the file reads what is there, up to its end.
pub read_least :
    (n p : ℕ) (bytes : List ℕ)
    → p ≤ length bytes
    → length bytes < 2 ^ 32
    → let step = min n (length bytes - p) in
      read n (at bytes p) ≡ some (take step (drop p bytes), at bytes (p + step))
unfolding read copy_out
read_least n p bytes le lt =
    let left = remaining_lem (length bytes) p le lt in
    let within : leb (p + min n (length bytes - p)) (length bytes) ≡ true = ground (arith, le) in
    rw (left, within) refl

read_piece :
    (n p : ℕ) (bytes : List ℕ)
    → p ≤ length bytes
    → length bytes < 2 ^ 32
    → read n (at bytes p) ≡ some (take n (drop p bytes), at bytes (p + min n (length bytes - p)))
read_piece n p bytes le lt =
    let there : length (drop p bytes) ≡ length bytes - p = length-drop p bytes in
    let piece : take (min n (length bytes - p)) (drop p bytes) ≡ take n (drop p bytes) =
      ap (λ (k : ℕ). take (min n k) (drop p bytes)) (sym there) ∙ take_least n (drop p bytes) in
    read_least n p bytes le lt
    ∙ ap (λ (xs : List ℕ). some (xs, at bytes (p + min n (length bytes - p)))) piece

from_place :
    (ns : List ℕ) (p : ℕ) (bytes : List ℕ)
    → p ≤ length bytes
    → length bytes < 2 ^ 32
    → read_all ns (at bytes p)
      ≡ some (take (total ns) (drop p bytes), at bytes (p + min (total ns) (length bytes - p)))
unfolding read_all
from_place [] p bytes le lt = ap (λ (k : ℕ). some ([], at bytes k)) (omega arith)
from_place (n ∷ ns) p bytes le lt =
    let step = min n (length bytes - p) in
    let rest = from_place ns (p + step) bytes (omega (arith, le)) lt in
    let ends : p + step + min (total ns) (length bytes - (p + step))
        ≡ p + min (n + total ns) (length bytes - p) =
      omega (arith, le) in
    let whole : (take n (drop p bytes) ++ take (total ns) (drop (p + step) bytes))
        ≡ take (n + total ns) (drop p bytes) =
      pieces n (total ns) p bytes in
    rw (read_piece n p bytes le lt, rest, ends)
      (ap (λ (xs : List ℕ). some (xs, at bytes (p + min (n + total ns) (length bytes - p)))) whole)

-- Reads of any lengths from the start of a file of an archive (of less than 2 ^ 32 bytes) read its bytes in
-- order, as many as the lengths make together, and stop at the end of the file, where the reader then stands.
pub read_all-take :
    (ns : List ℕ) (bytes : List ℕ)
    → length bytes < 2 ^ 32
    → read_all ns (new_reader bytes)
      ≡ some (take (total ns) bytes, at bytes (min (total ns) (length bytes)))
read_all-take ns bytes lt =
    from_place ns 0 bytes (omega arith) lt
    ∙ ap (λ (k : ℕ). some (take (total ns) bytes, at bytes k)) (omega arith)

-- At a place that SetPosition has set behind the end of a file of an archive (less than 2 ^ 32), Read finds that
-- 2 ^ 32 bytes less the distance to the end are left, and not none, and a read of a byte or more copies from
-- outside of the file's bytes.
pub read-set_position :
    (n p : ℕ) (r : Reader)
    → size r < p
    → p < 2 ^ 32
    → 0 < n
    → (remaining (size r) (pos p) ≡ 2 ^ 32 - (p - size r))
      × (read n (set_position (pos p) r) ≡ none)
unfolding read copy_out remaining set_position
read-set_position n p r behind lt some_bytes =
    let m = min n (remaining (size r) (pos p)) in
    let outside : leb (p + m) (size r) ≡ false = ground (arith, behind) in
    (omega (arith, behind, lt), rw outside refl)
