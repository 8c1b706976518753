-- ===== src/Archive/Reader.antt =====
-- Reading a file of an archive: ZipFileImpl and ZipFileImplReader of
-- src/core/vfs/archive/zip/ZipFileImpl.cpp. What minizip and the file that is written answer is an argument.
pub mod Pieces
pub mod Copying
use mgdf.Prelude.Int.{ℤ, pos, negsuc, leb_ℤ}
use mgdf.Prelude.{
  ℕ, zero, suc, ◌+◌, ◌-◌, ◌*◌, ◌/◌, ◌%◌, ◌^◌, ◌≤◌, ◌<◌, min, max, ◌≡◌, refl, sym, ap, ◌∙◌, ◌≢◌, ◌↔◌,
  ◌⊎◌, inl, inr, Bool, true, false, not, ◌&&◌, ◌||◌, Option, none, some, List, [], ◌∷◌, ◌++◌, map,
  append-nil, append_assoc, arith, ltb, leb, ◌==◌, if◌then◌else◌, ltb→lt, lt→ltb, ==_iff, ==_refl,
  Bool-cases, if_cases, Option-cases, length, get_elem?, take, drop, keep, any, all, null,
  length-append, length-take, length-drop, length-keep-le, keep-append, Text, codes, same_text,
  same_text_refl, same_text→eq, same_text_ne, find, insert, assign, find-insert, find-assign,
}

-- ZipFileImplReader; `_size` is the length of `_data`, which `Open` has read.
pub record Reader : Type 0 where
  pub bytes : List ℕ
  pub position : ℤ

abbrev pub size : Reader → ℕ
size r = length r.bytes

-- `static_cast<UINT32>(_size - _readPosition)`.
pub remaining : ℕ → ℤ → ℕ
remaining size (pos p) = (size % 2 ^ 32 + (2 ^ 32 - p % 2 ^ 32)) % 2 ^ 32
remaining size (negsuc p) = (size + (p + 1)) % 2 ^ 32

-- The copy of `n` bytes from a position; `none` if some of them are outside of the data, where the behaviour
-- of the code is undefined.
copy_out : ℕ → List ℕ → ℤ → Option (List ℕ × Reader)
copy_out n bytes (negsuc p) = none
copy_out n bytes (pos p) =
    if leb (p + n) (length bytes)
    then some (take n (drop p bytes), record { bytes = bytes; position = pos (p + n) })
    else none

-- `Read`, into a buffer of the given length.
pub read : ℕ → Reader → Option (List ℕ × Reader)
unfolding remaining copy_out
read length r = copy_out (min length (remaining (size r) r.position)) r.bytes r.position

pub set_position : ℤ → Reader → Reader
set_position p r = record r { position = p }

end_of_file : Reader → Bool
end_of_file r = leb_ℤ (pos (size r)) r.position

-- ZipFileImpl: the size that its header has, and its reader, if it is open.
pub record File : Type 0 where
  pub size : ℕ
  pub reader : Option Reader

abbrev pub new_reader : List ℕ → Reader
new_reader bytes = record { bytes = bytes; position = pos 0 }

pub data Opened : Type 0 where
  access_denied failed : Opened
  opened : Reader → Opened

-- `Open` of a file that is not open, on the bytes that minizip reads, if it reads them without an error.
open_new : Option (List ℕ) → File → File × Opened
open_new none f = (f, failed)
open_new (some bytes) f =
    if ltb 4294967295 f.size
    then (f, failed)
    else (record f { reader = some (new_reader bytes) }, opened (new_reader bytes))

-- `Open`.
open_file : Option (List ℕ) → File → File × Opened
unfolding open_new
open_file content f = elim f.reader [ none ↦ open_new content f | some r ↦ (f, access_denied) ]

-- The end of the reader.
close_file : File → File
close_file f = record f { reader = none }

-- BUFFER_SIZE.
abbrev buffer_size : ℕ
buffer_size = 1048576

-- How `CopyTo` ends, with what was written: S_OK, E_FAIL, or with a read outside of the data; or the rounds
-- are used up.
pub data Copy : Type 0 where
  copied refused : List ℕ → Copy
  outside unfinished : Copy

-- What follows a read, on the most bytes that the writer takes.
write_piece : (ℕ → Reader → List ℕ → Copy) → ℕ → ℕ → List ℕ → Option (List ℕ × Reader) → Copy
write_piece again limit position written none = outside
write_piece again limit position written (some (piece, r)) =
    if min limit (length piece) == length piece
    then again (position + length piece) r (written ++ piece)
    else refused (written ++ take limit piece)

-- The loop of `CopyTo`, on fuel; `limits` are the most bytes that each write takes.
copy_loop : ℕ → ℕ → (ℕ → ℕ) → ℕ → Reader → List ℕ → Copy
unfolding read write_piece
copy_loop zero i limits position r written = unfinished
copy_loop (suc fuel) i limits position r written =
    let rest =
      write_piece (copy_loop fuel (i + 1) limits) (limits i) position written
        (read buffer_size r) in
    if ltb position (size r) then rest else copied written

-- `CopyTo`, after the file and the writer were opened.
pub copy_to : (ℕ → ℕ) → List ℕ → Copy
unfolding copy_loop
copy_to limits bytes = copy_loop (length bytes / buffer_size + 2) 0 limits 0 (new_reader bytes) []
