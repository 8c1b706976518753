-- ===== src/Audio/Streams/Decoder.antt =====
-- VorbisStream::DecodeOgg: a buffer is filled from the decoder, and six channels are put into OpenAL's
-- order. A read of the decoder is the number of bytes that it gave, 0 for the end or an error.
pub mod Channels
use mgdf.Prelude.{
  ℕ, zero, suc, ◌+◌, ◌-◌, ◌*◌, ◌/◌, ◌%◌, ◌^◌, ◌≤◌, ◌<◌, min, max, ◌≡◌, refl, sym, ap, ◌∙◌, ◌≢◌, ◌↔◌,
  ◌⊎◌, inl, inr, Bool, true, false, not, ◌&&◌, ◌||◌, Option, none, some, List, [], ◌∷◌, ◌++◌, map,
  append-nil, append_assoc, arith, ltb, leb, ◌==◌, if◌then◌else◌, ltb→lt, lt→ltb, ==_iff, ==_refl,
  Bool-cases, Option-cases, length, get_elem?, take, drop, keep, any, all, null, length-append,
  length-take, length-drop, length-keep-le, keep-append, Text, codes, same_text, same_text_refl,
  same_text→eq, same_text_ne, find, insert, assign, find-insert, find-assign,
}

decode_loop : ℕ → List ℕ → ℕ → ℕ × List ℕ
decode_loop size [] bytes_done = (bytes_done, [])
decode_loop size (zero ∷ rest) bytes_done = (bytes_done, rest)
decode_loop size (suc n ∷ rest) bytes_done =
    let now = bytes_done + min (suc n) (size - bytes_done) in
    let more = decode_loop size rest now in if leb size now then (now, rest) else more

-- The number of bytes, and the reads that are left. The decoder gives no more than was asked for.
unfoldable pub decode_ogg : ℕ → List ℕ → ℕ × List ℕ
unfolding decode_loop
decode_ogg size reads = decode_loop size reads 0

set : List ℕ → ℕ → ℕ → List ℕ
set [] i v = []
set (x ∷ xs) zero v = v ∷ xs
set (x ∷ xs) (suc i) v = x ∷ set xs i v

-- `Swap` of two samples; `none` is an access past the end.
swap : ℕ → ℕ → List ℕ → Option (List ℕ)
unfolding set
swap i j xs = elim (get_elem? xs i) [
  | none ↦ none
  | some a ↦ elim (get_elem? xs j) [ none ↦ none | some b ↦ some (set (set xs i b) j a) ]
]

infixl 5 ◌>>=◌
abbrev ◌>>=◌ : Option (List ℕ) → (List ℕ → Option (List ℕ)) → Option (List ℕ)
none >>= f = none
some xs >>= f = f xs

-- The body of the loop over the samples.
reorder_at : ℕ → List ℕ → Option (List ℕ)
unfolding swap
reorder_at i xs = do
  ys ← swap (i + 1) (i + 2) xs
  zs ← swap (i + 3) (i + 5) ys
  swap (i + 4) (i + 5) zs

-- `for (i = 0; i < samples; i += 6)`, on fuel.
reorder : ℕ → ℕ → ℕ → List ℕ → Option (List ℕ)
unfolding reorder_at
reorder zero samples i xs = some xs
reorder (suc fuel) samples i xs =
    let more = reorder_at i xs >>= λ ys. reorder fuel samples (i + 6) ys in
    if ltb i samples then more else some xs

-- The loop over a buffer of `size` bytes; each round needs a sample, so as many rounds are enough.
pub reorder_buffer : ℕ → List ℕ → Option (List ℕ)
unfolding reorder
reorder_buffer size xs = reorder (size / 2) (size / 2) 0 xs
