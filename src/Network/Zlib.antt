-- ===== src/Network/Zlib.antt =====
-- CompressString and DecompressString of src/core/common/MGDFResources.cpp. zlib is not modelled: `Zlib`
-- gives what the successive calls of deflate and inflate put into their buffers, the last of them being the
-- first that does not return Z_OK.
use mgdf.Prelude.{
  ℕ, ◌+◌, ◌%◌, ◌^◌, ◌<◌, ◌≡◌, refl, sym, ap, ◌∙◌, Bool, true, false, Option, none, some, List, [],
  ◌∷◌, ◌++◌, append-nil, append_assoc, arith, length, length-append, take, null, Text,
}

abbrev pub joined : List Text → Text
joined [] = []
joined (c ∷ cs) = c ++ joined cs

-- The pieces and whether the last call returns Z_STREAM_END; `none` if the set-up of the stream fails. The
-- laws: a stream that deflate ends is not empty, and inflate, given the memory that it needs, gives its
-- content back.
pub record Zlib : Type 0 where
  pub deflates : Text → Option (List Text × Bool)
  pub inflates : Text → Option (List Text × Bool)
  pub inflates-deflates :
      (s : Text) (cs : List Text)
      → deflates s ≡ some (cs, true)
      → (ds : List Text) × (inflates (joined cs) ≡ some (ds, true)) × (joined ds ≡ s)
  pub deflates_nonempty :
      (s : Text) (cs : List Text) → deflates s ≡ some (cs, true) → null (joined cs) ≡ false

-- The bytes that zlib is given: their number is cast to a 32-bit `uInt`.
abbrev given : Text → Text
given s = take (length s % 2 ^ 32) s

-- The loops: each call writes behind `out`, which is then cut to the bytes of all calls, `total_out`, a
-- 32-bit number on Windows. It is never longer than `out`.
fill : List Text → Text → ℕ → Text
fill [] out total = out
fill (c ∷ cs) out total = let now = (total + length c) % 2 ^ 32 in fill cs (take now (out ++ c)) now

-- `none` is the result `false`.
compressed : Option (List Text × Bool) → Option Text
unfolding fill
compressed none = none
compressed (some (cs, true)) = some (fill cs [] 0)
compressed (some (cs, false)) = none

decompressed : Text → Option (List Text × Bool) → Text × Bool
unfolding fill
decompressed out none = (out, false)
decompressed out (some (cs, ended)) = (fill cs out 0, ended)

-- The number of bytes that deflate gives for a text.
abbrev size_of : Option (List Text × Bool) → ℕ
size_of none = 0
size_of (some (cs, ended)) = length (joined cs)

module _ (z : Zlib) where
  -- `out` is cleared before the loop.
  pub compress_string : Text → Option Text
  unfolding compressed
  compress_string s = compressed (z.deflates (given s))

  -- The second argument is what `out` holds before the call.
  pub decompress_string : Text → Text → Text × Bool
  unfolding decompressed
  decompress_string s out = decompressed out (z.inflates (given s))

  abbrev pub deflated_size : Text → ℕ
  deflated_size s = size_of (z.deflates s)

take-length : (n : ℕ) (s : Text) → n ≡ length s → take n s ≡ s
take-length n [] e = rw e refl
take-length n (x ∷ s) e = rw e (ap (λ r. x ∷ r) (take-length (length s) s refl))

given-short : (s : Text) → length s < 2 ^ 32 → given s ≡ s
given-short s lt = take-length (length s % 2 ^ 32) s (omega (arith, lt))

fill-joined :
    (cs : List Text) (out : Text) (n : ℕ)
    → n ≡ length out
    → n + length (joined cs) < 2 ^ 32
    → fill cs out n ≡ out ++ joined cs
unfolding fill
fill-joined [] out n e lt = sym (append-nil out)
fill-joined (c ∷ cs) out n e lt =
    let long = length-append c (joined cs) in
    let now : (n + length c) % 2 ^ 32 ≡ length (out ++ c) =
      omega (arith, e, lt, long, length-append out c) in
    rw (take-length ((n + length c) % 2 ^ 32) (out ++ c) now) (
      fill-joined cs (out ++ c) ((n + length c) % 2 ^ 32) now (omega (arith, e, lt, long))
      ∙ append_assoc out c (joined cs))

-- A compression that went well is the whole stream of deflate.
compressed-joined :
    (r : Option (List Text × Bool)) (t : Text)
    → size_of r < 2 ^ 32
    → compressed r ≡ some t
    → (cs : List Text) × (r ≡ some (cs, true)) × (t ≡ joined cs)
unfolding compressed
compressed-joined none t lt e = absurd (ground (arith, e))
compressed-joined (some (cs, false)) t lt e = absurd (ground (arith, e))
compressed-joined (some (cs, true)) t lt e =
    (cs, refl, ground (arith, e, fill-joined cs [] 0 refl (omega (arith, lt))))

inflated :
    (z : Zlib) (s t : Text) (cs : List Text)
    → length s < 2 ^ 32
    → length t < 2 ^ 32
    → t ≡ joined cs
    → z.deflates s ≡ some (cs, true)
    → decompress_string z t [] ≡ (s, true)
unfolding decompress_string decompressed
inflated z s t cs short small j d =
    let (ds, i, k) = z.inflates-deflates s cs d in
    rw (given-short t small, j, i)
      (ap (λ r. (r, true)) (fill-joined ds [] 0 refl (rw k (omega (arith, short))) ∙ k))

-- A text that is compressed is given back by decompression into an empty string.
pub decompress_string-compress_string :
    (z : Zlib) (s t : Text)
    → length s < 2 ^ 32
    → deflated_size z s < 2 ^ 32
    → compress_string z s ≡ some t
    → (decompress_string z t [] ≡ (s, true)) × (null t ≡ false)
unfolding compress_string
decompress_string-compress_string z s t short small e =
    let (cs, d, j) = compressed-joined (z.deflates s) t small (rw (given-short s short) at e) in
    let fits : length t < 2 ^ 32 = rw j (rw d at small) in
    (inflated z s t cs short fits j d, rw j (z.deflates_nonempty s cs d))
