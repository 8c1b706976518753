-- ===== src/Network/Encoding.antt =====
-- EncodeBody and DecodeBody of src/core/network/impl/HttpCommon.cpp.
use mgdf.Network.Message.{HttpMessage}
use mgdf.Network.Zlib.{
  Zlib, compress_string, decompress_string, decompress_string-compress_string, deflated_size,
}
use mgdf.Prelude.{
  ◌^◌, ◌<◌, ap, length, ◌≡◌, ◌⊎◌, inl, inr, Bool, true, false, not, ◌&&◌, Option, none, some, List,
  [], ◌∷◌, arith, if◌then◌else◌, Option-cases, keep, null, Text, codes, same_text, same_text_refl,
  find,
}

abbrev pub content_encoding : Text
content_encoding = codes "Content-Encoding"

abbrev pub gzip_name : Text
gzip_name = codes "gzip"

abbrev is_gzip : Option Text → Bool
is_gzip none = false
is_gzip (some v) = same_text v gzip_name

-- What `EncodeBody` gives through its references: the bytes to send, and `stripContentEncoding`.
module _ (z : Zlib) where
  encoded : Text → Option Text → Text × Bool
  encoded body none = (body, true)
  encoded body (some storage) = (storage, false)

  pub encode_body : HttpMessage → Text × Bool
  unfolding encoded
  encode_body m =
      if not (null m.body) && is_gzip (find content_encoding m.headers)
      then encoded m.body (compress_string z m.body)
      else (m.body, false)

  -- DecompressString goes on behind what the body holds, and its result is not looked at.
  decoded : Text → Option Text → HttpMessage → HttpMessage
  decoded body none m = record m { body = body }
  decoded body (some v) m =
      if same_text v gzip_name
      then record m { body = (decompress_string z body m.body).0 }
      else record m { error = codes "Unsupported Content-Encoding"; body = [] }

  pub decode_body : Text → HttpMessage → HttpMessage
  unfolding decoded
  decode_body body m =
      if null body then record m { body = [] } else decoded body (find content_encoding m.headers) m

  -- The headers that go out with the body: without Content-Encoding, if it was stripped.
  abbrev pub sent_headers : HttpMessage → Bool → List (Text × Text)
  sent_headers m strip = keep (λ h. not (same_text h.0 content_encoding && strip)) m.headers

find-keep :
    (k : Text) (hs : List (Text × Text)) (strip : Bool)
    → find k (keep (λ h. not (same_text h.0 k && strip)) hs) ≡ (if strip then none else find k hs)
unfolding find
find-keep k [] strip = ground arith
find-keep k ((j, v) ∷ hs) strip = ground (arith, find-keep k hs strip)

-- Whether a message has no Content-Encoding, or asks for gzip.
abbrev IsEncodable : HttpMessage → Type 0
IsEncodable m =
    (find content_encoding m.headers ≡ none) ⊎ (find content_encoding m.headers ≡ some gzip_name)

-- What is sent is received: for a message with no Content-Encoding or with gzip, and fewer than 2 ^ 32
-- bytes before and after the compression, decoding the encoded body under the headers that go out with it
-- into a message with no body yet gives back the body, also when the compression fails.
pub decode_body-encode_body :
    (z : Zlib) (m r : HttpMessage)
    → IsEncodable m
    → length m.body < 2 ^ 32
    → deflated_size z m.body < 2 ^ 32
    → r.body ≡ []
    → r.headers ≡ sent_headers z m (encode_body z m).1
    → (decode_body z (encode_body z m).0 r).body ≡ m.body
unfolding encode_body decode_body
decode_body-encode_body z m r h short small n e = elim (Option-cases (compress_string z m.body)) [
  | inl c ↦ ground (
    arith,
    h,
    e,
    c,
    same_text_refl gzip_name,
    find-keep content_encoding m.headers true,
    find-keep content_encoding m.headers false,
  )
  | inr (t, c) ↦
      let (back, full) = decompress_string-compress_string z m.body t short small c in
      ground (
        arith,
        h,
        e,
        c,
        n,
        same_text_refl gzip_name,
        ap (λ r. r.0) back,
        full,
        find-keep content_encoding m.headers false,
      )
]
