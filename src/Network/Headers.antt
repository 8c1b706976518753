-- ===== src/Network/Headers.antt =====
-- The header lines of HTTP messages: HttpClientPendingRequest::WriteResponseHeader of
-- src/core/network/impl/NetworkManagerComponentImpl.cpp, and HttpServer::SendHttpResponse of
-- src/core/network/impl/HttpServer.cpp. The decimal numbers that `mg_printf` writes are arguments.
pub mod RoundTrip
use mgdf.Network.Message.{HttpMessage}
use mgdf.Network.Encoding.{content_encoding}
use mgdf.Prelude.{
  ℕ, zero, suc, ◌+◌, ◌-◌, ◌*◌, ◌/◌, ◌%◌, ◌^◌, ◌≤◌, ◌<◌, min, max, ◌≡◌, refl, sym, ap, ◌∙◌, ◌≢◌, ◌↔◌,
  ◌⊎◌, inl, inr, Bool, true, false, not, ◌&&◌, ◌||◌, Option, none, some, List, [], ◌∷◌, ◌++◌, map,
  append-nil, append_assoc, arith, ltb, leb, ◌==◌, if◌then◌else◌, ltb→lt, lt→ltb, ==_iff, ==_refl,
  Bool-cases, Option-cases, length, get_elem?, take, drop, keep, any, all, null, length-append,
  length-take, length-drop, length-keep-le, keep-append, Text, codes, same_text, same_text_refl,
  same_text→eq, same_text_ne, find, insert, assign, find-insert, find-assign,
}

abbrev is_eol : ℕ → Bool
is_eol c = c == 13 || c == 10

abbrev is_blank : ℕ → Bool
is_blank c = c == 32 || c == 9

abbrev crlf : Text
crlf = 13 ∷ 10 ∷ []

-- The loop of `remove_suffix`: the carriage returns and line feeds at the end go.
strip_end : Text → Text
strip_end [] = []
strip_end (c ∷ cs) = let rest = strip_end cs in if null rest && is_eol c then [] else c ∷ rest

trim_front : Text → Text
trim_front [] = []
trim_front (c ∷ cs) = if is_blank c then trim_front cs else c ∷ cs

unfoldable pub starts_with : Text → Text → Bool
starts_with line [] = true
starts_with [] (p ∷ prefix) = false
starts_with (c ∷ line) (p ∷ prefix) = c == p && starts_with line prefix

push : ℕ → Option (Text × Text) → Option (Text × Text)
push d none = none
push d (some (name, value)) = some (d ∷ name, value)

-- `line.find(':')`, with what stands before and after it.
split_colon : Text → Option (Text × Text)
unfolding push
split_colon [] = none
split_colon (c ∷ cs) = if c == b':' then some ([], cs) else push c (split_colon cs)

add_header : Option (Text × Text) → List (Text × Text) → List (Text × Text)
unfolding trim_front
add_header none hs = hs
add_header (some (name, value)) hs = insert name (trim_front value) hs

-- One call of the callback: the working headers before and after it.
write_response_header : Text → List (Text × Text) → List (Text × Text)
unfolding strip_end starts_with split_colon add_header
write_response_header raw hs =
    let line = strip_end raw in
    if null line
    then hs
    else if starts_with line (codes "HTTP/")
    then []
    else add_header (split_colon line) hs

abbrev header_line : Text → Text → Text
header_line name value = name ++ b':' ∷ 32 ∷ (value ++ crlf)

abbrev pub content_length : Text
content_length = codes "Content-Length"

-- The header lines that the loop of `SendHttpResponse` writes.
header_lines : List (Text × Text) → Bool → List Text
header_lines [] strip = []
header_lines ((name, value) ∷ hs) strip =
    if same_text name content_length || same_text name content_encoding && strip
    then header_lines hs strip
    else header_line name value ∷ header_lines hs strip

-- The lines of the head of a response; `status` is the code and its phrase.
pub response_lines : Text → Text → List (Text × Text) → Bool → List Text
unfolding header_lines
response_lines status size hs strip =
    (codes "HTTP/1.1 " ++ status ++ crlf)
    ∷ (header_lines hs strip ++ header_line content_length size ∷ crlf ∷ [])

-- The client's callback on each line in turn.
pub receive_lines : List Text → List (Text × Text) → List (Text × Text)
receive_lines [] hs = hs
receive_lines (l ∷ ls) hs = receive_lines ls (write_response_header l hs)
