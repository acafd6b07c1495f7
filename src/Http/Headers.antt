-- ===== src/Http/Headers.antt =====
-- What the headers of a request leave of the entries that are there.
use dpitunnel_cli.Prelude.{
  ◌≡◌, refl, ap, ◌∙◌, ◌⊎◌, inl, inr, false, List, [], ◌∷◌, ◌++◌, map, Option, none, some,
}
use dpitunnel_cli.Prelude.{Bytes, bytes_eq, map_find, length, take-append, is_empty, to_lower}
use dpitunnel_cli.Prelude.TextLaws.{Lacks, find_byte-Lacks, find_byte-append}
use dpitunnel_cli.Http.{
  HttpMessage, message_lines, parse_lines, parse_header, lower_key, header_value, store, method_key,
  path_key, version_key, host_key,
}
use dpitunnel_cli.Http.FirstLine.{message_lines-line}

-- A text within a line.
abbrev pub IsPlain : Bytes → Type 0
IsPlain s = Lacks 10 s × Lacks 13 s

-- The lines of the headers, the empty line, and what follows.
abbrev pub headers_text : List Bytes → Bytes → Bytes
headers_text [] rest = 13 ∷ 10 ∷ rest
headers_text (line ∷ lines) rest = line ++ 13 ∷ 10 ∷ headers_text lines rest

abbrev pub AreLines : List Bytes → Type 0
AreLines [] = Unit
AreLines (line ∷ lines) = (IsPlain line × (is_empty line ≡ false)) × AreLines lines

-- The line names another key, however that is written, or none.
abbrev pub IsOther : Bytes → Bytes → Type 0
IsOther key line =
    Lacks b':' line
    ⊎ ((name : Bytes) × (value : Bytes) × (line ≡ name ++ b':' ∷ value)
        × Lacks b':' name
        × (bytes_eq (map to_lower name) key ≡ false))

abbrev pub AreOther : Bytes → List Bytes → Type 0
AreOther key [] = Unit
AreOther key (line ∷ lines) = IsOther key line × AreOther key lines

-- Headers that are neither `Host` nor one of the names for the parts of the first line.
abbrev pub AreExtra : List Bytes → Type 0
AreExtra lines =
    AreLines lines
    × AreOther method_key lines
    × AreOther path_key lines
    × AreOther version_key lines
    × AreOther host_key lines

pub message_lines-headers :
    (lines : List Bytes) (rest : Bytes)
    → AreLines lines
    → message_lines false [] (headers_text lines rest) ≡ lines ++ [] ∷ message_lines false [] rest
message_lines-headers [] rest l = message_lines-line false [] [] rest tt tt
message_lines-headers (line ∷ lines) rest (l, ls) =
    message_lines-line false [] line (headers_text lines rest) (l.0).0 (l.0).1
    ∙ ap (λ t. line ∷ t) (message_lines-headers lines rest ls)

-- The headers one after the other.
abbrev pub stores : List Bytes → HttpMessage → HttpMessage
stores [] m = m
stores (line ∷ lines) m = stores lines (parse_header line m)

pub parse_lines-stores :
    (lines more : List Bytes) (m : HttpMessage)
    → AreLines lines
    → parse_lines (lines ++ [] ∷ more) m ≡ stores lines m
unfolding parse_lines is_empty
parse_lines-stores [] more m l = refl
parse_lines-stores (line ∷ lines) more m (l, ls) =
    rw (l.1) (parse_lines-stores lines more (parse_header line m) ls)

pub stores-append :
    (before after : List Bytes) (line : Bytes) (m : HttpMessage)
    → stores (before ++ line ∷ after) m ≡ stores after (parse_header line (stores before m))
stores-append [] after line m = refl
stores-append (l ∷ before) after line m = stores-append before after line (parse_header l m)

store-other :
    (name key : Bytes) (o : Option Bytes) (m : HttpMessage)
    → bytes_eq name key ≡ false
    → map_find key (store name o m) ≡ map_find key m
unfolding store map_find
store-other name key none m e = refl
store-other name key (some v) m e = rw e refl

parse_header-named :
    (name value : Bytes) (m : HttpMessage)
    → Lacks b':' name
    → parse_header (name ++ b':' ∷ value) m
      ≡ store (map to_lower name) (header_value (length name) (name ++ b':' ∷ value)) m
unfolding parse_header lower_key
parse_header-named name value m l =
    rw
      (find_byte-append b':' name value l, parse_header, lower_key, take-append name (b':' ∷ value))
      refl

parse_header-none : (line : Bytes) (m : HttpMessage) → Lacks b':' line → parse_header line m ≡ m
unfolding parse_header
parse_header-none line m l = rw (find_byte-Lacks b':' line l, parse_header) refl

parse_header-other :
    (key line : Bytes) (m : HttpMessage)
    → IsOther key line
    → map_find key (parse_header line m) ≡ map_find key m
parse_header-other key line m (inl l) = ap (map_find key) (parse_header-none line m l)
parse_header-other key line m (inr (name, value, e, l, other)) =
    ap (λ t. map_find key (parse_header t m)) e
    ∙ ap (map_find key) (parse_header-named name value m l)
    ∙ store-other (map to_lower name) key _ m other

pub stores-other :
    (key : Bytes) (lines : List Bytes) (m : HttpMessage)
    → AreOther key lines
    → map_find key (stores lines m) ≡ map_find key m
stores-other key [] m o = refl
stores-other key (line ∷ lines) m (o, os) =
    stores-other key lines (parse_header line m) os ∙ parse_header-other key line m o
