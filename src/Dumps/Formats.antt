-- ===== src/Dumps/Formats.antt =====
-- The parsers that heapdump/json.go and heapdump/goheap/parser.go register in their init functions, the
-- former first, since the package of the latter imports its package.
use heaplens.Base.{ℕ, ◌≡◌, refl, sym, ap, ◌∙◌, arith, List, [], ◌∷◌, ◌++◌, false}
use heaplens.Base.{Bool-cases, inl, inr, none, if◌then◌else◌, length, take, take-append, leb}
use heaplens.Run.{err}
use heaplens.GoHeap.Wire.{no_parser}
use heaplens.GoHeap.Parser.Loop.{magic, bytes_eq, can_parse, parse_dump}
use heaplens.Registry.{Parser, Registry, Source, register, find_parser, open_dump, read_error}
use heaplens.Json.{JsonLibrary, can_parse_json, json_stub}

unfoldable pub go_heap_parser : Parser
go_heap_parser = record { can_parse = can_parse; parse = parse_dump }

unfoldable pub registered : JsonLibrary → Registry
registered json = register go_heap_parser (register (json_stub json) [])

-- No JSON text begins with a letter g.
abbrev pub RejectsDumps : JsonLibrary → Type 0
RejectsDumps json = (bytes : List ℕ) → json.objects_field (b'g' ∷ bytes) ≡ none

-- The magic line is recognised where the first read has it whole.
can_parse-magic :
    (first rest bytes : List ℕ)
    → first ++ rest ≡ magic ++ bytes
    → can_parse first ≡ leb 16 (length first)
unfolding can_parse bytes_eq
can_parse-magic first rest bytes e = elim (Bool-cases (leb 16 (length first))) [
  | inl long ↦
      let header : take 16 first ≡ magic =
        sym (take-append 16 first rest (ground arith)) ∙ ap (take 16) e in
      rw (can_parse, long, header) refl
  | inr short ↦ rw (can_parse, short) refl
]

can_parse_json-magic :
    (json : JsonLibrary) (first rest bytes : List ℕ)
    → RejectsDumps json
    → first ++ rest ≡ magic ++ bytes
    → can_parse_json json first ≡ false
unfolding can_parse_json
can_parse_json-magic json [] rest bytes rejects e = refl
can_parse_json-magic json (x ∷ first) rest bytes rejects e =
    let g : x ≡ b'g' = cc in rw (g, rejects (take 1023 first)) refl

-- Open parses a Go dump, whole, with the parser for Go dumps exactly where the first read gives 16 bytes at
-- least. Where it gives fewer, which an io.Reader may, no parser is found. The read gives no error but
-- the end of the file, and encoding/json rejects a text that begins with g.
pub open_dump-registered :
    (json : JsonLibrary) (source : Source) (bytes : List ℕ)
    → RejectsDumps json
    → read_error source.status ≡ none
    → source.first ++ source.rest ≡ magic ++ bytes
    → open_dump (registered json) source ≡ (
        if leb 16 (length source.first)
        then parse_dump (magic ++ bytes)
        else err no_parser source.rest)
unfolding open_dump registered register find_parser go_heap_parser json_stub
open_dump-registered json source bytes rejects fine e =
    rw
      (
        fine,
        can_parse_json-magic json source.first source.rest bytes rejects e,
        can_parse-magic source.first source.rest bytes e,
      )
      (elim (Bool-cases (leb 16 (length source.first))) [
        | inl long ↦ rw long (ap parse_dump e)
        | inr short ↦ rw short refl
      ])
