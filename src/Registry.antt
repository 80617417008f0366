-- ===== src/Registry.antt =====
-- heapdump/parser.go and heapdump/registry.go: the interface of a parser, and the registry that Open
-- looks one up in. The lock makes Register and Open one step each.
pub mod Order
use heaplens.Base.{List, [], ◌∷◌, ◌++◌, ℕ, Bool, true, false, Option, none, some, if◌then◌else◌}
use heaplens.Run.{Outcome, err}
use heaplens.GoHeap.Wire.{Error, eof, no_parser, Reader}
use heaplens.Graph.{MemGraph}

-- CanParse gets a reader of the bytes that were read for detection, Parse one of the whole input.
pub record Parser : Type 0 where
  pub can_parse : List ℕ → Bool
  pub parse : Reader MemGraph

abbrev pub Registry : Type 0
Registry = List Parser

unfoldable pub register : Parser → Registry → Registry
register p registry = registry ++ p ∷ []

-- An io.Reader by what its first Read gives: the bytes, 4096 at most, the error that comes with them,
-- and the bytes that are still to come.
pub record Source : Type 0 where
  pub first : List ℕ
  pub status : Option Error
  pub rest : List ℕ

-- `err != nil && err != io.EOF`
abbrev pub read_error : Option Error → Option Error
read_error none = none
read_error (some eof) = none
read_error (some e) = some e

-- The loop over the parsers.
unfoldable pub find_parser : Registry → List ℕ → Option Parser
find_parser [] first = none
find_parser (parser ∷ parsers) first =
    let later = find_parser parsers first in if parser.can_parse first then some parser else later

-- The rest of Open, with the error of the first Read and the parser that was found.
abbrev pub parse_with : Option Error → Option Parser → Source → Outcome Error (List ℕ) MemGraph
parse_with (some e) found source = err e source.rest
parse_with none none source = err no_parser source.rest
parse_with none (some parser) source = parser.parse (source.first ++ source.rest)

unfoldable pub open_dump : Registry → Source → Outcome Error (List ℕ) MemGraph
open_dump registry source =
    parse_with (read_error source.status) (find_parser registry source.first) source
