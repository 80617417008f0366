-- ===== src/Dumps/Examples.antt =====
-- The registry, the parsers and Dominators together: the sample dump, and a library for JSON that stands in
-- for encoding/json.
use heaplens.Base.{
  ℕ, ◌≡◌, refl, arith, List, [], ◌∷◌, Option, none, some, map, ◌==◌, if◌then◌else◌, take, drop,
}
use heaplens.Run.{ok, err}
use heaplens.GoHeap.Wire.{no_parser, missing_id}
use heaplens.Graph.{ObjId, MemGraph, get_object, get_roots}
use heaplens.Graph.Dominators.{build_adj, successors}
use heaplens.Graph.Dominators.Edges.{collected, pointers_of}
use heaplens.Registry.{register, open_dump}
use heaplens.Registry.Order.{open_dump-register}
use heaplens.Json.{JsonObject, JsonDump, JsonLibrary, can_parse_json, json_stub, parse_json}
use heaplens.Json.Graphs.{last_with, as_object, parse_json_graph, parse_json_missing}
use heaplens.Dumps.Formats.{RejectsDumps, go_heap_parser, registered, open_dump-registered}
use heaplens.Dumps.Edges.{build_adj-parse_json}
use heaplens.Graph.Examples.{in_order}
use heaplens.Graph.Dominators.{new_forest, number_vertex, dominators}
use heaplens.GoHeap.Parser.Examples.{sample_dump, sample_graph, parse_dump-sample, sample_size}
use heaplens.Dumps.{dominators-parse_dump}

dominators-parse_dump_example :
    dominators 3 in_order sample_graph ≡ ok [] (number_vertex 0 none new_forest)
dominators-parse_dump_example =
    dominators-parse_dump 2 in_order sample_dump sample_graph (99 ∷ []) sample_size
      parse_dump-sample

-- Each byte is an object with that ID and a pointer to 1, and 1 and 2 are the roots; the bytes of a field
-- follow an opening brace.
abbrev toy_object : ℕ → JsonObject
toy_object id = record { id = id; typ = []; size = 8; ptrs = some (1 ∷ []) }

abbrev toy_dump : List ℕ → JsonDump
toy_dump ids = record { objects = some (map toy_object ids); roots = some (1 ∷ 2 ∷ []) }

abbrev toy_field : List ℕ → Option (Option (List ℕ))
toy_field [] = none
toy_field (byte ∷ bytes) = if byte == b'{' then some (some bytes) else none

abbrev toy_json : JsonLibrary
toy_json = record { decode = λ input. ok (toy_dump input) []; objects_field = toy_field }

toy-RejectsDumps : RejectsDumps toy_json
toy-RejectsDumps bytes = refl

open_dump-register_example :
    open_dump
      (register go_heap_parser (json_stub toy_json ∷ []))
      (record { first = b'{' ∷ 1 ∷ []; status = none; rest = 2 ∷ [] })
    ≡ open_dump
        (json_stub toy_json ∷ [])
        (record { first = b'{' ∷ 1 ∷ []; status = none; rest = 2 ∷ [] })
unfolding json_stub can_parse_json
open_dump-register_example =
    open_dump-register go_heap_parser (json_stub toy_json ∷ [])
      (record { first = b'{' ∷ 1 ∷ []; status = none; rest = 2 ∷ [] })

-- The first read stops in the middle of the magic line.
open_dump-registered_example :
    open_dump
      (registered toy_json)
      (record { first = take 15 sample_dump; status = none; rest = drop 15 sample_dump })
    ≡ err no_parser (drop 15 sample_dump)
open_dump-registered_example =
    open_dump-registered toy_json
      (record { first = take 15 sample_dump; status = none; rest = drop 15 sample_dump })
      (drop 16 sample_dump) toy-RejectsDumps refl refl

parse_json_graph_example :
    (g : MemGraph) × (parse_json toy_json (3 ∷ 2 ∷ 3 ∷ []) ≡ ok g [])
    × ((id : ObjId) → get_object g id ≡ as_object (last_with id (map toy_object (3 ∷ 2 ∷ 3 ∷ []))))
    × ((get_roots g).ids ≡ 1 ∷ 2 ∷ [])
parse_json_graph_example =
    parse_json_graph toy_json (3 ∷ 2 ∷ 3 ∷ []) [] (toy_dump (3 ∷ 2 ∷ 3 ∷ [])) refl
      (omega arith, (omega arith, (omega arith, tt)))

parse_json_missing_example : parse_json toy_json (3 ∷ 0 ∷ 0 ∷ []) ≡ err (missing_id 1) []
parse_json_missing_example =
    parse_json_missing toy_json (3 ∷ 0 ∷ 0 ∷ []) [] (toy_dump (3 ∷ 0 ∷ 0 ∷ [])) (toy_object 3 ∷ [])
      (toy_object 0) (toy_object 0 ∷ []) refl refl (omega arith, tt) refl

build_adj-parse_json_example :
    (g : MemGraph) × (parse_json toy_json (3 ∷ 2 ∷ []) ≡ ok g [])
    × ((id : ObjId)
        → successors (build_adj (collected in_order g) (get_roots g).ids) id ≡ (
            if id == 0
            then 1 ∷ 2 ∷ []
            else pointers_of (as_object (last_with id (map toy_object (3 ∷ 2 ∷ []))))))
build_adj-parse_json_example =
    build_adj-parse_json toy_json in_order (3 ∷ 2 ∷ []) [] (toy_dump (3 ∷ 2 ∷ [])) refl
      (omega arith, (omega arith, tt))
