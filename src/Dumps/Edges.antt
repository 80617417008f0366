-- ===== src/Dumps/Edges.antt =====
-- A JSON document through heapdump/json.go and into the adjacency lists of graph/dominators.go.
use heaplens.Base.{ℕ, ◌≡◌, List, All, ◌==◌, if◌then◌else◌}
use heaplens.Run.{ok}
use heaplens.Graph.{ObjId, MemGraph, Order, Object, get_roots}
use heaplens.Graph.Dominators.{build_adj, successors}
use heaplens.Graph.Dominators.Edges.{collected, pointers_of, build_adj_edges}
use heaplens.Json.{JsonDump, JsonLibrary, or_empty, parse_json}
use heaplens.Json.Graphs.{HasId, last_with, as_object, parse_json_graph, parse_json-IsKeyed}

-- Where a JSON document decodes and all its objects have IDs, Parse succeeds, and Dominators works on
-- exactly the edges of the document: from the super-root 0 to its roots, and from each ID to the
-- pointers of the last object with it, in whatever order the graph is visited.
pub build_adj-parse_json :
    (json : JsonLibrary) (order : Order Object) (input rest : List ℕ) (dump : JsonDump)
    → json.decode input ≡ ok dump rest
    → All HasId (or_empty dump.objects)
    → (g : MemGraph) × (parse_json json input ≡ ok g rest)
      × ((id : ObjId)
          → successors (build_adj (collected order g) (get_roots g).ids) id ≡ (
              if id == 0
              then or_empty dump.roots
              else pointers_of (as_object (last_with id (or_empty dump.objects)))))
build_adj-parse_json json order input rest dump decoded ids =
    let (g, parsed, found, rooted) = parse_json_graph json input rest dump decoded ids in
    let (keyed, no_zero) = parse_json-IsKeyed json input rest g parsed in
    (g, parsed, λ id. rw (← rooted, ← found id) (build_adj_edges order g keyed no_zero id))
