-- ===== src/Json.antt =====
-- heapdump/json.go: JSONStub. What it takes from encoding/json is a record of two functions.
pub mod Graphs
use heaplens.Base.{ℕ, suc, ◌+◌, List, [], ◌∷◌, Bool, true, false, Option, none, some, foldl, take}
use heaplens.Base.{◌==◌, if◌then◌else◌}
use heaplens.Run.{pure, raise, ◌>>=◌}
use heaplens.GoHeap.Wire.{Error, Reader, decoding_json, missing_id}
use heaplens.GoHeap.Parser.{wrapping}
use heaplens.Graph.{Object, ObjId, MemGraph, elements, new_mem_graph, add_object, set_roots}
use heaplens.Registry.{Parser}

-- A slice that is missing in the document is nil, here `none`.
pub record JsonObject : Type 0 where
  pub id : ObjId
  pub typ : List ℕ
  pub size : ℕ
  pub ptrs : Option (List ObjId)

pub record JsonDump : Type 0 where
  pub objects : Option (List JsonObject)
  pub roots : Option (List ObjId)

-- (*json.Decoder).Decode into a jsonDump, and json.Unmarshal into a struct with the one field "objects",
-- which stays raw: `none` for an error, `some none` for a document without the field.
pub record JsonLibrary : Type 0 where
  pub decode : Reader JsonDump
  pub objects_field : List ℕ → Option (Option (List ℕ))

-- Some document with the field.
abbrev has_objects : Option (Option (List ℕ)) → Bool
has_objects none = false
has_objects (some none) = false
has_objects (some (some raw)) = true

-- One Read of 1024 bytes from a reader over bytes in memory.
unfoldable pub can_parse_json : JsonLibrary → List ℕ → Bool
can_parse_json json [] = false
can_parse_json json (byte ∷ bytes) = has_objects (json.objects_field (take 1024 (byte ∷ bytes)))

-- A nil slice as one of length 0: what `range` makes of it, and what Parse puts in its place.
abbrev pub or_empty : {A : Type 0} → Option (List A) → List A
or_empty none = []
or_empty (some xs) = xs

-- The index of the first object, from index `i` on, whose ID is 0.
unfoldable pub find_missing_id : ℕ → List JsonObject → Option ℕ
find_missing_id i [] = none
find_missing_id i (obj ∷ objects) =
    let later = find_missing_id (i + 1) objects in if obj.id == 0 then some i else later

unfoldable pub to_object : JsonObject → Object
to_object obj = record {
  id = obj.id;
  typ = obj.typ;
  size = obj.size;
  ptrs = some (or_empty obj.ptrs);
}

unfoldable pub build_graph : JsonDump → MemGraph
build_graph dump =
    set_roots (record { ids = or_empty dump.roots })
      (foldl (λ g obj. add_object (to_object obj) g) new_mem_graph (or_empty dump.objects))

-- The answer for the index of an object without an ID, if any.
abbrev pub unless_missing : Option ℕ → JsonDump → Reader MemGraph
unless_missing (some i) dump = raise (missing_id i)
unless_missing none dump = pure (build_graph dump)

unfoldable pub parse_json : JsonLibrary → Reader MemGraph
parse_json json = do
  dump ← wrapping decoding_json json.decode
  unless_missing (find_missing_id 0 (or_empty dump.objects)) dump

unfoldable pub json_stub : JsonLibrary → Parser
json_stub json = record { can_parse = can_parse_json json; parse = parse_json json }
