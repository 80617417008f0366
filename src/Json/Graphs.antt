-- ===== src/Json/Graphs.antt =====
-- heapdump/json.go: the graph that Parse builds.
use heaplens.Base.{ℕ, ◌+◌, ◌≡◌, ◌≢◌, refl, ap, ◌∙◌, arith, List, [], ◌∷◌, ◌++◌, foldl}
use heaplens.Base.{
  Bool-cases, inl, inr, ◌==◌, Option, Option-cases, none, some, if◌then◌else◌, All, length,
}
use heaplens.Base.Dict.{lookup, lookup-insert}
use heaplens.Run.{Outcome, ok, err, panic, stuck, continue, ◌>>=◌}
use heaplens.GoHeap.Wire.{Error, missing_id, decoding_json}
use heaplens.GoHeap.Parser.{wrapping, in_context}
use heaplens.Graph.{
  Object, ObjId, MemGraph, get_object, get_roots, add_object, new_mem_graph, set_roots,
}
use heaplens.Graph.Keyed.{IsKeyed, insert-IsKeyed}
use heaplens.Json.{
  JsonObject, JsonDump, JsonLibrary, or_empty, find_missing_id, to_object, build_graph,
}
use heaplens.Json.{parse_json, unless_missing}
use mathlib.Core.Option.{some-ne-none}

-- The last object of the list that has the ID.
abbrev pub last_with : ObjId → List JsonObject → Option JsonObject
last_with id [] = none
last_with id (obj ∷ objects) = elim (last_with id objects) [
  | some later ↦ some later
  | none ↦ if obj.id == id then some obj else none
]

abbrev pub as_object : Option JsonObject → Option Object
as_object none = none
as_object (some obj) =
    some (record { id = obj.id; typ = obj.typ; size = obj.size; ptrs = some (or_empty obj.ptrs) })

-- The last object of the list with the ID, or else what was there.
abbrev or_else : Option Object → Option Object → Option Object
or_else none before = before
or_else (some obj) before = some obj

get_object-added :
    (id : ObjId) (objects : List JsonObject) (g : MemGraph)
    → get_object (foldl (λ g obj. add_object (to_object obj) g) g objects) id
      ≡ or_else (as_object (last_with id objects)) (get_object g id)
unfolding get_object add_object to_object
get_object-added id [] g = refl
get_object-added id (obj ∷ objects) g =
    get_object-added id objects _ ∙ elim (Option-cases (last_with id objects)) [
      | inl none_later ↦
          rw none_later (ground (arith, lookup-insert obj.id id (to_object obj) g.objects))
      | inr (later, e) ↦ rw e refl
    ]

IsKeyed-added :
    (objects : List JsonObject) (g : MemGraph)
    → IsKeyed g.objects
    → IsKeyed (foldl (λ g obj. add_object (to_object obj) g) g objects).objects
unfolding add_object
IsKeyed-added [] g h = h
IsKeyed-added (obj ∷ objects) g h =
    IsKeyed-added objects _ (insert-IsKeyed (to_object obj) g.objects h)

abbrev pub HasId : JsonObject → Type 0
HasId obj = obj.id ≢ 0

find_missing_id-none :
    (i : ℕ) (objects : List JsonObject) → All HasId objects → find_missing_id i objects ≡ none
unfolding find_missing_id
find_missing_id-none i [] h = refl
find_missing_id-none i (obj ∷ objects) (h, hs) =
    ground (arith, find_missing_id-none (i + 1) objects hs)

find_missing_id-some :
    (i : ℕ) (before : List JsonObject) (obj : JsonObject) (after : List JsonObject)
    → All HasId before
    → obj.id ≡ 0
    → find_missing_id i (before ++ obj ∷ after) ≡ some (i + length before)
unfolding find_missing_id
find_missing_id-some i [] obj after h e = ground arith
find_missing_id-some i (other ∷ before) obj after (h, hs) e =
    ground (arith, find_missing_id-some (i + 1) before obj after hs e)

last_with-zero :
    (i : ℕ) (objects : List JsonObject)
    → find_missing_id i objects ≡ none
    → last_with 0 objects ≡ none
unfolding find_missing_id
last_with-zero i [] e = refl
last_with-zero i (obj ∷ objects) e = elim (Bool-cases (obj.id == 0)) [
  | inl zero_id ↦
      let found : some i ≡ none = rw (← e, zero_id) refl in absurd (some-ne-none i found)
  | inr other ↦ rw (last_with-zero (i + 1) objects (ground arith), other) refl
]

get_object-build_graph :
    (dump : JsonDump) (id : ObjId)
    → get_object (build_graph dump) id ≡ as_object (last_with id (or_empty dump.objects))
unfolding build_graph set_roots get_object
get_object-build_graph dump id =
    get_object-added id (or_empty dump.objects) new_mem_graph
    ∙ elim (Option-cases (last_with id (or_empty dump.objects))) [
      | inl gone ↦ rw gone (unfold new_mem_graph lookup in refl)
      | inr (obj, found) ↦ rw found refl
    ]

-- Where the document decodes and every object has an ID, Parse returns the graph in which each ID has
-- the last object of the document with that ID, nil pointers made empty, and no other ID has one; the
-- roots are those of the document.
pub parse_json_graph :
    (json : JsonLibrary) (input rest : List ℕ) (dump : JsonDump)
    → json.decode input ≡ ok dump rest
    → All HasId (or_empty dump.objects)
    → (g : MemGraph) × (parse_json json input ≡ ok g rest)
      × ((id : ObjId) → get_object g id ≡ as_object (last_with id (or_empty dump.objects)))
      × ((get_roots g).ids ≡ or_empty dump.roots)
unfolding parse_json wrapping ◌>>=◌ build_graph set_roots get_roots
parse_json_graph json input rest dump decoded ids = (
  build_graph dump,
  rw decoded (rw (find_missing_id-none 0 (or_empty dump.objects) ids) refl),
  get_object-build_graph dump,
  refl,
)

-- Where the document decodes and an object has ID 0, or none at all, which is the same, Parse returns an
-- error with the index of the first such object, and no graph.
pub parse_json_missing :
    (json : JsonLibrary) (input rest : List ℕ) (dump : JsonDump) (before : List JsonObject)
    (obj : JsonObject) (after : List JsonObject)
    → json.decode input ≡ ok dump rest
    → or_empty dump.objects ≡ before ++ obj ∷ after
    → All HasId before
    → obj.id ≡ 0
    → parse_json json input ≡ err (missing_id (length before)) rest
unfolding parse_json wrapping ◌>>=◌
parse_json_missing json input rest dump before obj after decoded e ids zero_id =
    let index : find_missing_id 0 (or_empty dump.objects) ≡ some (length before) =
      rw e (find_missing_id-some 0 before obj after ids zero_id ∙ ap some (omega arith)) in
    rw decoded (rw index refl)

IsKeyed-build_graph : (dump : JsonDump) → IsKeyed (build_graph dump).objects
unfolding build_graph set_roots new_mem_graph
IsKeyed-build_graph dump = IsKeyed-added (or_empty dump.objects) new_mem_graph tt

answer-built :
    (dump : JsonDump) (missing : Option ℕ) (s rest : List ℕ) (g : MemGraph)
    → find_missing_id 0 (or_empty dump.objects) ≡ missing
    → unless_missing missing dump s ≡ ok g rest
    → IsKeyed g.objects × (get_object g 0 ≡ none)
unfolding ◌>>=◌
answer-built dump (some i) s rest g m e = let impossible : ⊥ = cc in absurd impossible
answer-built dump none s rest g m e =
    let built : build_graph dump ≡ g = cc in
    rw (← built) (
      IsKeyed-build_graph dump,
      get_object-build_graph dump 0 ∙ rw (last_with-zero 0 (or_empty dump.objects) m) refl,
    )

outcome-built :
    (o : Outcome Error (List ℕ) JsonDump) (rest : List ℕ) (g : MemGraph)
    → continue
        (in_context decoding_json o)
        (λ dump. unless_missing (find_missing_id 0 (or_empty dump.objects)) dump)
      ≡ ok g rest
    → IsKeyed g.objects × (get_object g 0 ≡ none)
outcome-built (ok dump s) rest g e = answer-built dump _ s rest g refl e
outcome-built (err e' s) rest g e = let impossible : ⊥ = cc in absurd impossible
outcome-built panic rest g e = let impossible : ⊥ = cc in absurd impossible
outcome-built stuck rest g e = let impossible : ⊥ = cc in absurd impossible

-- In the graph that Parse returns, every object is stored under its own ID, once, and none has ID 0.
pub parse_json-IsKeyed :
    (json : JsonLibrary) (input rest : List ℕ) (g : MemGraph)
    → parse_json json input ≡ ok g rest
    → IsKeyed g.objects × (get_object g 0 ≡ none)
unfolding parse_json wrapping ◌>>=◌
parse_json-IsKeyed json input rest g e = outcome-built (json.decode input) rest g e
