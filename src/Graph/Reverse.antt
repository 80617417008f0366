-- ===== src/Graph/Reverse.antt =====
-- graph/reverse.go: the objects that point to each object.
pub mod Counts
pub mod Bounds
use heaplens.Base.{ℕ, List, [], ◌∷◌, ◌++◌, Option, none, some, foldl}
use heaplens.Base.Dict.{Dict, lookup, insert}
use heaplens.Graph.{Object, ObjId, MemGraph, Order, for_each_object, elements}

abbrev pub ReverseEdges : Type 0
ReverseEdges = Dict (List ObjId)

-- reverse[id], where a missing key reads as the nil slice.
unfoldable pub referrers : ReverseEdges → ObjId → List ObjId
referrers reverse id = elements (lookup id reverse)

-- reverse[targetID] = append(reverse[targetID], obj.ID)
unfoldable pub add_referrer : ObjId → ReverseEdges → ObjId → ReverseEdges
add_referrer id reverse target = insert target (referrers reverse target ++ id ∷ []) reverse

unfoldable pub add_referrers : ReverseEdges → Object → ReverseEdges
add_referrers reverse obj = foldl (add_referrer obj.id) reverse (elements obj.ptrs)

unfoldable pub build_reverse_edges : Order Object → MemGraph → ReverseEdges
build_reverse_edges order g = for_each_object order g add_referrers []
