-- ===== src/Graph/Paths.antt =====
-- graph/paths.go: breadth-first search from an object along reversed edges to the roots. The int
-- maxPaths is a natural number here: a negative one takes the early return of 0.
pub mod Work
pub mod Termination
pub mod Sound
pub mod Rests
pub mod Lengths
pub mod Scans
pub mod Shortest
use heaplens.Base.{ℕ, zero, suc, List, [], ◌∷◌, ◌++◌, Bool, true, false, ◌||◌, Option, none, some}
use heaplens.Base.{foldl, ltb, leb, ◌==◌, if◌then◌else◌, length}
use heaplens.Base.Dict.{Dict, lookup, insert}
use heaplens.Graph.{Object, ObjId, MemGraph, Order, get_roots}
use heaplens.Graph.Reverse.{ReverseEdges, referrers, build_reverse_edges}

pub record RootPath : Type 0 where
  pub ids : List ObjId

pub record SearchNode : Type 0 where
  pub id : ObjId
  pub path : List ObjId

-- The variables of the search loop.
pub record Search : Type 0 where
  pub result : List RootPath
  pub queue : List SearchNode

-- The loop that sets inPath.
unfoldable pub contains : List ObjId → ObjId → Bool
contains [] id = false
contains (x ∷ xs) id = x == id || contains xs id

unfoldable pub make_root_set : List ObjId → Dict Bool
make_root_set = foldl (λ root_set id. insert id true root_set) []

abbrev pub or_false : Option Bool → Bool
or_false none = false
or_false (some b) = b

-- rootSet[id]
unfoldable pub in_root_set : Dict Bool → ObjId → Bool
in_root_set root_set id = or_false (lookup id root_set)

-- How a round of the inner loop ends: by `break`, or by `continue` or its end.
pub data Visit : Type 0 where
  leave : Search → Visit
  next : Search → Visit

module _ (root_set : Dict Bool) (max_paths : ℕ) where
  -- The body of the loop over the referrers of `node`.
  unfoldable pub visit : SearchNode → ObjId → Search → Visit
  visit node referrer s =
      let new_path = node.path ++ referrer ∷ [] in
      let found : Search = record s { result = s.result ++ record { ids = new_path } ∷ [] } in
      let queued : Search = record s {
        queue = s.queue ++ record { id = referrer; path = new_path } ∷ [];
      } in
      if contains node.path referrer
      then next s
      else if in_root_set root_set referrer
      then (if leb max_paths (length found.result) then leave found else next found)
      else next queued

  unfoldable pub scan : SearchNode → List ObjId → Search → Search
  scan node [] s = s
  scan node (referrer ∷ more) s = elim (visit node referrer s) [
    | leave t ↦ t
    | next t ↦ scan node more t
  ]

  -- The outer loop. `none` means that the rounds ran out.
  unfoldable pub search_loop : ReverseEdges → ℕ → Search → Option (List RootPath)
  search_loop reverse zero s = none
  search_loop reverse (suc fuel) s = elim s.queue [
    | [] ↦ some s.result
    | node ∷ queue ↦ elim (ltb (length s.result) max_paths) [
      | true ↦
          search_loop reverse fuel
            (scan node (referrers reverse node.id) (record s { queue = queue }))
      | false ↦ some s.result
    ]
  ]

abbrev pub start : ObjId → Search
start from = record { result = []; queue = record { id = from; path = from ∷ [] } ∷ [] }

unfoldable pub paths_to_roots : ℕ → Order Object → MemGraph → ObjId → ℕ → Option (List RootPath)
paths_to_roots fuel order g from max_paths =
    let reverse = build_reverse_edges order g in
    let root_set = make_root_set (get_roots g).ids in
    if max_paths == 0
    then some []
    else if in_root_set root_set from
    then some (record { ids = from ∷ [] } ∷ [])
    else search_loop root_set max_paths reverse fuel (start from)
