-- ===== src/Graph/Dominators/Answers.antt =====
-- graph/domtree.go on graph/dominators.go: DominatorPath and IsDominated with the map of Dominators.
use heaplens.Base.{ℕ, suc, ◌<◌, ◌≡◌, ◌≢◌, arith, List, some, length}
use heaplens.Base.Dict.{Dict}
use heaplens.Base.Entries.{All-lookup}
use heaplens.Run.{ok}
use heaplens.Graph.{Object, ObjId, MemGraph, Order, get_roots}
use heaplens.Graph.Paths.{contains}
use heaplens.Graph.Dominators.{Forest, dominators}
use heaplens.Graph.Dominators.Edges.{collected}
use heaplens.Graph.Dominators.Total.{nodes_of, number_of, dominators-IsAcyclic}
use heaplens.Graph.Tree.{dominator_path, is_dominated}
use heaplens.Graph.Tree.Ancestors.{is_dominated-dominator_path}

-- With the map that Dominators returns for any graph, DominatorPath and IsDominated come to an end on
-- every node, within one round more than the number that the search gave to the node, and a dominator
-- other than the super-root dominates the node exactly when it is on the path. The fuel of Dominators
-- is above the number of edges in the adjacency lists plus one.
pub is_dominated-dominators :
    (fuel : ℕ) (order : Order Object) (g : MemGraph) (node d : ObjId)
    → length (nodes_of (collected order g) (get_roots g).ids) < fuel
    → d ≢ 0
    → (idom : Dict ObjId) × (s : Forest) × (dominators fuel order g ≡ ok idom s)
      × (path : List ObjId) × (dominator_path (suc (number_of s node)) idom node ≡ some path)
      × (is_dominated (suc (number_of s node)) idom node d ≡ some (contains path d))
is_dominated-dominators fuel order g node d enough nonzero =
    let (idom, s, e, acyclic, small) = dominators-IsAcyclic fuel order g enough in
    let (path, ends, same) =
      is_dominated-dominator_path (number_of s) idom node d (suc (number_of s node))
        (λ v dom found other. (All-lookup _ v dom idom acyclic.below found).0) nonzero
        (omega arith) in
    (idom, s, e, path, ends, same)
