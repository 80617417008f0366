-- ===== src/Graph/Examples.antt =====
-- graph/: runs on a small graph, and the theorems at concrete inputs.
use heaplens.Base.{Bool-cases, ◌-◌, inr, ◌==◌}
use heaplens.Base.{
  ℕ, ◌≡◌, ◌≢◌, ◌≤◌, refl, arith, List, [], ◌∷◌, inl, Option, none, some, length, All,
}
use heaplens.Base.Dict.{lookup, insert, delete}
use heaplens.Run.{Outcome, ok, ◌>>=◌}
use heaplens.Graph.{Object, ObjId, MemGraph, Order, values, for_each_object, get_roots}
use heaplens.Graph.Reverse.{referrers, add_referrer, add_referrers, build_reverse_edges}
use heaplens.Graph.Reverse.Counts.{count, pointers_between, count-build_reverse_edges}
use heaplens.Graph.Paths.{RootPath, contains, make_root_set, in_root_set, visit, scan, search_loop}
use heaplens.Graph.Paths.{paths_to_roots}
use heaplens.Graph.Paths.Termination.{rounds, paths_to_roots_ends}
use heaplens.Graph.Paths.Sound.{IsRootPath, paths_to_roots-IsRootPath}
use heaplens.Graph.Paths.Lengths.{IsSorted}
use heaplens.Graph.Paths.Scans.{path_size}
use heaplens.Graph.Paths.Shortest.{HasShortest, paths_to_roots-HasShortest}
use heaplens.Graph.Dominators.{new_forest, number_vertex, dominators, run_dominators, dfs}
use heaplens.Graph.Dominators.{gets, update, for_each, build_adj, process_vertices, process_vertex}
use heaplens.Graph.Dominators.{process_pointers, process_edge, eval, compress, shorten, vertex_at}
use heaplens.Graph.Dominators.{lower_semi, add_to_bucket, link, settle, settle_bucket}
use heaplens.Graph.Dominators.{copy_dominators, copy_dominator}
use heaplens.Graph.Dominators.Empty.{dominators-of_empty_zero}
use heaplens.Graph.Tree.{children, dominator_tree, dominator_path, dominator_path_loop}
use heaplens.Graph.Tree.{add_super_root, is_dominated}
use heaplens.Graph.Tree.Children.{entries_between, count-dominator_tree}
use heaplens.Graph.Tree.Ancestors.{IsRanked, is_dominated-dominator_path}
use heaplens.Graph.Tree.{Tree}
use mathlib.Core.Path.{subst}
use mathlib.Core.List.Perm

-- A visit in the order of the entries.
abbrev pub in_order : Order Object
in_order = record { arrange = λ xs. xs; arrange-perm = Perm.refl }

-- The root 1 points at 2 and 3, which both point at 4, which points at itself and at no object.
abbrev pub diamond : MemGraph
diamond = record {
  objects =
      (1, record { id = 1; typ = []; size = 8; ptrs = some (2 ∷ 3 ∷ []) })
      ∷ (2, record { id = 2; typ = []; size = 8; ptrs = some (4 ∷ []) })
      ∷ (3, record { id = 3; typ = []; size = 8; ptrs = some (4 ∷ []) })
      ∷ (4, record { id = 4; typ = []; size = 8; ptrs = some (4 ∷ 9 ∷ []) })
      ∷ [];
  roots = record { ids = 1 ∷ [] };
}

count-build_reverse_edges_example :
    count 3 (referrers (build_reverse_edges in_order diamond) 4)
    ≡ pointers_between (values diamond.objects) 3 4
count-build_reverse_edges_example = count-build_reverse_edges in_order diamond 3 4

paths_to_roots_ends_example :
    (result : List RootPath) × (paths_to_roots (rounds in_order diamond 4) in_order diamond 4 5
      ≡ some result)
paths_to_roots_ends_example =
    paths_to_roots_ends in_order diamond 4 5 (rounds in_order diamond 4) (omega arith)

abbrev both_ways : List RootPath
both_ways = record { ids = 4 ∷ 2 ∷ 1 ∷ [] } ∷ record { ids = 4 ∷ 3 ∷ 1 ∷ [] } ∷ []

diamond_paths : paths_to_roots 10 in_order diamond 4 5 ≡ some both_ways
unfolding paths_to_roots build_reverse_edges for_each_object add_referrers add_referrer referrers
    lookup insert make_root_set get_roots in_root_set search_loop scan visit contains
diamond_paths = refl

paths_to_roots-IsRootPath_example : All (IsRootPath diamond 4) both_ways × (length both_ways ≤ 5)
paths_to_roots-IsRootPath_example =
    paths_to_roots-IsRootPath 10 in_order diamond 4 5 both_ways diamond_paths

paths_to_roots-HasShortest_example :
    IsSorted path_size both_ways × HasShortest diamond 4 5 both_ways
paths_to_roots-HasShortest_example =
    paths_to_roots-HasShortest 10 in_order diamond 4 5 both_ways diamond_paths

abbrev pub diamond_dominators : List (ℕ × ℕ)
diamond_dominators = (3, 1) ∷ (9, 4) ∷ (4, 1) ∷ (2, 1) ∷ (1, 0) ∷ []

abbrev pub result_of : {E S A : Type 0} → Outcome E S A → Option A
result_of (ok a s) = some a
result_of _ = none

-- The root 1 is the immediate dominator of 2, 3 and 4; the ID 9, of no object, has one too.
pub diamond_idom : result_of (dominators 10 in_order diamond) ≡ some diamond_dominators
unfolding dominators run_dominators ◌>>=◌ dfs gets lookup new_forest update for_each build_adj
    for_each_object insert delete number_vertex process_vertices process_vertex process_pointers
    process_edge eval compress shorten vertex_at lower_semi add_to_bucket link settle settle_bucket
    copy_dominators copy_dominator get_roots
diamond_idom = refl

-- With an object of ID 0 whose slice of pointers is empty, the roots are not reached.
abbrev shadowed : MemGraph
shadowed = record diamond {
  objects = (0, record { id = 0; typ = []; size = 8; ptrs = some [] }) ∷ diamond.objects;
}

dominators-of_empty_zero_example :
    dominators 10 in_order shadowed ≡ ok [] (number_vertex 0 none new_forest)
dominators-of_empty_zero_example = dominators-of_empty_zero 9 in_order shadowed refl (inl refl)

abbrev pub entries_in_order : Order (ObjId × ObjId)
entries_in_order = record { arrange = λ xs. xs; arrange-perm = Perm.refl }

count-dominator_tree_example :
    count 4 (children (dominator_tree entries_in_order entries_in_order diamond_dominators) 1)
    ≡ entries_between diamond_dominators 4 1
count-dominator_tree_example =
    count-dominator_tree entries_in_order entries_in_order diamond_dominators 4 1

abbrev number : ObjId → ℕ
number v = v

diamond-IsRanked : IsRanked number diamond_dominators
unfolding lookup
diamond-IsRanked v d e nonzero = ground arith

nonzero : ◌≢◌ {A = ℕ} 1 0
nonzero e = cc

is_dominated-dominator_path_example :
    (path : List ObjId) × (dominator_path 10 diamond_dominators 9 ≡ some path)
    × (is_dominated 10 diamond_dominators 9 1 ≡ some (contains path 1))
is_dominated-dominator_path_example =
    is_dominated-dominator_path number diamond_dominators 9 1 10 diamond-IsRanked nonzero
      (omega arith)

diamond_path : dominator_path 10 diamond_dominators 9 ≡ some (9 ∷ 4 ∷ 1 ∷ 0 ∷ [])
unfolding dominator_path dominator_path_loop add_super_root lookup
diamond_path = refl

-- To check a property of every node and its children, entry by entry.
pub All-children :
    (P : ObjId → ObjId → Type 0) (tree : Tree)
    → All (λ entry. All (P entry.0) entry.1) tree
    → (id : ObjId) → All (P id) (children tree id)
unfolding children lookup
All-children P [] h id = tt
All-children P ((node, nodes) ∷ tree) (h, hs) id = elim (Bool-cases (node == id)) [
  | inl same ↦
      let equal : node ≡ id = ground arith in rw same (subst (λ k. All (P k) nodes) equal h)
  | inr other ↦ rw other (All-children P tree hs id)
]

-- The higher the number, the lower in the tree.
abbrev pub rank : ObjId → ℕ
rank v = 9 - v
