-- ===== src/Graph/Tree.antt =====
-- graph/dominators.go: DominatorTree, and graph/domtree.go: depths, paths and tests on the tree of
-- immediate dominators. The int of a depth is a natural number.
pub mod Children
pub mod Ancestors
pub mod Depths
pub mod Levels
use heaplens.Base.{ℕ, zero, suc, ◌+◌, List, [], ◌∷◌, ◌++◌, Bool, true, false}
use heaplens.Base.{Option, none, some, map, foldl, ◌==◌, if◌then◌else◌}
use heaplens.Base.Dict.{Dict, lookup, insert}
use heaplens.Graph.{ObjId, Order, elements}

-- A map from a node to its immediate dominator.
abbrev pub Idom : Type 0
Idom = Dict ObjId

abbrev pub Tree : Type 0
Tree = Dict (List ObjId)

-- tree[node]
unfoldable pub children : Tree → ObjId → List ObjId
children tree node = elements (lookup node tree)

-- tree[dom] = append(tree[dom], node)
unfoldable pub add_child : Tree → ObjId × ObjId → Tree
add_child tree (node, dom) = insert dom (children tree dom ++ node ∷ []) tree

unfoldable pub empty_tree : List (ObjId × ObjId) → Tree
empty_tree entries = insert 0 [] (foldl (λ tree entry. insert entry.0 [] tree) [] entries)

-- Go ranges over the map twice, each time in an order of its own.
unfoldable pub dominator_tree : Order (ObjId × ObjId) → Order (ObjId × ObjId) → Idom → Tree
dominator_tree first second idom =
    foldl add_child (empty_tree (first.arrange idom)) (second.arrange idom)

-- The loop over the children.
unfoldable pub each_child :
    List ObjId → (ObjId → Dict ℕ → Option (Dict ℕ)) → Dict ℕ → Option (Dict ℕ)
each_child [] body depth = some depth
each_child (child ∷ more) body depth = elim (body child depth) [
  | none ↦ none
  | some deeper ↦ each_child more body deeper
]

-- computeDepth. `none` means that the fuel, which bounds the depth of the recursion, ran out.
unfoldable pub compute_depth : ℕ → Tree → ObjId → ℕ → Dict ℕ → Option (Dict ℕ)
compute_depth zero tree node d depth = none
compute_depth (suc fuel) tree node d depth =
    each_child (children tree node) (λ child. compute_depth fuel tree child (d + 1))
      (insert node d depth)

unfoldable pub dominator_depth : ℕ → Tree → Option (Dict ℕ)
dominator_depth fuel tree = compute_depth fuel tree 0 0 []

-- `if current != 0 { path = append(path, 0) }`
unfoldable pub add_super_root : List ObjId → ObjId → List ObjId
add_super_root path current = if current == 0 then path else path ++ 0 ∷ []

-- The loop of DominatorPath. `none` means that its rounds ran out.
unfoldable pub dominator_path_loop : ℕ → Idom → List ObjId → ObjId → Option (List ObjId)
dominator_path_loop zero idom path current = none
dominator_path_loop (suc fuel) idom path current =
    let longer = path ++ current ∷ [] in
    elim (lookup current idom) [
      | none ↦ some (add_super_root longer current)
      | some dom ↦ elim (dom == 0) [
        | true ↦ some (add_super_root longer current)
        | false ↦ dominator_path_loop fuel idom longer dom
      ]
    ]

unfoldable pub dominator_path : ℕ → Idom → ObjId → Option (List ObjId)
dominator_path fuel idom node = dominator_path_loop fuel idom [] node

-- The loop of IsDominated.
unfoldable pub is_dominated_loop : ℕ → Idom → ObjId → ObjId → Option Bool
is_dominated_loop zero idom current dominator = none
is_dominated_loop (suc fuel) idom current dominator = elim (lookup current idom) [
  | none ↦ some false
  | some dom ↦ elim (dom == dominator) [
    | true ↦ some true
    | false ↦ elim (dom == 0) [
      | true ↦ some (dominator == 0)
      | false ↦ is_dominated_loop fuel idom dom dominator
    ]
  ]
]

unfoldable pub is_dominated : ℕ → Idom → ObjId → ObjId → Option Bool
is_dominated fuel idom node dominator =
    if node == dominator then some true else is_dominated_loop fuel idom node dominator
