-- ===== src/Graph/Tree/Depths.antt =====
-- graph/domtree.go: DominatorDepth on a tree without cycles.
use heaplens.Base.{ℕ, zero, suc, ◌+◌, ◌<◌, ◌≡◌, refl, arith, List, [], ◌∷◌, All, some, Option}
use heaplens.Base.Dict.{Dict, insert}
use mathlib.Core.Path.{subst}
use heaplens.Graph.{ObjId}
use heaplens.Graph.Tree.{Tree, children, each_child, compute_depth, dominator_depth}

-- A level for each node, one more at each of its children than at the node, and a rank that goes down.
abbrev pub IsLevelled : (ObjId → ℕ) → (ObjId → ℕ) → Tree → Type 0
IsLevelled level rank tree =
    (id : ObjId)
    → All (λ child. (level child ≡ level id + 1) × (rank child < rank id)) (children tree id)

module _ (level : ObjId → ℕ) where
  -- Every depth in the map is the level of its node.
  abbrev pub AreLevels : Dict ℕ → Type 0
  AreLevels depth = All (λ entry. entry.1 ≡ level entry.0) depth

  insert-AreLevels :
      (id : ObjId) (depth : Dict ℕ) → AreLevels depth → AreLevels (insert id (level id) depth)
  unfolding insert
  insert-AreLevels id [] h = (refl, tt)
  insert-AreLevels id ((node, d) ∷ depth) (h, hs) = ground (arith, insert-AreLevels id depth hs)

  abbrev Ends : Option (Dict ℕ) → Type 0
  Ends result = (depth : Dict ℕ) × (result ≡ some depth) × AreLevels depth

  each_child-Ends :
      (body : ObjId → Dict ℕ → Option (Dict ℕ)) (ids : List ObjId) (depth : Dict ℕ)
      → All (λ id. (before : Dict ℕ) → AreLevels before → Ends (body id before)) ids
      → AreLevels depth
      → Ends (each_child ids body depth)
  unfolding each_child
  each_child-Ends body [] depth h right = (depth, refl, right)
  each_child-Ends body (id ∷ ids) depth (h, hs) right =
      let (deeper, first, right') = h depth right in
      let (after, rest, right'') = each_child-Ends body ids deeper hs right' in
      (after, rw (each_child, first) rest, right'')

  module _ (rank : ObjId → ℕ) (tree : Tree) (levelled : IsLevelled level rank tree) where
    children-Ends :
        (fuel : ℕ) (id : ObjId) (ids : List ObjId)
        → ((child : ObjId)
            → rank child < fuel
            → (depth : Dict ℕ) → AreLevels depth
            → Ends (compute_depth fuel tree child (level child) depth))
        → rank id < suc fuel
        → All (λ child. (level child ≡ level id + 1) × (rank child < rank id)) ids
        → All
            (λ child.
              (before : Dict ℕ)
              → AreLevels before
              → Ends (compute_depth fuel tree child (level id + 1) before))
            ids
    children-Ends fuel id [] ends low h = tt
    children-Ends fuel id (child ∷ ids) ends low ((e, lt), hs) =
        (rw (← e) (ends child (omega arith)), children-Ends fuel id ids ends low hs)

    compute_depth-Ends :
        (fuel : ℕ) (id : ObjId)
        → rank id < fuel
        → (depth : Dict ℕ) → AreLevels depth
        → Ends (compute_depth fuel tree id (level id) depth)
    unfolding compute_depth
    compute_depth-Ends zero id low depth right = absurd (omega arith)
    compute_depth-Ends (suc fuel) id low depth right =
        each_child-Ends _ (children tree id) (insert id (level id) depth)
          (children-Ends fuel id (children tree id) (compute_depth-Ends fuel) low (levelled id))
          (insert-AreLevels id depth right)

-- On a tree without cycles, in which each node has a level, 0 at the super-root and one more at each
-- child, DominatorDepth comes to an end, with fuel above the rank of the super-root, and every depth in
-- its result is the level of its node.
pub dominator_depth-AreLevels :
    (level rank : ObjId → ℕ) (tree : Tree) (fuel : ℕ)
    → IsLevelled level rank tree
    → level 0 ≡ 0
    → rank 0 < fuel
    → (depth : Dict ℕ) × (dominator_depth fuel tree ≡ some depth) × AreLevels level depth
unfolding dominator_depth
dominator_depth-AreLevels level rank tree fuel levelled top low =
    subst (λ d. Ends level (compute_depth fuel tree 0 d [])) top
      (compute_depth-Ends level rank tree levelled fuel 0 low [] tt)
