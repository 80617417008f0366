-- ===== src/Graph/Retained/Subsets.antt =====
-- graph/retained.go: what RetainedSizeSubsets returns for each of its targets.
use heaplens.Base.{ℕ, ◌<◌, ◌≡◌, refl, arith, List, [], ◌∷◌, All, Bool-cases, ◌&&◌, inl, inr}
use heaplens.Base.{Bool, not, ◌==◌, Option, none, some, if◌then◌else◌}
use heaplens.Graph.Keyed.{IsKeyed}
use heaplens.Graph.Retained.Targets.{is_object, is_target_lem}
use heaplens.Base.Dict.{lookup, insert, lookup-insert}
use heaplens.Run.{ok, ◌>>=◌}
use heaplens.Graph.{ObjId, MemGraph}
use heaplens.Graph.Paths.{contains}
use heaplens.Graph.Dominators.{Forest, dominators}
use heaplens.Graph.Tree.{Tree, Idom, dominator_tree}
use heaplens.Graph.Retained.{Sizes, Orders, object_sizes, compute_retained, is_target}
use heaplens.Graph.Retained.{compute_targets, retained_size_subsets}
use heaplens.Graph.Retained.Memo.{IsRanked, IsRight, retained_at, compute_retained-retained_at}

module _ (tree : Tree) (sizes : Sizes) (rank : ObjId → ℕ) (ranked : IsRanked rank tree) (fuel : ℕ)
    (taken : ObjId → Bool) (taken_lem : (id : ObjId) → is_target sizes id ≡ taken id) where
  -- What the targets add to a result.
  abbrev added : List ObjId → Sizes → ObjId → Option ℕ
  added targets result id =
      if contains targets id && taken id
      then some (retained_at tree sizes rank ranked id)
      else lookup id result

  targets-added :
      (targets : List ObjId) (result computed : Sizes)
      → All (λ id. rank id < fuel) targets
      → IsRight tree sizes rank ranked computed
      → (final after : Sizes) × (compute_targets
            (compute_retained fuel tree sizes)
            sizes
            targets
            result
            computed
          ≡ ok final after)
        × ((id : ObjId) → lookup id final ≡ added targets result id)
  unfolding compute_targets ◌>>=◌ contains
  targets-added [] result computed low right = (result, computed, refl, λ id. refl)
  targets-added (target ∷ targets) result computed (low, lows) right =
      elim (Bool-cases (taken target)) [
        | inl wanted ↦
            let (between, first, right', more, inside) =
              compute_retained-retained_at tree sizes rank ranked fuel target computed low right in
            let size = retained_at tree sizes rank ranked target in
            let (final, after, rest, same) =
              targets-added targets (insert target size result) between lows right' in
            (
              final,
              after,
              rw (compute_targets, taken_lem target, wanted, first) rest,
              λ id. ground (arith, same id, lookup-insert target id size result),
            )
        | inr other ↦
            let (final, after, rest, same) = targets-added targets result computed lows right in
            (
              final,
              after,
              rw (compute_targets, taken_lem target, other) rest,
              λ id. ground (arith, same id),
            )
      ]

-- The targets among the objects of the graph, but for the super-root, with their retained sizes.
abbrev pub expected :
    (tree : Tree) (sizes : Sizes) (rank : ObjId → ℕ)
    → IsRanked rank tree
    → MemGraph
    → List ObjId
    → ObjId
    → Option ℕ
expected tree sizes rank ranked g targets id =
    if contains targets id && (not (id == 0) && is_object g id)
    then some (retained_at tree sizes rank ranked id)
    else none

-- Where the immediate dominators are computed and their tree has no cycles, RetainedSizeSubsets comes
-- to an end, with fuel above the rank of every target, and its result has exactly the targets that are
-- objects of the graph and not 0, the super-root, each with the sum of its size and those of all nodes
-- below it in the tree, modulo 2^64. The graph keeps each object under its own ID.
pub retained_size_subsets-expected :
    (fuel : ℕ) (orders : Orders) (g : MemGraph) (targets : List ObjId) (idom : Idom) (s : Forest)
    (rank : ObjId → ℕ) (ranked : IsRanked rank (dominator_tree orders.nodes orders.edges idom))
    → IsKeyed g.objects
    → dominators fuel orders.objects g ≡ ok idom s
    → All (λ id. rank id < fuel) targets
    → (result after : Sizes) × (retained_size_subsets fuel orders g targets ≡ ok result after)
      × ((id : ObjId)
          → lookup id result
            ≡ expected
                (dominator_tree orders.nodes orders.edges idom)
                (object_sizes orders.sizes g)
                rank
                ranked
                g
                targets
                id)
unfolding retained_size_subsets contains lookup
retained_size_subsets-expected fuel orders g [] idom s rank ranked keyed e low =
    ([], [], refl, λ id. refl)
retained_size_subsets-expected fuel orders g (target ∷ targets) idom s rank ranked keyed e low =
    let (result, after, ends, same) =
      targets-added (dominator_tree orders.nodes orders.edges idom) (object_sizes orders.sizes g)
        rank ranked fuel (λ id. not (id == 0) && is_object g id)
        (is_target_lem orders.sizes g keyed) (target ∷ targets) [] [] low (λ id size e. cc) in
    (result, after, rw (e, retained_size_subsets) ends, same)
