-- ===== src/Graph/Retained.antt =====
-- graph/retained.go: RetainedSize and RetainedSizeSubsets. The closure computeRetained, which both have
-- word for word, is one function over its table of sizes. A uint64 is a natural number below 2^64.
pub mod Memo
pub mod Targets
pub mod Subsets
pub mod Whole
pub mod Total
mod Examples
use heaplens.Base.{ℕ, zero, suc, ◌+◌, ◌%◌, ◌^◌, List, [], ◌∷◌, Bool, true, false}
use heaplens.Base.{Option, none, some, ◌==◌, if◌then◌else◌}
use heaplens.Base.Dict.{Dict, lookup, insert, delete}
use heaplens.Run.{Outcome, ok, err, panic, stuck, Run, pure, exhausted, ◌>>=◌, ◌>>◌}
use heaplens.Graph.{Object, ObjId, MemGraph, Order, for_each_object}
use heaplens.Graph.Dominators.{Forest, dominators}
use heaplens.Graph.Tree.{Tree, children, dominator_tree}

abbrev pub Sizes : Type 0
Sizes = Dict ℕ

-- Nothing here returns a Go error.
abbrev pub Sum : Type 0 → Type 0
Sum A = Run ⊥ Sizes A

-- sizes[id], where a missing key reads as 0.
unfoldable pub size_of : Sizes → ObjId → ℕ
size_of sizes id = elim (lookup id sizes) [ none ↦ 0 | some size ↦ size ]

unfoldable pub object_sizes : Order Object → MemGraph → Sizes
object_sizes order g =
    insert 0 0 (for_each_object order g (λ sizes obj. insert obj.id obj.size sizes) [])

-- The loop that adds the sizes of the children, modulo 2^64.
unfoldable pub add_sizes : (ObjId → Sum ℕ) → List ObjId → ℕ → Sum ℕ
add_sizes compute [] size = pure size
add_sizes compute (child ∷ more) size = do
  retained ← compute child
  add_sizes compute more ((size + retained) % 2 ^ 64)

unfoldable pub keep : ObjId → ℕ → Sum ℕ
keep id size computed = ok size (insert id size computed)

-- computeRetained. The fuel bounds the depth of its recursion.
unfoldable pub compute_retained : ℕ → Tree → Sizes → ObjId → Sum ℕ
compute_retained zero tree sizes id computed = stuck
compute_retained (suc fuel) tree sizes id computed = elim (lookup id computed) [
  | some size ↦ ok size computed
  | none ↦
      (do
        size ← add_sizes (compute_retained fuel tree sizes) (children tree id) (size_of sizes id)
        keep id size)
        computed
]

-- `for nodeID := range tree { computeRetained(nodeID) }`
unfoldable pub compute_each : (ObjId → Sum ℕ) → List (ObjId × List ObjId) → Sum (Unit {0})
compute_each compute [] = pure tt
compute_each compute (entry ∷ entries) = do _ ← compute entry.0; compute_each compute entries

-- An order for each range over a map: twice over the objects, twice over the immediate dominators and
-- once over the tree.
pub record Orders : Type 0 where
  pub objects : Order Object
  pub sizes : Order Object
  pub nodes : Order (ObjId × ObjId)
  pub edges : Order (ObjId × ObjId)
  pub tree : Order (ObjId × List ObjId)

abbrev pub follow :
    {A B : Type 0} → Outcome ⊥ Forest A → (A → Outcome ⊥ Sizes B) → Outcome ⊥ Sizes B
follow (ok a s) next = next a
follow (err e s) next = absurd e
follow panic next = panic
follow stuck next = stuck

unfoldable pub retained_size : ℕ → Orders → MemGraph → Outcome ⊥ Sizes Sizes
retained_size fuel orders g = follow (dominators fuel orders.objects g) (λ idom.
    let tree = dominator_tree orders.nodes orders.edges idom in
    let sizes = object_sizes orders.sizes g in
    (do
      compute_each (compute_retained fuel tree sizes) (orders.tree.arrange tree)
      λ retained. ok (delete 0 retained) retained)
      [])

unfoldable pub is_target : Sizes → ObjId → Bool
is_target sizes id =
    if id == 0 then false else elim (lookup id sizes) [ none ↦ false | some size ↦ true ]

-- The loop over the targets.
unfoldable pub compute_targets : (ObjId → Sum ℕ) → Sizes → List ObjId → Sizes → Sum Sizes
compute_targets compute sizes [] result = pure result
compute_targets compute sizes (id ∷ ids) result = elim (is_target sizes id) [
  | true ↦ do size ← compute id; compute_targets compute sizes ids (insert id size result)
  | false ↦ compute_targets compute sizes ids result
]

unfoldable pub retained_size_subsets : ℕ → Orders → MemGraph → List ObjId → Outcome ⊥ Sizes Sizes
retained_size_subsets fuel orders g [] = ok [] []
retained_size_subsets fuel orders g (target ∷ targets) =
    follow (dominators fuel orders.objects g) (λ idom.
      let tree = dominator_tree orders.nodes orders.edges idom in
      let sizes = object_sizes orders.sizes g in
      compute_targets (compute_retained fuel tree sizes) sizes (target ∷ targets) [] [])
