-- ===== src/Graph/Retained/Whole.antt =====
-- graph/retained.go: what RetainedSize returns for each node of the dominator tree.
use heaplens.Base.{ℕ, ◌<◌, ◌≡◌, ◌≢◌, refl, arith, List, [], ◌∷◌, All}
use heaplens.Base.{Option, none, some, ◌==◌, if◌then◌else◌}
use heaplens.Base.Dict.{lookup, delete, lookup-delete}
use heaplens.Run.{ok, ◌>>=◌}
use heaplens.Graph.{ObjId, MemGraph}
use heaplens.Graph.Dominators.{Forest, dominators}
use heaplens.Graph.Tree.{Tree, Idom, dominator_tree}
use heaplens.Graph.Retained.{Sizes, Orders, object_sizes, compute_retained}
use heaplens.Graph.Retained.{compute_each, retained_size}
use heaplens.Graph.Retained.Memo.{
  IsRanked, IsRight, Extends, retained_at, compute_retained-retained_at,
}

module _ (tree : Tree) (sizes : Sizes) (rank : ObjId → ℕ) (ranked : IsRanked rank tree)
    (fuel : ℕ) where
  compute_each-Extends :
      (entries : List (ObjId × List ObjId)) (computed : Sizes)
      → All (λ entry. rank entry.0 < fuel) entries
      → IsRight tree sizes rank ranked computed
      → (after : Sizes) × (compute_each (compute_retained fuel tree sizes) entries computed
          ≡ ok tt after)
        × IsRight tree sizes rank ranked after
        × Extends tree sizes rank ranked computed after
        × All (λ entry. lookup entry.0 after ≢ none) entries
  unfolding compute_each ◌>>=◌
  compute_each-Extends [] computed low right = (computed, refl, right, λ id inside. inside, tt)
  compute_each-Extends (entry ∷ entries) computed (low, lows) right =
      let (between, first, right', more, here) =
        compute_retained-retained_at tree sizes rank ranked fuel entry.0 computed low right in
      let (after, rest, right'', most, there) = compute_each-Extends entries between lows right' in
      (
        after,
        rw first rest,
        right'',
        λ id inside. most id (more id inside),
        (most entry.0 (λ gone. ground (arith, here, gone)), there),
      )

  -- The sizes in the table, less that of the super-root.
  abbrev pub HasSize : Sizes → ObjId → Type 0
  HasSize result id =
      lookup id result ≡ (if 0 == id then none else some (retained_at tree sizes rank ranked id))

  found_size :
      (id : ObjId) (after : Sizes) (found : Option ℕ)
      → IsRight tree sizes rank ranked after
      → lookup id after ≡ found
      → lookup id after ≢ none
      → HasSize (delete 0 after) id
  found_size id after none right e inside = absurd (inside e)
  found_size id after (some size) right e inside =
      ground (arith, lookup-delete 0 id after, right id size e)

  found_sizes :
      (entries : List (ObjId × List ObjId)) (after : Sizes)
      → IsRight tree sizes rank ranked after
      → All (λ entry. lookup entry.0 after ≢ none) entries
      → All (λ entry. HasSize (delete 0 after) entry.0) entries
  found_sizes [] after right inside = tt
  found_sizes (entry ∷ entries) after right (here, there) = (
    found_size entry.0 after (lookup entry.0 after) right refl here,
    found_sizes entries after right there,
  )

-- Where the immediate dominators are computed and their tree has no cycles, RetainedSize comes to an end,
-- with fuel above the rank of every node of the tree, and gives each of them the sum of its size and
-- those of all nodes below it in the tree, modulo 2^64, except the super-root, which it leaves out.
pub retained_size-HasSize :
    (fuel : ℕ) (orders : Orders) (g : MemGraph) (idom : Idom) (s : Forest) (rank : ObjId → ℕ)
    (ranked : IsRanked rank (dominator_tree orders.nodes orders.edges idom))
    → dominators fuel orders.objects g ≡ ok idom s
    → All
        (λ entry. rank entry.0 < fuel)
        (orders.tree.arrange (dominator_tree orders.nodes orders.edges idom))
    → (result after : Sizes) × (retained_size fuel orders g ≡ ok result after)
      × All
          (λ entry.
            HasSize
              (dominator_tree orders.nodes orders.edges idom)
              (object_sizes orders.sizes g)
              rank
              ranked
              fuel
              result
              entry.0)
          (orders.tree.arrange (dominator_tree orders.nodes orders.edges idom))
unfolding retained_size lookup ◌>>=◌
retained_size-HasSize fuel orders g idom s rank ranked e low =
    let tree = dominator_tree orders.nodes orders.edges idom in
    let sizes = object_sizes orders.sizes g in
    let (after, ends, right, more, inside) =
      compute_each-Extends tree sizes rank ranked fuel (orders.tree.arrange tree) [] low
        (λ id size e. cc) in
    (
      delete 0 after,
      after,
      rw (e, retained_size, ends) refl,
      found_sizes tree sizes rank ranked fuel (orders.tree.arrange tree) after right inside,
    )
