-- ===== src/Graph/Retained/Memo.antt =====
-- graph/retained.go: computeRetained with its table against the sum without one.
use heaplens.Base.{
  ℕ, zero, suc, ◌+◌, ◌%◌, ◌^◌, ◌<◌, ◌≡◌, ◌≢◌, refl, ap, ◌∙◌, arith, List, [], ◌∷◌, All,
}
use heaplens.Base.{Option, none, some}
use heaplens.Base.Dict.{lookup, insert, lookup-insert}
use heaplens.Run.{ok, ◌>>=◌}
use heaplens.Graph.{ObjId}
use heaplens.Graph.Tree.{Tree, children}
use heaplens.Graph.Retained.{Sizes, Sum, size_of, add_sizes, keep, compute_retained}

-- The size of a node with those of its children, modulo 2^64.
unfoldable pub sum_sizes : (ObjId → ℕ) → List ObjId → ℕ → ℕ
sum_sizes f [] size = size
sum_sizes f (child ∷ more) size = sum_sizes f more ((size + f child) % 2 ^ 64)

-- What a node retains, down to `depth` levels of the tree.
unfoldable pub retained_to : Tree → Sizes → ℕ → ObjId → ℕ
retained_to tree sizes zero id = 0
retained_to tree sizes (suc depth) id =
    sum_sizes (retained_to tree sizes depth) (children tree id) (size_of sizes id)

-- A rank goes down along the tree, so that it has no cycles.
abbrev pub IsRanked : (ObjId → ℕ) → Tree → Type 0
IsRanked rank tree = (id : ObjId) → All (λ child. rank child < rank id) (children tree id)

sum_sizes-cong :
    (f h : ObjId → ℕ) (ids : List ObjId) (size : ℕ)
    → All (λ id. f id ≡ h id) ids
    → sum_sizes f ids size ≡ sum_sizes h ids size
unfolding sum_sizes
sum_sizes-cong f h [] size same = refl
sum_sizes-cong f h (id ∷ ids) size (same, more) =
    rw same (sum_sizes-cong f h ids ((size + h id) % 2 ^ 64) more)

All-weaken :
    (P Q : ObjId → Type 0) (ids : List ObjId) → ((id : ObjId) → P id → Q id) → All P ids → All Q ids
All-weaken P Q [] f h = tt
All-weaken P Q (id ∷ ids) f (h, hs) = (f id h, All-weaken P Q ids f hs)

module _ (tree : Tree) (sizes : Sizes) (rank : ObjId → ℕ) (ranked : IsRanked rank tree) where
  retained_to-stable :
      (n m : ℕ) (id : ObjId)
      → rank id < n
      → rank id < m
      → retained_to tree sizes n id ≡ retained_to tree sizes m id
  unfolding retained_to
  retained_to-stable zero m id h k = absurd (omega arith)
  retained_to-stable (suc n) zero id h k = absurd (omega arith)
  retained_to-stable (suc n) (suc m) id h k =
      sum_sizes-cong _ _ (children tree id) (size_of sizes id) (
        All-weaken _ _ (children tree id)
          (λ child lt. retained_to-stable n m child (omega arith) (omega arith)) (ranked id))

  -- Every level of the tree below the node.
  pub retained_at : ObjId → ℕ
  retained_at id = retained_to tree sizes (suc (rank id)) id

  retained_at-sum :
      (id : ObjId) → sum_sizes retained_at (children tree id) (size_of sizes id) ≡ retained_at id
  unfolding retained_at retained_to
  retained_at-sum id = sum_sizes-cong _ _ (children tree id) (size_of sizes id) (
      All-weaken _ _ (children tree id)
        (λ child lt. retained_to-stable (suc (rank child)) (rank id) child (omega arith) lt)
        (ranked id))

  -- Every size in the table is the right one.
  abbrev pub IsRight : Sizes → Type 0
  IsRight computed = (id size : ℕ) → lookup id computed ≡ some size → size ≡ retained_at id

  -- Nothing is taken out of the table.
  abbrev pub Extends : Sizes → Sizes → Type 0
  Extends computed after = (id : ObjId) → lookup id computed ≢ none → lookup id after ≢ none

  -- The action comes to an end with `size`, and leaves a right table with what was there.
  abbrev Gives : Sum ℕ → ℕ → Type 0
  Gives action size =
      (computed : Sizes)
      → IsRight computed
      → (after : Sizes) × (action computed ≡ ok size after) × IsRight after × Extends computed after

  add_sizes-Gives :
      (compute : ObjId → Sum ℕ) (ids : List ObjId) (size : ℕ)
      → All (λ id. Gives (compute id) (retained_at id)) ids
      → Gives (add_sizes compute ids size) (sum_sizes retained_at ids size)
  unfolding add_sizes sum_sizes ◌>>=◌
  add_sizes-Gives compute [] size h computed right = (computed, refl, right, λ id inside. inside)
  add_sizes-Gives compute (id ∷ ids) size (h, hs) computed right =
      let (between, first, right', more) = h computed right in
      let (after, rest, right'', most) =
        add_sizes-Gives compute ids ((size + retained_at id) % 2 ^ 64) hs between right' in
      (after, rw first rest, right'', λ id inside. most id (more id inside))

  insert-IsRight :
      (id : ObjId) (computed : Sizes)
      → IsRight computed
      → IsRight (insert id (retained_at id) computed)
  insert-IsRight id computed right other size e =
      ground (arith, lookup-insert id other (retained_at id) computed, right other size)

  insert-Extends :
      (id : ObjId) (computed : Sizes) → Extends computed (insert id (retained_at id) computed)
  insert-Extends id computed other inside e =
      inside (ground (arith, lookup-insert id other (retained_at id) computed))

  lookup_inserted :
      (id : ObjId) (computed : Sizes)
      → lookup id (insert id (retained_at id) computed) ≡ some (retained_at id)
  lookup_inserted id computed = ground (arith, lookup-insert id id (retained_at id) computed)

  compute_step :
      (fuel : ℕ) (id : ObjId) (computed : Sizes)
      → IsRight computed
      → All
          (λ child. Gives (compute_retained fuel tree sizes child) (retained_at child))
          (children tree id)
      → (known : Option ℕ) → lookup id computed ≡ known
      → (after : Sizes) × (compute_retained (suc fuel) tree sizes id computed
          ≡ ok (retained_at id) after)
        × IsRight after
        × Extends computed after
        × (lookup id after ≡ some (retained_at id))
  unfolding compute_retained ◌>>=◌ keep
  compute_step fuel id computed right below (some size) e = (
    computed,
    rw (e, compute_retained, right id size e) refl,
    right,
    λ id inside. inside,
    e ∙ ap some (right id size e),
  )
  compute_step fuel id computed right below none e =
      let (after, added, right', more) =
        add_sizes-Gives (compute_retained fuel tree sizes) (children tree id) (size_of sizes id)
          below computed right in
      (
        insert id (retained_at id) after,
        rw (e, compute_retained, added, retained_at-sum id) refl,
        insert-IsRight id after right',
        λ other inside. insert-Extends id after other (more other inside),
        lookup_inserted id after,
      )

-- On a tree without cycles computeRetained, with more fuel than the rank of the node, comes to an end
-- with the sum of the sizes of the node and everything below it, modulo 2^64 and taken without a table,
-- whatever sizes the table holds that are right. Those that it leaves are right, the node and what
-- was in the table among them.
pub compute_retained-retained_at :
    (tree : Tree) (sizes : Sizes) (rank : ObjId → ℕ) (ranked : IsRanked rank tree) (fuel : ℕ)
    (id : ObjId) (computed : Sizes)
    → rank id < fuel
    → IsRight tree sizes rank ranked computed
    → (after : Sizes) × (compute_retained fuel tree sizes id computed
        ≡ ok (retained_at tree sizes rank ranked id) after)
      × IsRight tree sizes rank ranked after
      × Extends tree sizes rank ranked computed after
      × (lookup id after ≡ some (retained_at tree sizes rank ranked id))
compute_retained-retained_at tree sizes rank ranked zero id computed h right = absurd (omega arith)
compute_retained-retained_at tree sizes rank ranked (suc fuel) id computed h right =
    compute_step tree sizes rank ranked fuel id computed right
      (All-weaken _ _ (children tree id)
        (λ child lt before right'.
          let (after, ends, right'', more, inside) =
            compute_retained-retained_at tree sizes rank ranked fuel child before (omega arith)
              right' in
          (after, ends, right'', more))
        (ranked id))
      (lookup id computed) refl
