-- ===== src/Graph/Tree/Children.antt =====
-- graph/dominators.go: DominatorTree turns the map of immediate dominators round.
use heaplens.Base.{ℕ, ◌+◌, ◌≡◌, refl, ◌∙◌, arith, List, [], ◌∷◌, ◌++◌, foldl}
use heaplens.Base.{◌==◌, if◌then◌else◌, ◌&&◌}
use heaplens.Base.Dict.{lookup, insert, lookup-insert}
use heaplens.Graph.{ObjId, Order}
use heaplens.Graph.Reverse.Counts.{count, count-append}
use heaplens.Graph.Tree.{Idom, Tree, children, add_child, empty_tree, dominator_tree}
use mathlib.Core.List.{Permᴰ}
use mathlib.Core.Logic.{∥∥₁_elim}
use native.Mathlib.Nat.{ℕ_set}

-- How many entries map `node` to `dom`.
unfoldable pub entries_between : List (ObjId × ObjId) → ObjId → ObjId → ℕ
entries_between [] node dom = 0
entries_between (entry ∷ entries) node dom =
    (if entry.0 == node && (entry.1 == dom) then 1 else 0) + entries_between entries node dom

count-add_child :
    (v d : ObjId) (tree : Tree) (entry : ObjId × ObjId)
    → count v (children (add_child tree entry) d)
      ≡ count v (children tree d) + (if entry.0 == v && (entry.1 == d) then 1 else 0)
unfolding children add_child count
count-add_child v d tree (node, dom) = ground (
  arith,
  lookup-insert dom d (children tree dom ++ node ∷ []) tree,
  count-append v (children tree d) node,
)

count-add_children :
    (v d : ObjId) (entries : List (ObjId × ObjId)) (tree : Tree)
    → count v (children (foldl add_child tree entries) d)
      ≡ count v (children tree d) + entries_between entries v d
unfolding entries_between
count-add_children v d [] tree = omega arith
count-add_children v d (entry ∷ entries) tree =
    omega
      (arith, count-add_children v d entries (add_child tree entry), count-add_child v d tree entry)

childless :
    (d : ObjId) (entries : List (ObjId × ObjId)) (tree : Tree)
    → children tree d ≡ []
    → children (foldl (λ tree entry. insert entry.0 [] tree) tree entries) d ≡ []
childless d [] tree h = h
childless d (entry ∷ entries) tree h =
    childless d entries (insert entry.0 [] tree)
      (unfold children in ground (arith, lookup-insert entry.0 d [] tree))

empty_tree-childless :
    (d : ObjId) (entries : List (ObjId × ObjId)) → children (empty_tree entries) d ≡ []
unfolding empty_tree children
empty_tree-childless d entries = ground (
  arith,
  lookup-insert {V = List ObjId} 0 d [] (foldl (λ tree entry. insert entry.0 [] tree) [] entries),
  childless d entries [] (unfold children lookup in refl),
)

entries_between-Permᴰ :
    (v d : ObjId) {xs ys : List (ObjId × ObjId)}
    → Permᴰ xs ys
    → entries_between xs v d ≡ entries_between ys v d
unfolding entries_between
entries_between-Permᴰ v d Permᴰ.nil = refl
entries_between-Permᴰ v d (Permᴰ.cons e p) = rw (e, entries_between-Permᴰ v d p)
entries_between-Permᴰ v d (Permᴰ.swap e f) = rw (e, f) (omega arith)
entries_between-Permᴰ v d (Permᴰ.trans p q) =
    entries_between-Permᴰ v d p ∙ entries_between-Permᴰ v d q

-- A node is among the children of `dom` as often as the map has `dom` as its immediate dominator, and
-- nothing else is, whatever the orders in which the map is visited.
pub count-dominator_tree :
    (first second : Order (ObjId × ObjId)) (idom : Idom) (node dom : ObjId)
    → count node (children (dominator_tree first second idom) dom) ≡ entries_between idom node dom
unfolding dominator_tree
count-dominator_tree first second idom node dom =
    let empty : count node (children (empty_tree (first.arrange idom)) dom) ≡ 0 =
      rw (empty_tree-childless dom (first.arrange idom)) (unfold count in refl) in
    omega (
      arith,
      count-add_children node dom (second.arrange idom) (empty_tree (first.arrange idom)),
      empty,
      ∥∥₁_elim (second.arrange-perm idom) (ℕ_set _ _) (entries_between-Permᴰ node dom),
    )
