-- ===== src/Graph/Retained/Total.antt =====
-- graph/retained.go on graph/dominators.go: RetainedSize on the tree that Dominators gives.
use heaplens.Base.{ℕ, ◌-◌, ◌<◌, ◌≡◌, arith, List, [], ◌∷◌, All, All-imp}
use heaplens.Base.{Bool-cases, inl, inr, ◌==◌, ◌&&◌, length}
use heaplens.Run.{ok}
use heaplens.Graph.{Order, ObjId, MemGraph, get_roots}
use heaplens.Graph.Reverse.Counts.{count-pos}
use heaplens.Graph.Tree.{Idom, children, dominator_tree}
use heaplens.Graph.Tree.Children.{entries_between, count-dominator_tree}
use heaplens.Graph.Dominators.{Forest, dominators}
use heaplens.Graph.Dominators.Edges.{collected}
use heaplens.Graph.Dominators.Total.{nodes_of, number_of, IsAcyclic, dominators-IsAcyclic}
use heaplens.Graph.Retained.{Sizes, Orders, object_sizes, retained_size}
use heaplens.Graph.Retained.Memo.{IsRanked}
use heaplens.Graph.Retained.Whole.{HasSize, retained_size-HasSize}

-- An entry that is counted is there.
pub entry_of_count :
    (P : ObjId × ObjId → Type 0) (idom : Idom) (node dom : ObjId)
    → All P idom
    → 0 < entries_between idom node dom
    → P (node, dom)
unfolding entries_between
entry_of_count P [] node dom h pos = absurd (omega (arith, pos))
entry_of_count P ((v, d) ∷ idom) node dom (h, hs) pos =
    elim (Bool-cases (v == node && (d == dom))) [
      | inl same ↦
          let node_is : v ≡ node = ground arith in
          let dom_is : d ≡ dom = ground arith in rw (← node_is, ← dom_is) h
      | inr other ↦ entry_of_count P idom node dom hs (ground arith)
    ]

-- How far a vertex is from the last number.
abbrev pub rank_of : Forest → ObjId → ℕ
rank_of s v = length s.vertex - number_of s v

pub tree-IsRanked :
    (first second : Order (ObjId × ObjId)) (idom : Idom) (s : Forest)
    → IsAcyclic idom s
    → IsRanked (rank_of s) (dominator_tree first second idom)
tree-IsRanked first second idom s h id =
    All-imp (children (dominator_tree first second idom) id)
      (λ child counted.
        let (lt, le) =
          entry_of_count _ idom child id h.below
            (rw (← count-dominator_tree first second idom child id) counted) in
        omega arith)
      (count-pos _)

ranks_below :
    {A : Type 0} (s : Forest) (fuel : ℕ) (entries : List (ObjId × A))
    → length s.vertex < fuel
    → All (λ entry. rank_of s entry.0 < fuel) entries
ranks_below s fuel [] enough = tt
ranks_below s fuel (entry ∷ entries) enough = (omega arith, ranks_below s fuel entries enough)

-- With fuel above the number of edges in the adjacency lists plus one, RetainedSize returns on every
-- graph, and gives each node of the dominator tree the sum of its size and those of all nodes below it,
-- modulo 2^64, except the super-root, which it leaves out.
pub retained_size_total :
    (fuel : ℕ) (orders : Orders) (g : MemGraph)
    → length (nodes_of (collected orders.objects g) (get_roots g).ids) < fuel
    → (idom : Idom) × (s : Forest) × (dominators fuel orders.objects g ≡ ok idom s)
      × (ranked : IsRanked (rank_of s) (dominator_tree orders.nodes orders.edges idom))
      × (result : Sizes) × (after : Sizes) × (retained_size fuel orders g ≡ ok result after)
      × All
          (λ entry.
            HasSize
              (dominator_tree orders.nodes orders.edges idom)
              (object_sizes orders.sizes g)
              (rank_of s)
              ranked
              fuel
              result
              entry.0)
          (orders.tree.arrange (dominator_tree orders.nodes orders.edges idom))
retained_size_total fuel orders g enough =
    let (idom, s, e, acyclic, small) = dominators-IsAcyclic fuel orders.objects g enough in
    let ranked = tree-IsRanked orders.nodes orders.edges idom s acyclic in
    let (result, after, ends, sizes) =
      retained_size-HasSize fuel orders g idom s (rank_of s) ranked e
        (ranks_below s fuel _ (omega arith)) in
    (idom, s, e, ranked, result, after, ends, sizes)
