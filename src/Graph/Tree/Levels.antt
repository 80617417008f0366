-- ===== src/Graph/Tree/Levels.antt =====
-- graph/domtree.go on graph/dominators.go: DominatorDepth on the tree that Dominators gives.
use heaplens.Base.{ℕ, zero, suc, ◌+◌, ◌≤◌, ◌<◌, ◌≡◌, refl, ap, arith, All, All-imp, All-both}
use heaplens.Base.{inl, inr, Option-cases, none, some, length}
use heaplens.Base.Dict.{Dict, lookup}
use heaplens.Base.Entries.{All-lookup, All-found}
use heaplens.Run.{ok}
use heaplens.Graph.{Object, ObjId, MemGraph, Order, get_roots}
use heaplens.Graph.Reverse.Counts.{count-pos}
use heaplens.Graph.Dominators.{Forest, dominators}
use heaplens.Graph.Dominators.Edges.{collected}
use heaplens.Graph.Dominators.Total.{nodes_of, number_of, IsAcyclic, dominators-IsAcyclic}
use heaplens.Graph.Tree.{Idom, children, dominator_tree, dominator_depth}
use heaplens.Graph.Tree.Children.{count-dominator_tree}
use heaplens.Graph.Tree.Depths.{AreLevels, dominator_depth-AreLevels}
use heaplens.Graph.Retained.Total.{rank_of, entry_of_count, tree-IsRanked}

-- How many steps lead from the node up to one without an immediate dominator, `most` at most.
abbrev steps_up : ℕ → Idom → ObjId → ℕ
steps_up zero idom v = 0
steps_up (suc most) idom v = elim (lookup v idom) [ none ↦ 0 | some d ↦ steps_up most idom d + 1 ]

-- The level of a node: the steps up to the super-root.
abbrev pub level_of : Idom → Forest → ObjId → ℕ
level_of idom s v = steps_up (number_of s v) idom v

module _ (idom : Idom) (s : Forest) (h : IsAcyclic idom s) where
  falls : (v d : ObjId) → lookup v idom ≡ some d → number_of s d < number_of s v
  falls v d e = (All-lookup _ v d idom h.below e).0

  steps_up_enough :
      (most more : ℕ) (v : ObjId)
      → number_of s v ≤ most
      → number_of s v ≤ more
      → steps_up most idom v ≡ steps_up more idom v
  steps_up_enough zero zero v le le' = refl
  steps_up_enough zero (suc more) v le le' = elim (Option-cases (lookup v idom)) [
    | inl top ↦ rw (top, steps_up) refl
    | inr (d, e) ↦ absurd (let lt = falls v d e in omega arith)
  ]
  steps_up_enough (suc most) zero v le le' = elim (Option-cases (lookup v idom)) [
    | inl top ↦ rw (top, steps_up) refl
    | inr (d, e) ↦ absurd (let lt = falls v d e in omega arith)
  ]
  steps_up_enough (suc most) (suc more) v le le' = elim (Option-cases (lookup v idom)) [
    | inl top ↦ rw (top, steps_up) refl
    | inr (d, e) ↦
        let lt = falls v d e in
        rw (e, steps_up) (ap (λ n. n + 1) (steps_up_enough most more d (omega arith) (omega arith)))
  ]

  steps_up-some :
      (most : ℕ) (v d : ObjId)
      → lookup v idom ≡ some d
      → number_of s v ≤ most
      → steps_up most idom v ≡ level_of idom s d + 1
  steps_up-some zero v d e le = absurd (let lt = falls v d e in omega arith)
  steps_up-some (suc most) v d e le =
      let lt = falls v d e in
      rw (e, steps_up)
        (ap (λ n. n + 1) (steps_up_enough most (number_of s d) d (omega arith) (omega arith)))

  steps_up-none : (most : ℕ) (v : ObjId) → lookup v idom ≡ none → steps_up most idom v ≡ 0
  steps_up-none zero v e = refl
  steps_up-none (suc most) v e = rw (e, steps_up) refl

  level_of_child :
      (first second : Order (ObjId × ObjId)) (id : ObjId)
      → All
          (λ child. level_of idom s child ≡ level_of idom s id + 1)
          (children (dominator_tree first second idom) id)
  level_of_child first second id =
      All-imp (children (dominator_tree first second idom) id)
        (λ child counted.
          let found =
            entry_of_count _ idom child id (All-found idom h.once)
              (rw (← count-dominator_tree first second idom child id) counted) in
          steps_up-some (number_of s child) child id found (omega arith))
        (count-pos _)

-- With fuel above the number of edges in the adjacency lists plus one, DominatorDepth comes to an end on
-- the tree that Dominators gives for any graph, and every depth in its result is the number of steps
-- from the node up to the super-root.
pub dominator_depth-dominators :
    (fuel : ℕ) (order : Order Object) (first second : Order (ObjId × ObjId)) (g : MemGraph)
    → length (nodes_of (collected order g) (get_roots g).ids) < fuel
    → (idom : Idom) × (s : Forest) × (dominators fuel order g ≡ ok idom s)
      × (depth : Dict ℕ) × (dominator_depth fuel (dominator_tree first second idom) ≡ some depth)
      × AreLevels (level_of idom s) depth
dominator_depth-dominators fuel order first second g enough =
    let (idom, s, e, acyclic, small) = dominators-IsAcyclic fuel order g enough in
    let (depth, ends, levels) =
      dominator_depth-AreLevels (level_of idom s) (rank_of s) (dominator_tree first second idom)
        fuel
        (λ id.
          All-both _ _ _ (level_of_child idom s acyclic first second id)
            (tree-IsRanked first second idom s acyclic id))
        (steps_up-none idom s acyclic (number_of s 0) 0 acyclic.no_root) (omega arith) in
    (idom, s, e, depth, ends, levels)
