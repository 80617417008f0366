-- ===== src/Graph/Paths/Shortest.antt =====
-- graph/paths.go: which paths to roots the search returns, and in what order.
use heaplens.Base.{
  ℕ, zero, suc, ◌+◌, ◌≤◌, ◌<◌, ◌≡◌, refl, sym, ap, ◌∙◌, ◌⊎◌, inl, inr, arith, List, [], ◌∷◌,
}
use heaplens.Base.{Bool, Bool-cases, List-cases, true, false, ◌==◌, length, length-append, ltb}
use heaplens.Base.{All, All-imp, All-both, append-nil, Any, some, some_inj, ltb→lt}
use heaplens.Base.Dict.{Dict}
use heaplens.Graph.{Object, ObjId, MemGraph, Order, get_roots}
use heaplens.Graph.Reverse.{ReverseEdges, referrers, build_reverse_edges}
use heaplens.Graph.Reverse.Counts.{count, count-build_reverse_edges}
use heaplens.Graph.Paths.{RootPath, SearchNode, Search, in_root_set}
use heaplens.Graph.Paths.{make_root_set, scan, search_loop, paths_to_roots, start}
use heaplens.Graph.Paths.Sound.{PointsTo, is_root, IsRootPath, in_root_set-make}
use heaplens.Graph.Paths.Rests.{LeadsOn, LeadsOn-Climb}
use heaplens.Graph.Paths.Lengths.{IsSorted}
use heaplens.Graph.Paths.Scans.{
  path_size, node_size, IsLevel, Waits, GoesBy, IsAhead, Settles, scan-Done,
}
use mathlib.Core.Path.{subst}

-- What is counted in the list is in it.
in_of_count : (u : ObjId) (refs : List ObjId) → 0 < count u refs → Any (λ x. x ≡ u) refs
unfolding count
in_of_count u [] h = absurd (omega (arith, h))
in_of_count u (x ∷ refs) h = elim (Bool-cases (x == u)) [
  | inl same ↦ inl (ground arith)
  | inr other ↦ inr (in_of_count u refs (ground arith))
]

-- Every path from `from` to a root is in the list, or the list is full and has no longer path.
abbrev pub HasShortest : MemGraph → ObjId → ℕ → List RootPath → Type 0
HasShortest g from max_paths result =
    (p : RootPath)
    → IsRootPath g from p
    → Any (λ r. r.ids ≡ p.ids) result
      ⊎ ((max_paths ≤ length result) × All (λ r. path_size r ≤ path_size p) result)

module _ (g : MemGraph) (from : ObjId) (max_paths : ℕ) where
  abbrev IsWhole : List ObjId → Type 0
  IsWhole ids = (rest : List ObjId) × (ids ≡ from ∷ rest) × LeadsOn g (from ∷ []) from rest

  abbrev Settled : ℕ → Search → Type 0
  Settled m s = (ids : List ObjId) → IsWhole ids → Settles g from max_paths ids m s

  abbrev Shortest : List RootPath → Type 0
  Shortest result =
      IsSorted path_size result
      × ((ids : List ObjId)
          → IsWhole ids
          → Any (λ r. r.ids ≡ ids) result
            ⊎ ((max_paths ≤ length result) × All (λ r. path_size r ≤ length ids) result))

  -- With the queue empty.
  empty-Shortest :
      (m : ℕ) (s : Search)
      → s.queue ≡ []
      → IsLevel g from max_paths m s
      → Settled m s
      → Shortest s.result
  empty-Shortest m s empty level settled = (
    level.sorted,
    λ ids whole. elim (settled ids whole) [
      | inl (inl found) ↦ inl found
      | inl (inr waits) ↦ absurd (subst (Any (Waits g from max_paths ids)) empty waits)
      | inr (full, long) ↦ inr (full, All-imp s.result (λ r le. omega arith) level.short)
    ],
  )

  waiting_long :
      (m : ℕ) (ids : List ObjId) (queue : List SearchNode)
      → All (λ node. (m ≤ node_size node) × (node_size node ≤ m + 1)) queue
      → Any (Waits g from max_paths ids) queue
      → m + 1 ≤ length ids
  waiting_long m ids [] near waits = absurd waits
  waiting_long m ids (node ∷ queue) ((le, le'), near) (inl (u, (rest, e, leads))) =
      let size = ap length e in omega (arith, length-append node.path (u ∷ rest))
  waiting_long m ids (node ∷ queue) (here, near) (inr waits) = waiting_long m ids queue near waits

  -- With the list full.
  full-Shortest :
      (m : ℕ) (s : Search)
      → max_paths ≤ length s.result
      → IsLevel g from max_paths m s
      → Settled m s
      → Shortest s.result
  full-Shortest m s full level settled = (
    level.sorted,
    λ ids whole. elim (settled ids whole) [
      | inl (inl found) ↦ inl found
      | inl (inr waits) ↦
          let long = waiting_long m ids s.queue level.near waits in
          inr (full, All-imp s.result (λ r le. omega arith) level.short)
      | inr (full', long) ↦ inr (full', All-imp s.result (λ r le. omega arith) level.short)
    ],
  )

  goes_by :
      (ids : List ObjId) (node : SearchNode) (u : ObjId) (refs : List ObjId)
      → Any (λ x. x ≡ u) refs
      → GoesBy g from max_paths ids node u
      → Any (GoesBy g from max_paths ids node) refs
  goes_by ids node u [] here goes = absurd here
  goes_by ids node u (x ∷ refs) (inl same) goes =
      inl (subst (GoesBy g from max_paths ids node) (sym same) goes)
  goes_by ids node u (x ∷ refs) (inr later) goes = inr (goes_by ids node u refs later goes)

  popped-IsLevel :
      (m : ℕ) (node : SearchNode) (queue : List SearchNode) (s : Search)
      → s.queue ≡ node ∷ queue
      → IsLevel g from max_paths m s
      → IsLevel g from max_paths (node_size node) (record s { queue = queue })
  popped-IsLevel m node queue s q h =
      let (after, queued) = subst (IsSorted node_size) q h.queued in
      let ((le, le'), near) =
        subst (All (λ n. (m ≤ node_size n) × (node_size n ≤ m + 1))) q h.near in
      record {
        sorted = h.sorted;
        short = All-imp s.result (λ p short. omega arith) h.short;
        queued = queued;
        near =
            All-imp queue (λ n (sorted, (low, high)). (sorted, omega arith))
              (All-both _ _ queue after near);
      }

  popped-IsAhead :
      (m : ℕ) (ids : List ObjId) (node : SearchNode) (queue : List SearchNode) (refs : List ObjId)
      (s : Search)
      → s.queue ≡ node ∷ queue
      → length s.result < max_paths
      → ((u : ObjId) → PointsTo g u node.id → Any (λ x. x ≡ u) refs)
      → Settles g from max_paths ids m s
      → IsAhead g from max_paths ids node refs (record s { queue = queue })
  popped-IsAhead m ids node queue refs s q room edges (inl (inl found)) = inl (inl found)
  popped-IsAhead m ids node queue refs s q room edges (inl (inr waits)) =
      elim (subst (Any (Waits g from max_paths ids)) q waits) [
        | inl (u, (rest, e, (inner, edge, new, leads))) ↦
            inr (goes_by ids node u refs (edges u edge) (rest, e, (inner, edge, new, leads)))
        | inr later ↦ inl (inr later)
      ]
  popped-IsAhead m ids node queue refs s q room edges (inr (full, long)) = absurd (omega arith)

  module _ (root_set : Dict Bool) (roots : (x : ObjId) → in_root_set root_set x ≡ is_root g x) where
    search_loop-Shortest :
        (reverse : ReverseEdges)
        → ((v u : ObjId) → PointsTo g u v → Any (λ x. x ≡ u) (referrers reverse v))
        → (m fuel : ℕ) (s : Search) (result : List RootPath) → IsLevel g from max_paths m s
        → Settled m s
        → search_loop root_set max_paths reverse fuel s ≡ some result
        → Shortest result
    unfolding search_loop
    search_loop-Shortest reverse edges m zero s result level settled e = cc
    search_loop-Shortest reverse edges m (suc fuel) s result level settled e =
        elim (List-cases s.queue) [
          | inl empty ↦
              let same : s.result ≡ result = some_inj (rw (empty, search_loop) at e) in
              subst Shortest same (empty-Shortest m s empty level settled)
          | inr (node, queue, q) ↦ elim (Bool-cases (ltb (length s.result) max_paths)) [
            | inl more ↦
                let refs = referrers reverse node.id in
                let popped : Search = record s { queue = queue } in
                let room = ltb→lt _ _ more in
                let (level', settles) =
                  scan-Done g from max_paths root_set roots (node_size node) node refs popped refl
                    (popped-IsLevel m node queue s q level) in
                search_loop-Shortest reverse edges (node_size node) fuel
                  (scan root_set max_paths node refs popped) result level'
                  (λ ids whole. settles ids (
                    popped-IsAhead m ids node queue refs s q room (edges node.id)
                      (settled ids whole)))
                  (rw (q, more, search_loop) at e)
            | inr full ↦
                let same : s.result ≡ result = some_inj (rw (q, full, search_loop) at e) in
                subst Shortest same (full-Shortest m s (ground arith) level settled)
          ]
        ]

start-IsLevel :
    (g : MemGraph) (from : ObjId) (max_paths : ℕ) → IsLevel g from max_paths 1 (start from)
start-IsLevel g from max_paths = record {
  sorted = tt;
  short = tt;
  queued = (tt, tt);
  near = ((omega arith, omega arith), tt);
}

start-Settled :
    (g : MemGraph) (from : ObjId) (max_paths : ℕ)
    → is_root g from ≡ false
    → Settled g from max_paths 1 (start from)
start-Settled g from max_paths inner ids ([], e, root) =
    let impossible : ⊥ = cc in absurd impossible
start-Settled g from max_paths inner ids (u ∷ rest, e, leads) =
    inl (inr (inl (u, (rest, e, leads))))

IsWhole-path :
    (g : MemGraph) (from : ObjId) (max_paths : ℕ) (p : RootPath)
    → IsRootPath g from p
    → IsWhole g from max_paths p.ids
IsWhole-path g from max_paths p h =
    let (rest, e, leads) = LeadsOn-Climb [] h.climb h.top in
    (rest, sym (append-nil p.ids) ∙ e, leads)

root_alone :
    (g : MemGraph) (from : ObjId) (max_paths : ℕ) (ids : List ObjId)
    → is_root g from ≡ true
    → IsWhole g from max_paths ids
    → from ∷ [] ≡ ids
root_alone g from max_paths ids root ([], e, leads) = sym e
root_alone g from max_paths ids root (u ∷ rest, e, (inner, edge, new, leads)) =
    let impossible : ⊥ = cc in absurd impossible

-- The paths come by length, shortest first, and no path is left out that is shorter than one that is
-- returned: every path from `from` to a root is in the result, but where there are `max_paths` paths in
-- it already, none of them longer. A path steps to an object that points to the one before and is not
-- on the path yet, and stops at the first root.
pub paths_to_roots-HasShortest :
    (fuel : ℕ) (order : Order Object) (g : MemGraph) (from : ObjId) (max_paths : ℕ)
    (result : List RootPath)
    → paths_to_roots fuel order g from max_paths ≡ some result
    → IsSorted path_size result × HasShortest g from max_paths result
unfolding paths_to_roots get_roots
paths_to_roots-HasShortest fuel order g from max_paths result e =
    let roots = in_root_set-make g.roots.ids in
    let root_set = make_root_set g.roots.ids in
    elim (Bool-cases (max_paths == 0)) [
      | inl none_wanted ↦
          let same : [] ≡ result = some_inj (rw none_wanted at e) in
          rw (← same) (tt, λ p h. inr (ground arith, tt))
      | inr wanted ↦ elim (Bool-cases (in_root_set root_set from)) [
        | inl root ↦
            let same : record { ids = from ∷ [] } ∷ [] ≡ result =
              some_inj (rw (wanted, root) at e) in
            rw (← same) (
              (tt, tt),
              λ p h. inl (
                  inl (
                    root_alone g from max_paths p.ids (sym (roots from) ∙ root)
                      (IsWhole-path g from max_paths p h))),
            )
        | inr inside ↦
            let (sorted, shortest) =
              search_loop-Shortest g from max_paths root_set roots (build_reverse_edges order g)
                (λ v u edge. in_of_count u _ (omega (arith, count-build_reverse_edges order g u v)))
                1 fuel (start from) result (start-IsLevel g from max_paths)
                (start-Settled g from max_paths (sym (roots from) ∙ inside))
                (rw (wanted, inside) at e) in
            (sorted, λ p h. shortest p.ids (IsWhole-path g from max_paths p h))
      ]
    ]
