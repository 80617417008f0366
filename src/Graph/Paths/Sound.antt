-- ===== src/Graph/Paths/Sound.antt =====
-- What the search returns: simple paths, against the pointers, from the object to a root.
use heaplens.Base.{
  ℕ, zero, suc, ◌≤◌, ◌<◌, ◌≡◌, refl, sym, ◌∙◌, arith, List, [], ◌∷◌, ◌++◌, foldl, All,
}
use heaplens.Base.{Bool, true, false, ◌||◌, some, ◌==◌, length, ltb, leb}
use heaplens.Base.{Bool-cases, List-cases, inl, inr, All-snoc, length-append, ltb→lt}
use heaplens.Base.{some_inj, All-imp}
use mathlib.Core.Path.{subst}
use heaplens.Base.Dict.{Dict, lookup, insert, lookup-insert}
use heaplens.Graph.{Object, ObjId, MemGraph, Order, values, get_roots}
use heaplens.Graph.Reverse.{ReverseEdges, referrers, build_reverse_edges}
use heaplens.Graph.Reverse.Counts.{count-pos, pointers_between, count-build_reverse_edges}
use heaplens.Graph.Paths.{RootPath, SearchNode, Search, Visit, leave, next, contains, in_root_set}
use heaplens.Graph.Paths.{make_root_set, visit, scan, search_loop, paths_to_roots, start}

-- The object `u` of the graph has a pointer to `v`.
abbrev pub PointsTo : MemGraph → ObjId → ObjId → Type 0
PointsTo g u v = 0 < pointers_between (values g.objects) u v

abbrev pub is_root : MemGraph → ObjId → Bool
is_root g id = contains g.roots.ids id

-- A path from `from` up to an object, each step to an object that points to the last and is new on the
-- path. No step leaves a root.
pub data Climb (g : MemGraph) (from : ObjId) : List ObjId → ObjId → Type 0 where
  here : Climb g from (from ∷ []) from
  up :
      {path : List ObjId} {v : ObjId} (u : ObjId)
      → Climb g from path v
      → is_root g v ≡ false
      → PointsTo g u v
      → contains path u ≡ false
      → Climb g from (path ++ u ∷ []) u

-- A climb that ends at a root.
pub record IsRootPath (g : MemGraph) (from : ObjId) (p : RootPath) : Type 0 where
  pub root : ObjId
  pub climb : Climb g from p.ids root
  pub top : is_root g root ≡ true

root_set_fold :
    (ids : List ObjId) (set : Dict Bool) (x : ObjId)
    → in_root_set (foldl (λ root_set id. insert id true root_set) set ids) x
      ≡ (in_root_set set x || contains ids x)
unfolding in_root_set contains
root_set_fold [] set x = ground arith
root_set_fold (id ∷ ids) set x =
    ground (arith, root_set_fold ids (insert id true set) x, lookup-insert id x true set)

pub in_root_set-make :
    (ids : List ObjId) (x : ObjId) → in_root_set (make_root_set ids) x ≡ contains ids x
unfolding make_root_set
in_root_set-make ids x = root_set_fold ids [] x ∙ unfold in_root_set lookup in refl

-- Every referrer that the search reads points to the object.
pub referrers-PointsTo :
    (order : Order Object) (g : MemGraph) (v : ObjId)
    → All (λ u. PointsTo g u v) (referrers (build_reverse_edges order g) v)
referrers-PointsTo order g v =
    All-imp (referrers (build_reverse_edges order g) v)
      (λ u h. omega (arith, count-build_reverse_edges order g u v)) (count-pos _)

module _ (g : MemGraph) (from : ObjId) (max_paths : ℕ) where
  -- A node of the queue is a climb from `from` to an object that is no root.
  record IsClimb (node : SearchNode) : Type 0 where
    climb : Climb g from node.path node.id
    inner : is_root g node.id ≡ false

  record IsSound (s : Search) : Type 0 where
    queue : All IsClimb s.queue
    result : All (IsRootPath g from) s.result

  abbrev After : Visit → Type 0
  After (leave t) = IsSound t × (length t.result ≤ max_paths)
  After (next t) = IsSound t × (length t.result < max_paths)

  module _ (root_set : Dict Bool) (roots : (x : ObjId) → in_root_set root_set x ≡ is_root g x) where
    visit-After :
        (node : SearchNode) (u : ObjId) (s : Search)
        → IsClimb node
        → PointsTo g u node.id
        → IsSound s
        → length s.result < max_paths
        → After (visit root_set max_paths node u s)
    unfolding visit
    visit-After node u s hn edge h room = elim (Bool-cases (contains node.path u)) [
      | inl old ↦ rw (old, visit) (h, room)
      | inr new ↦
          let climb = up u hn.climb hn.inner edge new in
          elim (Bool-cases (in_root_set root_set u)) [
            | inl root ↦
                let path : RootPath = record { ids = node.path ++ u ∷ [] } in
                let top : is_root g u ≡ true = sym (roots u) ∙ root in
                let found : All (IsRootPath g from) (s.result ++ path ∷ []) =
                  All-snoc _ s.result path h.result
                    (record { root = u; climb = climb; top = top }) in
                let size = length-append s.result (path ∷ []) in
                elim (Bool-cases (leb max_paths (length (s.result ++ path ∷ [])))) [
                  | inl full ↦
                      rw (new, root, full, visit)
                        (record { queue = h.queue; result = found }, omega arith)
                  | inr more ↦
                      rw (new, root, more, visit)
                        (record { queue = h.queue; result = found }, ground arith)
                ]
            | inr inside ↦
                let node' : SearchNode = record { id = u; path = node.path ++ u ∷ [] } in
                let inner : is_root g u ≡ false = sym (roots u) ∙ inside in
                rw (new, inside, visit)
                  (
                    record {
                      queue =
                          All-snoc _ s.queue node' h.queue
                            (record { climb = climb; inner = inner });
                      result = h.result;
                    },
                    room,
                  )
          ]
    ]

    -- What the inner loop leaves.
    abbrev Kept : Search → Type 0
    Kept t = IsSound t × (length t.result ≤ max_paths)

    rest-Kept :
        (node : SearchNode) (refs : List ObjId)
        → ((t : Search)
            → IsSound t
            → length t.result < max_paths
            → Kept (scan root_set max_paths node refs t))
        → (v : Visit) → After v
        → Kept
            (elim v as (λ _. Search) [ leave t ↦ t | next t ↦ scan root_set max_paths node refs t ])
    rest-Kept node refs more (leave t) h = h
    rest-Kept node refs more (next t) (h, room) = more t h room

    scan-Kept :
        (node : SearchNode) (refs : List ObjId) (s : Search)
        → IsClimb node
        → All (λ u. PointsTo g u node.id) refs
        → IsSound s
        → length s.result < max_paths
        → Kept (scan root_set max_paths node refs s)
    unfolding scan
    scan-Kept node [] s hn edges h room = (h, omega arith)
    scan-Kept node (u ∷ refs) s hn (edge, edges) h room =
        rest-Kept node refs (λ t. scan-Kept node refs t hn edges)
          (visit root_set max_paths node u s) (visit-After node u s hn edge h room)

    search_loop-Kept :
        (reverse : ReverseEdges)
        → ((v : ObjId) → All (λ u. PointsTo g u v) (referrers reverse v))
        → (fuel : ℕ) (s : Search) (result : List RootPath) → Kept s
        → search_loop root_set max_paths reverse fuel s ≡ some result
        → All (IsRootPath g from) result × (length result ≤ max_paths)
    unfolding search_loop
    search_loop-Kept reverse edges zero s result h e = cc
    search_loop-Kept reverse edges (suc fuel) s result (h, room) e = elim (List-cases s.queue) [
      | inl empty ↦
          let same : s.result ≡ result = some_inj (rw (empty, search_loop) at e) in
          rw (← same) (h.result, room)
      | inr (node, queue, q) ↦
          let (first, others) = subst (All IsClimb) q h.queue in
          elim (Bool-cases (ltb (length s.result) max_paths)) [
            | inl more ↦
                search_loop-Kept reverse edges fuel
                  (scan root_set max_paths node (referrers reverse node.id)
                    (record s { queue = queue }))
                  result
                  (scan-Kept node (referrers reverse node.id) (record s { queue = queue }) first
                    (edges node.id) (record { queue = others; result = h.result })
                    (ltb→lt _ _ more))
                  (rw (q, more, search_loop) at e)
            | inr full ↦
                let same : s.result ≡ result = some_inj (rw (q, full, search_loop) at e) in
                rw (← same) (h.result, room)
          ]
    ]

-- The search returns at most `max_paths` paths. Each of them starts at `from` and ends at a root, each
-- of its steps goes to an object that points to the one before, no object is on it twice, and no
-- object but the last is a root.
pub paths_to_roots-IsRootPath :
    (fuel : ℕ) (order : Order Object) (g : MemGraph) (from : ObjId) (max_paths : ℕ)
    (result : List RootPath)
    → paths_to_roots fuel order g from max_paths ≡ some result
    → All (IsRootPath g from) result × (length result ≤ max_paths)
unfolding paths_to_roots get_roots
paths_to_roots-IsRootPath fuel order g from max_paths result e =
    let roots = in_root_set-make g.roots.ids in
    let root_set = make_root_set g.roots.ids in
    elim (Bool-cases (max_paths == 0)) [
      | inl none_wanted ↦
          let same : [] ≡ result = some_inj (rw none_wanted at e) in rw (← same) (tt, omega arith)
      | inr wanted ↦ elim (Bool-cases (in_root_set root_set from)) [
        | inl root ↦
            let same : record { ids = from ∷ [] } ∷ [] ≡ result =
              some_inj (rw (wanted, root) at e) in
            rw (← same) (
              (record { root = from; climb = here; top = sym (roots from) ∙ root }, tt),
              ground arith,
            )
        | inr inside ↦
            search_loop-Kept g from max_paths root_set roots (build_reverse_edges order g)
              (referrers-PointsTo order g) fuel (start from) result
              (
                record {
                  queue = (record { climb = here; inner = sym (roots from) ∙ inside }, tt);
                  result = tt;
                },
                omega arith,
              )
              (rw (wanted, inside) at e)
      ]
    ]
