-- ===== src/Graph/Paths/Scans.antt =====
-- graph/paths.go: the inner loop of the search, by the lengths of paths and by where each path is.
use heaplens.Base.{ℕ, ◌+◌, ◌≤◌, ◌≡◌, sym, ap, ◌∙◌, ◌⊎◌, inl, inr, arith, List, [], ◌∷◌, ◌++◌}
use heaplens.Base.{append_assoc, Bool, Bool-cases, true, false, length, length-append, leb}
use heaplens.Base.{All, All-imp, All-snoc, Any, Any-append_left, Any-snoc}
use heaplens.Base.Dict.{Dict}
use heaplens.Graph.{ObjId, MemGraph}
use heaplens.Graph.Paths.{RootPath, SearchNode, Search, Visit, leave, next, contains, in_root_set}
use heaplens.Graph.Paths.{visit, scan}
use heaplens.Graph.Paths.Sound.{is_root}
use heaplens.Graph.Paths.Rests.{LeadsOn}
use heaplens.Graph.Paths.Lengths.{IsSorted, IsSorted-snoc}

abbrev pub path_size : RootPath → ℕ
path_size p = length p.ids

abbrev pub node_size : SearchNode → ℕ
node_size node = length node.path

module _ (g : MemGraph) (from : ObjId) (max_paths : ℕ) where
  -- The paths and nodes of a state while nodes of paths of length `m` are scanned.
  pub record IsLevel (m : ℕ) (s : Search) : Type 0 where
    pub sorted : IsSorted path_size s.result
    pub short : All (λ p. path_size p ≤ m + 1) s.result
    pub queued : IsSorted node_size s.queue
    pub near : All (λ node. (m ≤ node_size node) × (node_size node ≤ m + 1)) s.queue

  -- A path that goes on from a node, by `u` first.
  abbrev pub GoesBy : List ObjId → SearchNode → ObjId → Type 0
  GoesBy ids node u =
      (rest : List ObjId) × (ids ≡ node.path ++ u ∷ rest) × LeadsOn g node.path node.id (u ∷ rest)

  abbrev pub Waits : List ObjId → SearchNode → Type 0
  Waits ids node = (u : ObjId) × GoesBy ids node u

  abbrev pub IsPlaced : List ObjId → Search → Type 0
  IsPlaced ids s = Any (λ p. p.ids ≡ ids) s.result ⊎ Any (Waits ids) s.queue

  -- The same, or it goes by a referrer of `node` that is to come.
  abbrev pub IsAhead : List ObjId → SearchNode → List ObjId → Search → Type 0
  IsAhead ids node refs s = IsPlaced ids s ⊎ Any (GoesBy ids node) refs

  abbrev pub Settles : List ObjId → ℕ → Search → Type 0
  Settles ids m s = IsPlaced ids s ⊎ ((max_paths ≤ length s.result) × (m + 1 ≤ length ids))

  found-IsLevel :
      (m : ℕ) (ids : List ObjId) (s : Search)
      → length ids ≡ m + 1
      → IsLevel m s
      → IsLevel m (record s { result = s.result ++ record { ids = ids } ∷ [] })
  found-IsLevel m ids s e h = record {
    sorted =
        IsSorted-snoc path_size s.result _ h.sorted
          (All-imp s.result (λ p le. omega arith) h.short);
    short = All-snoc _ s.result _ h.short (omega arith);
    queued = h.queued;
    near = h.near;
  }

  queued-IsLevel :
      (m : ℕ) (node : SearchNode) (s : Search)
      → node_size node ≡ m + 1
      → IsLevel m s
      → IsLevel m (record s { queue = s.queue ++ node ∷ [] })
  queued-IsLevel m node s e h = record {
    sorted = h.sorted;
    short = h.short;
    queued =
        IsSorted-snoc node_size s.queue node h.queued
          (All-imp s.queue (λ n le. omega arith) h.near);
    near = All-snoc _ s.queue node h.near (omega arith, omega arith);
  }

  -- A path that went by `u` is behind it in the queue, where `u` is no root.
  pushed-IsPlaced :
      (ids : List ObjId) (node : SearchNode) (u : ObjId)
      → is_root g u ≡ false
      → GoesBy ids node u
      → Waits ids (record { id = u; path = node.path ++ u ∷ [] })
  pushed-IsPlaced ids node u inner ([], e, (a, b, c, root)) =
      let impossible : ⊥ = cc in absurd impossible
  pushed-IsPlaced ids node u inner (w ∷ rest, e, (a, b, c, leads)) =
      (w, (rest, e ∙ sym (append_assoc node.path (u ∷ []) (w ∷ rest)), leads))

  -- A path that went by a root ends there.
  found_path :
      (ids : List ObjId) (node : SearchNode) (u : ObjId)
      → is_root g u ≡ true
      → GoesBy ids node u
      → node.path ++ u ∷ [] ≡ ids
  found_path ids node u root ([], e, leads) = sym e
  found_path ids node u root (w ∷ rest, e, (a, b, c, (inner, more, old, leads))) =
      let impossible : ⊥ = cc in absurd impossible

  no_more :
      (ids : List ObjId) (node : SearchNode) (s : Search) (m : ℕ)
      → IsAhead ids node [] s
      → Settles ids m s
  no_more ids node s m (inl placed) = inl placed
  no_more ids node s m (inr none_left) = absurd none_left

  IsAhead-old :
      (ids refs : List ObjId) (node : SearchNode) (u : ObjId) (s : Search)
      → contains node.path u ≡ true
      → IsAhead ids node (u ∷ refs) s
      → IsAhead ids node refs s
  IsAhead-old ids refs node u s old (inl placed) = inl placed
  IsAhead-old ids refs node u s old (inr (inl (rest, e, (inner, edge, new, leads)))) =
      let impossible : ⊥ = cc in absurd impossible
  IsAhead-old ids refs node u s old (inr (inr later)) = inr later

  IsAhead-found :
      (ids refs : List ObjId) (node : SearchNode) (u : ObjId) (s : Search)
      → is_root g u ≡ true
      → IsAhead ids node (u ∷ refs) s
      → IsAhead ids node refs
          (record s { result = s.result ++ record { ids = node.path ++ u ∷ [] } ∷ [] })
  IsAhead-found ids refs node u s root (inl (inl found)) =
      inl (inl (Any-append_left _ s.result _ found))
  IsAhead-found ids refs node u s root (inl (inr waits)) = inl (inr waits)
  IsAhead-found ids refs node u s root (inr (inl goes)) =
      inl (inl (Any-snoc _ s.result _ (found_path ids node u root goes)))
  IsAhead-found ids refs node u s root (inr (inr later)) = inr later

  IsAhead-queued :
      (ids refs : List ObjId) (node : SearchNode) (u : ObjId) (s : Search)
      → is_root g u ≡ false
      → IsAhead ids node (u ∷ refs) s
      → IsAhead ids node refs
          (record s { queue = s.queue ++ record { id = u; path = node.path ++ u ∷ [] } ∷ [] })
  IsAhead-queued ids refs node u s inner (inl (inl found)) = inl (inl found)
  IsAhead-queued ids refs node u s inner (inl (inr waits)) =
      inl (inr (Any-append_left _ s.queue _ waits))
  IsAhead-queued ids refs node u s inner (inr (inl goes)) =
      inl (inr (Any-snoc _ s.queue _ (pushed-IsPlaced ids node u inner goes)))
  IsAhead-queued ids refs node u s inner (inr (inr later)) = inr later

  abbrev Keeps : ℕ → SearchNode → ObjId → List ObjId → Search → Search → Type 0
  Keeps m node u refs s t =
      IsLevel m t × ((ids : List ObjId) → IsAhead ids node (u ∷ refs) s → IsAhead ids node refs t)

  abbrev After : ℕ → SearchNode → ObjId → List ObjId → Search → Visit → Type 0
  After m node u refs s (leave t) = Keeps m node u refs s t × (max_paths ≤ length t.result)
  After m node u refs s (next t) = Keeps m node u refs s t

  module _ (root_set : Dict Bool) (roots : (x : ObjId) → in_root_set root_set x ≡ is_root g x) where
    visit-After :
        (m : ℕ) (node : SearchNode) (u : ObjId) (refs : List ObjId) (s : Search)
        → node_size node ≡ m
        → IsLevel m s
        → After m node u refs s (visit root_set max_paths node u s)
    unfolding visit
    visit-After m node u refs s e h =
        let longer : length (node.path ++ u ∷ []) ≡ m + 1 =
          omega (arith, length-append node.path (u ∷ [])) in
        elim (Bool-cases (contains node.path u)) [
          | inl old ↦ rw (visit, old) (h, λ ids. IsAhead-old ids refs node u s old)
          | inr new ↦ elim (Bool-cases (in_root_set root_set u)) [
            | inl root ↦
                let keeps : Keeps m node u refs s
                    (record s { result = s.result ++ record { ids = node.path ++ u ∷ [] } ∷ [] }) =
                  (
                    found-IsLevel m (node.path ++ u ∷ []) s longer h,
                    λ ids. IsAhead-found ids refs node u s (sym (roots u) ∙ root),
                  ) in
                elim (Bool-cases (
                  leb max_paths (length (s.result ++ record { ids = node.path ++ u ∷ [] } ∷ [])))) [
                    | inl full ↦ rw (visit, new, root, full) (keeps, ground arith)
                    | inr more ↦ rw (visit, new, root, more) keeps
                  ]
            | inr inside ↦
                rw (visit, new, inside)
                  (
                    queued-IsLevel m (record { id = u; path = node.path ++ u ∷ [] }) s longer h,
                    λ ids. IsAhead-queued ids refs node u s (sym (roots u) ∙ inside),
                  )
          ]
        ]

    -- What the inner loop leaves.
    abbrev pub Done : ℕ → SearchNode → List ObjId → Search → Search → Type 0
    Done m node refs s t =
        IsLevel m t × ((ids : List ObjId) → IsAhead ids node refs s → Settles ids m t)

    leave-Settles :
        (m : ℕ) (node : SearchNode) (ids refs : List ObjId) (t : Search)
        → node_size node ≡ m
        → max_paths ≤ length t.result
        → IsAhead ids node refs t
        → Settles ids m t
    leave-Settles m node ids refs t e full (inl placed) = inl placed
    leave-Settles m node ids [] t e full (inr none_left) = absurd none_left
    leave-Settles m node ids (u ∷ refs) t e full (inr (inl (rest, path, leads))) =
        inr (full, let size = ap length path in omega (arith, length-append node.path (u ∷ rest)))
    leave-Settles m node ids (u ∷ refs) t e full (inr (inr later)) =
        leave-Settles m node ids refs t e full (inr later)

    rest-Done :
        (m : ℕ) (node : SearchNode) (u : ObjId) (refs : List ObjId) (s : Search)
        → node_size node ≡ m
        → ((t : Search) → IsLevel m t → Done m node refs t (scan root_set max_paths node refs t))
        → (v : Visit) → After m node u refs s v
        → Done m node
            (u ∷ refs)
            s
            (elim v as (λ _. Search) [ leave t ↦ t | next t ↦ scan root_set max_paths node refs t ])
    rest-Done m node u refs s e more (leave t) ((level, keeps), full) =
        (level, λ ids ahead. leave-Settles m node ids refs t e full (keeps ids ahead))
    rest-Done m node u refs s e more (next t) (level, keeps) =
        let (level', settles) = more t level in (level', λ ids ahead. settles ids (keeps ids ahead))

    pub scan-Done :
        (m : ℕ) (node : SearchNode) (refs : List ObjId) (s : Search)
        → node_size node ≡ m
        → IsLevel m s
        → Done m node refs s (scan root_set max_paths node refs s)
    unfolding scan
    scan-Done m node [] s e h = (h, λ ids. no_more ids node s m)
    scan-Done m node (u ∷ refs) s e h =
        rest-Done m node u refs s e (λ t. scan-Done m node refs t e)
          (visit root_set max_paths node u s) (visit-After m node u refs s e h)
