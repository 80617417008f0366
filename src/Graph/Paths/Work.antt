-- ===== src/Graph/Paths/Work.antt =====
-- The work that is left in a queue, which falls with every round of the search: a path can only grow
-- by objects of the graph that are not on it yet.
use heaplens.Base.{ℕ, zero, suc, ◌+◌, ◌*◌, ◌≤◌, ◌<◌, ◌≡◌, refl, arith, List, [], ◌∷◌, ◌++◌}
use heaplens.Base.{Bool, true, false, ◌||◌, some, ltb, ◌==◌, if◌then◌else◌, length}
use heaplens.Base.{Bool-cases, List-cases, inl, inr, All, ap}
use heaplens.Base.Dict.{Dict}
use heaplens.Graph.{ObjId}
use heaplens.Graph.Reverse.{ReverseEdges, referrers}
use heaplens.Graph.Paths.{RootPath, SearchNode, Search, contains, visit, scan, search_loop}
use heaplens.Graph.Paths.{Visit, leave, next}

pub contains-append :
    (xs : List ObjId) (y x : ObjId) → contains (xs ++ y ∷ []) x ≡ (contains xs x || y == x)
unfolding contains
contains-append [] y x = ground arith
contains-append (z ∷ xs) y x = ground (arith, contains-append xs y x)

-- The IDs that are not on the path.
pub fresh : List ObjId → List ObjId → ℕ
fresh [] path = 0
fresh (i ∷ ids) path = (if contains path i then 0 else 1) + fresh ids path

fresh_mono : (ids path : List ObjId) (r : ObjId) → fresh ids (path ++ r ∷ []) ≤ fresh ids path
unfolding fresh
fresh_mono [] path r = omega arith
fresh_mono (i ∷ ids) path r = ground (arith, fresh_mono ids path r, contains-append path r i)

fresh_falls :
    (ids path : List ObjId) (r : ObjId)
    → contains ids r ≡ true
    → contains path r ≡ false
    → fresh ids (path ++ r ∷ []) < fresh ids path
unfolding fresh contains
fresh_falls [] path r here new = cc
fresh_falls (i ∷ ids) path r here new =
    ground (arith, fresh_falls ids path r, fresh_mono ids path r, contains-append path r i)

-- The rounds that a path with `k` fresh objects can cost, with `b` referrers at most to an object.
pub cost : ℕ → ℕ → ℕ
cost b zero = 1
cost b (suc k) = 1 + b * cost b k

times_mono : (b x y : ℕ) → x ≤ y → b * x ≤ b * y
times_mono b x y h = grind arith

times_mono_left : (c x y : ℕ) → x ≤ y → x * c ≤ y * c
times_mono_left c x y h = grind arith

pub cost_mono : (b j k : ℕ) → j ≤ k → cost b j ≤ cost b k
unfolding cost
cost_mono b zero zero h = omega arith
cost_mono b zero (suc k) h = omega arith
cost_mono b (suc j) zero h = absurd (omega arith)
cost_mono b (suc j) (suc k) h =
    omega (arith, times_mono b (cost b j) (cost b k) (cost_mono b j k (omega arith)))

-- What a node adds when it is one of the objects and new on the path, for a cost `c` of its path.
abbrev pub Allows : List ObjId → ℕ → List ObjId → ℕ → Type 0
Allows ids b path c =
    (r : ObjId)
    → contains ids r ≡ true
    → contains path r ≡ false
    → cost b (fresh ids (path ++ r ∷ [])) ≤ c

module _ (ids : List ObjId) (b : ℕ) where
  pub work : List SearchNode → ℕ
  work [] = 0
  work (node ∷ queue) = cost b (fresh ids node.path) + work queue

  work-append :
      (xs : List SearchNode) (node : SearchNode)
      → work (xs ++ node ∷ []) ≡ work xs + cost b (fresh ids node.path)
  unfolding work
  work-append [] node = omega arith
  work-append (x ∷ xs) node = omega (arith, work-append xs node)

  -- One referrer adds at most `c`, and nothing where no cost is allowed.
  abbrev Adds : ℕ → ℕ → Visit → Type 0
  Adds n c (leave t) = work t.queue ≤ n + c
  Adds n c (next t) = work t.queue ≤ n + c

  visit-Adds :
      (root_set : Dict Bool) (max_paths c : ℕ) (node : SearchNode) (r : ObjId) (s : Search)
      → Allows ids b node.path c
      → contains ids r ≡ true
      → Adds (work s.queue) c (visit root_set max_paths node r s)
  unfolding visit
  visit-Adds root_set max_paths c node r s allows known =
      ground (arith, allows r, work-append s.queue (record { id = r; path = node.path ++ r ∷ [] }))

  -- A scan adds at most `c` for each referrer.
  work-scan :
      (root_set : Dict Bool) (max_paths c : ℕ) (node : SearchNode) (refs : List ObjId) (s : Search)
      → Allows ids b node.path c
      → All (λ r. contains ids r ≡ true) refs
      → work (scan root_set max_paths node refs s).queue ≤ work s.queue + length refs * c
  unfolding scan
  work-scan root_set max_paths c node [] s allows all = omega arith
  work-scan root_set max_paths c node (r ∷ refs) s allows (known, all) =
      rest (visit root_set max_paths node r s)
        (visit-Adds root_set max_paths c node r s allows known)
        (λ t. work-scan root_set max_paths c node refs t allows all)
    where
      rest :
          (v : Visit)
          → Adds (work s.queue) c v
          → ((t : Search)
              → work (scan root_set max_paths node refs t).queue ≤ work t.queue + length refs * c)
          → work
              (elim v as (λ _. Search) [
                | leave t ↦ t
                | next t ↦ scan root_set max_paths node refs t
              ]).queue
            ≤ work s.queue + suc (length refs) * c
      rest (leave t) h more = omega arith
      rest (next t) h more = omega (arith, more t)

  -- What bounds the search: each list of referrers has at most `b` elements, all of them in `ids`.
  pub record IsBounded (reverse : ReverseEdges) : Type 0 where
    pub few : (id : ObjId) → length (referrers reverse id) ≤ b
    pub known : (id : ObjId) → All (λ r. contains ids r ≡ true) (referrers reverse id)

  -- A round takes a node off the queue and leaves less work.
  round_falls :
      (root_set : Dict Bool) (max_paths : ℕ) (node : SearchNode) (refs : List ObjId) (s : Search)
      → length refs ≤ b
      → All (λ r. contains ids r ≡ true) refs
      → work (scan root_set max_paths node refs s).queue < work (node ∷ s.queue)
  unfolding work cost
  round_falls root_set max_paths node refs s few known = split (fresh ids node.path) refl
    where
      split :
          (k : ℕ)
          → fresh ids node.path ≡ k
          → work (scan root_set max_paths node refs s).queue
            < cost b (fresh ids node.path) + work s.queue
      split zero e =
          let none_left : Allows ids b node.path 0 =
            λ r here new. absurd (omega (arith, fresh_falls ids node.path r here new)) in
          rw e (omega (arith, work-scan root_set max_paths 0 node refs s none_left known))
      split (suc k) e =
          let smaller : Allows ids b node.path (cost b k) = λ r here new.
            cost_mono b (fresh ids (node.path ++ r ∷ [])) k
              (omega (arith, fresh_falls ids node.path r here new)) in
          rw e (
            omega (
              arith,
              work-scan root_set max_paths (cost b k) node refs s smaller known,
              times_mono_left (cost b k) (length refs) b few,
            ))

  pub search_loop_ends :
      (root_set : Dict Bool) (max_paths : ℕ) (reverse : ReverseEdges)
      → IsBounded reverse
      → (fuel : ℕ) (s : Search) → work s.queue < fuel
      → (result : List RootPath) × (search_loop root_set max_paths reverse fuel s ≡ some result)
  unfolding search_loop
  search_loop_ends root_set max_paths reverse bounded zero s h = absurd (omega arith)
  search_loop_ends root_set max_paths reverse bounded (suc fuel) s h = elim (List-cases s.queue) [
    | inl empty ↦ (s.result, rw (empty, search_loop))
    | inr (node, queue, e) ↦ elim (Bool-cases (ltb (length s.result) max_paths)) [
      | inl room ↦
          let falls =
            round_falls root_set max_paths node (referrers reverse node.id)
              (record s { queue = queue }) (bounded.few node.id) (bounded.known node.id) in
          let (result, ends) =
            search_loop_ends root_set max_paths reverse bounded fuel
              (scan root_set max_paths node (referrers reverse node.id)
                (record s { queue = queue }))
              (omega (arith, ap work e)) in
          (result, rw (e, room, search_loop) ends)
      | inr full ↦ (s.result, rw (e, full, search_loop))
    ]
  ]
