-- ===== src/Graph/Dominators.antt =====
-- graph/dominators.go: Dominators, by the algorithm of Lengauer and Tarjan. The closures dfs, compress,
-- eval and link and the maps that they share are functions over one state. An int that may be -1 is an
-- `Option`, with `none` for -1; a missing key reads as Go's zero value.
pub mod Empty
pub mod Edges
pub mod Numbering
pub mod Rounds
pub mod Search
pub mod Unvisited
pub mod Visits
pub mod Actions
pub mod Total
pub mod Answers
pub mod Reach
pub mod Stays
pub mod Reached
use heaplens.Base.{ℕ, zero, suc, ◌+◌, ◌-◌, List, [], ◌∷◌, ◌++◌, Bool, true, false, not}
use heaplens.Base.{Option, none, some, foldl, get_elem?, leb, ltb, ◌==◌, if◌then◌else◌, length}
use heaplens.Base.Dict.{Dict, lookup, insert, delete}
use heaplens.Run.{Outcome, ok, err, panic, stuck, Run, pure, crash, exhausted, ◌>>=◌, ◌>>◌}
use heaplens.Graph.{Object, ObjId, MemGraph, Order, for_each_object, elements, get_roots}

pub record Forest : Type 0 where
  pub dfs_num : ℕ
  pub vertex : List ObjId
  pub parent : Dict (Option ℕ)
  pub dfnum : Dict ℕ
  pub semi : Dict ℕ
  pub ancestor : Dict (Option ℕ)
  pub idom : Dict ObjId
  pub samedom : Dict ObjId
  pub best : Dict ObjId
  pub bucket : Dict (List ObjId)

unfoldable pub new_forest : Forest
new_forest = record {
  dfs_num = 0;
  vertex = [];
  parent = [];
  dfnum = [];
  semi = [];
  ancestor = [];
  idom = [];
  samedom = [];
  best = [];
  bucket = [];
}

-- Nothing here returns a Go error.
abbrev pub Build : Type 0 → Type 0
Build A = Run ⊥ Forest A

-- m[key], with the zero value where the key is missing.
abbrev pub get_or : {A : Type 0} → A → Option A → A
get_or zero_value none = zero_value
get_or zero_value (some a) = a

abbrev pub is_minus_one : Option ℕ → Bool
is_minus_one none = true
is_minus_one (some n) = false

abbrev pub is_present : {A : Type 0} → Option A → Bool
is_present none = false
is_present (some a) = true

unfoldable pub update : (Forest → Forest) → Build (Unit {0})
update f s = ok tt (f s)

unfoldable pub gets : {A : Type 0} → (Forest → A) → Build A
gets f s = ok (f s) s

-- vertex[i], which panics out of range.
abbrev pub or_panic : Option ObjId → Build ObjId
or_panic none s = panic
or_panic (some v) s = ok v s

unfoldable pub vertex_at : ℕ → Build ObjId
vertex_at i s = or_panic (get_elem? s.vertex i) s

unfoldable pub for_each : {A : Type 0} → List A → (A → Build (Unit {0})) → Build (Unit {0})
for_each [] body = pure tt
for_each (x ∷ xs) body = do body x; for_each xs body

-- The adjacency lists: the super-root 0 to the roots, and then every object whose pointers are not nil,
-- which takes the place of an entry that is there.
abbrev pub add_edges : Dict (List ObjId) → ObjId → Option (List ObjId) → Dict (List ObjId)
add_edges adj id none = adj
add_edges adj id (some ptrs) = insert id ptrs adj

abbrev pub root_edges : List ObjId → Dict (List ObjId)
root_edges [] = []
root_edges (id ∷ ids) = (0, id ∷ ids) ∷ []

unfoldable pub build_adj : List Object → List ObjId → Dict (List ObjId)
build_adj objects roots =
    foldl (λ adj obj. add_edges adj obj.id obj.ptrs) (root_edges roots) objects

-- adj[v]
abbrev pub successors : Dict (List ObjId) → ObjId → List ObjId
successors adj v = elements (lookup v adj)

unfoldable pub number_vertex : ObjId → Option ℕ → Forest → Forest
number_vertex v p s = record s {
  dfnum = insert v s.dfs_num s.dfnum;
  vertex = s.vertex ++ v ∷ [];
  parent = insert v p s.parent;
  semi = insert v s.dfs_num s.semi;
  ancestor = insert v none s.ancestor;
  best = insert v v s.best;
  samedom = insert v v s.samedom;
  dfs_num = s.dfs_num + 1;
}

unfoldable pub dfs : ℕ → Dict (List ObjId) → ObjId → Option ℕ → Build (Unit {0})
dfs zero adj v p = exhausted
dfs (suc fuel) adj v p = do
  visited ← gets (λ s. is_present (lookup v s.dfnum))
  elim visited [
    | true ↦ pure tt
    | false ↦ do
      number ← gets (λ s. s.dfs_num)
      update (number_vertex v p)
      for_each (successors adj v) (λ w. dfs fuel adj w (some number))
  ]

abbrev pub ancestor_of : ObjId → Forest → Option ℕ
ancestor_of v s = get_or (some 0) (lookup v s.ancestor)

abbrev pub semi_of : ObjId → Forest → ℕ
semi_of v s = get_or 0 (lookup v s.semi)

abbrev pub best_of : ObjId → Forest → ObjId
best_of v s = get_or 0 (lookup v s.best)

-- What compress does with `v` once the path above `anc_id` is compressed.
unfoldable pub shorten : ObjId → ObjId → Forest → Forest
shorten v anc_id s =
    let better = ltb (semi_of (best_of anc_id s) s) (semi_of (best_of v s) s) in
    record s {
      best = if better then insert v (best_of anc_id s) s.best else s.best;
      ancestor = insert v (ancestor_of anc_id s) s.ancestor;
    }

unfoldable pub compress : ℕ → ObjId → Build (Unit {0})
compress zero v = exhausted
compress (suc fuel) v = do
  anc ← gets (ancestor_of v)
  elim anc [
    | none ↦ pure tt
    | some i ↦ do
      anc_id ← vertex_at i
      above ← gets (ancestor_of anc_id)
      elim above [ none ↦ pure tt | some j ↦ do compress fuel anc_id; update (shorten v anc_id) ]
  ]

unfoldable pub eval : ℕ → ObjId → Build ObjId
eval fuel v = do
  anc ← gets (ancestor_of v)
  elim anc [ none ↦ pure v | some i ↦ do compress fuel v; gets (best_of v) ]

unfoldable pub lower_semi : ObjId → ObjId → Forest → Forest
lower_semi u w s = record s {
  semi = if ltb (semi_of u s) (semi_of w s) then insert w (semi_of u s) s.semi else s.semi;
}

unfoldable pub process_edge : ℕ → ObjId → ObjId → Build (Unit {0})
process_edge fuel v w = do
  v_num ← gets (λ s. lookup v s.dfnum)
  w_num ← gets (λ s. get_or 0 (lookup w s.dfnum))
  elim v_num [
    | none ↦ pure tt
    | some n ↦ do u ← (if leb n w_num then pure v else eval fuel v); update (lower_semi u w)
  ]

-- `for _, ptr := range ptrs { if ptr == w { processEdge(v, w, ...) } }`
unfoldable pub process_pointers : ℕ → ObjId → ObjId → List ObjId → Build (Unit {0})
process_pointers fuel v w ptrs =
    for_each ptrs (λ ptr. if ptr == w then process_edge fuel v w else pure tt)

abbrev pub bucket_of : ℕ → Forest → List ObjId
bucket_of i s = elements (lookup i s.bucket)

unfoldable pub add_to_bucket : ObjId → Forest → Forest
add_to_bucket w s = record s {
  bucket = insert (semi_of w s) (bucket_of (semi_of w s) s ++ w ∷ []) s.bucket;
}

unfoldable pub link : ObjId → Option ℕ → Forest → Forest
link v w s = record s { ancestor = insert v w s.ancestor }

-- Step 3 for one vertex of a bucket, whose vertices are in the subtree of `p`.
unfoldable pub settle : ℕ → ℕ → ObjId → Build (Unit {0})
settle fuel p v = do
  u ← eval fuel v
  same ← gets (λ s. semi_of u s == semi_of v s)
  elim same [
    | true ↦ do d ← vertex_at p; update (λ s. record s { idom = insert v d s.idom })
    | false ↦ update (λ s. record s { samedom = insert v u s.samedom })
  ]

unfoldable pub settle_bucket : ℕ → Option ℕ → Build (Unit {0})
settle_bucket fuel none = pure tt
settle_bucket fuel (some p) = do
  waiting ← gets (bucket_of p)
  for_each waiting (settle fuel p)
  update (λ s. record s { bucket = insert p [] s.bucket })

-- One round of the loop in reverse DFS order.
unfoldable pub process_vertex : ℕ → List Object → Dict (List ObjId) → ℕ → Build (Unit {0})
process_vertex fuel objects adj i = do
  w ← vertex_at i
  for_each objects (λ obj. process_pointers fuel obj.id w (elements obj.ptrs))
  process_pointers fuel 0 w (successors adj 0)
  update (add_to_bucket w)
  p ← gets (λ s. get_or (some 0) (lookup w s.parent))
  elim p [ none ↦ pure tt | some n ↦ update (link w (some n)) ]
  settle_bucket fuel p

-- i = n, n - 1, …, 1
unfoldable pub process_vertices : ℕ → List Object → Dict (List ObjId) → ℕ → Build (Unit {0})
process_vertices fuel objects adj zero = pure tt
process_vertices fuel objects adj (suc n) = do
  process_vertex fuel objects adj (suc n)
  process_vertices fuel objects adj n

unfoldable pub copy_dominator : ObjId → Forest → Forest
copy_dominator w s =
    let same = get_or 0 (lookup w s.samedom) in
    if same == w then s else record s { idom = insert w (get_or 0 (lookup same s.idom)) s.idom }

-- Step 4, for `n` vertices from number `i` on.
unfoldable pub copy_dominators : ℕ → ℕ → Build (Unit {0})
copy_dominators i zero = pure tt
copy_dominators i (suc n) = do w ← vertex_at i; update (copy_dominator w); copy_dominators (i + 1) n

unfoldable pub run_dominators : ℕ → List Object → List ObjId → Build (Dict ObjId)
run_dominators fuel objects roots = do
  let adj = build_adj objects roots
  dfs fuel adj 0 none
  last ← gets (λ s. s.dfs_num - 1)
  process_vertices fuel objects adj last
  copy_dominators 1 last
  gets (λ s. delete 0 s.idom)

-- `fuel` bounds the depth of dfs and of compress.
unfoldable pub dominators : ℕ → Order Object → MemGraph → Outcome ⊥ Forest (Dict ObjId)
dominators fuel order g =
    let objects = for_each_object order g (λ all obj. all ++ obj ∷ []) [] in
    run_dominators fuel objects (get_roots g).ids new_forest
