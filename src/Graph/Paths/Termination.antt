-- ===== src/Graph/Paths/Termination.antt =====
-- The search ends on every graph, within a number of rounds that the graph determines.
use heaplens.Base.{ℕ, suc, ◌≤◌, ◌≡◌, refl, arith, List, [], ◌∷◌, map, All}
use heaplens.Base.{true, some, ◌==◌, length}
use heaplens.Base.{Bool-cases, inl, inr}
use heaplens.Base.Dict.{lookup}
use heaplens.Graph.{Object, ObjId, MemGraph, Order, for_each_object, values, get_roots}
use heaplens.Graph.Reverse.{referrers, build_reverse_edges}
use heaplens.Graph.Reverse.Bounds.{total_pointers, length-referrers, AllReferrers-objects}
use heaplens.Graph.Paths.{RootPath, contains, in_root_set, make_root_set, paths_to_roots, start}
use heaplens.Graph.Paths.Work.{work, IsBounded, search_loop_ends}

abbrev ids_of : List Object → List ObjId
ids_of objects = map (λ obj. obj.id) objects

knows_weaken :
    (x : ObjId) (xs : List ObjId) (objects : List Object)
    → All (λ obj. contains xs obj.id ≡ true) objects
    → All (λ obj. contains (x ∷ xs) obj.id ≡ true) objects
unfolding contains
knows_weaken x xs [] h = tt
knows_weaken x xs (obj ∷ objects) (h, hs) = (ground arith, knows_weaken x xs objects hs)

knows_self : (objects : List Object) → All (λ obj. contains (ids_of objects) obj.id ≡ true) objects
unfolding contains
knows_self [] = tt
knows_self (obj ∷ objects) =
    (ground arith, knows_weaken obj.id (ids_of objects) objects (knows_self objects))

no_referrers : (id : ObjId) → length (referrers [] id) ≡ 0
unfolding referrers lookup
no_referrers id = refl

module _ (order : Order Object) (g : MemGraph) where
  abbrev visited : List Object
  visited = order.arrange (values g.objects)

  IsBounded-build :
      IsBounded (ids_of visited) (total_pointers visited) (build_reverse_edges order g)
  unfolding build_reverse_edges for_each_object
  IsBounded-build = record {
    few = λ id. omega (arith, length-referrers id visited [], no_referrers id);
    known =
        AllReferrers-objects (λ r. contains (ids_of visited) r ≡ true) visited []
          (knows_self visited) (λ x. unfold referrers lookup in tt);
  }

  -- Rounds that suffice for a search from `from`.
  pub rounds : ObjId → ℕ
  rounds from = suc (work (ids_of visited) (total_pointers visited) (start from).queue)

-- On every graph, with its cycles and its pointers to nothing, the search ends: with `rounds` rounds
-- or more it returns its paths, whatever the order in which the objects are visited.
pub paths_to_roots_ends :
    (order : Order Object) (g : MemGraph) (from : ObjId) (max_paths fuel : ℕ)
    → rounds order g from ≤ fuel
    → (result : List RootPath) × (paths_to_roots fuel order g from max_paths ≡ some result)
unfolding paths_to_roots rounds
paths_to_roots_ends order g from max_paths fuel h =
    let reverse = build_reverse_edges order g in
    let root_set = make_root_set (get_roots g).ids in
    let (result, ends) =
      search_loop_ends _ _ root_set max_paths reverse (IsBounded-build order g) fuel (start from)
        h in
    elim (Bool-cases (max_paths == 0)) [
      | inl zero_paths ↦ ([], rw zero_paths)
      | inr some_paths ↦ elim (Bool-cases (in_root_set root_set from)) [
        | inl root ↦ (record { ids = from ∷ [] } ∷ [], rw (some_paths, root))
        | inr other ↦ (result, rw (some_paths, other) ends)
      ]
    ]
