-- ===== src/Graph/Dominators/Empty.antt =====
-- graph/dominators.go: Dominators on a graph whose super-root has no successors. The super-root and an
-- object of ID 0 share one entry of the adjacency lists.
use heaplens.Base.{
  ℕ, suc, ◌≡◌, refl, sym, ◌∙◌, ◌⊎◌, inl, inr, arith, List, [], ◌∷◌, ◌++◌, foldl, append-nil,
  append_assoc,
}
use heaplens.Base.{Bool-cases, Bool, true, false, ◌||◌, Option, none, some, ◌==◌, if◌then◌else◌}
use heaplens.Base.Dict.{Dict, lookup, insert, delete, lookup-insert}
use heaplens.Run.{ok, ◌>>=◌}
use heaplens.Graph.{Object, ObjId, MemGraph, Order, values, elements, get_roots, for_each_object}
use heaplens.Graph.Dominators.{new_forest, update, gets, for_each, number_vertex, dfs}
use heaplens.Graph.Dominators.{add_edges, root_edges, build_adj, process_vertices, copy_dominators}
use heaplens.Graph.Dominators.{run_dominators, dominators}
use mathlib.Core.List.{Perm, Permᴰ}
use mathlib.Core.Logic.{∥∥₁_elim}

abbrev pub any : (Object → Bool) → List Object → Bool
any test [] = false
any test (obj ∷ objects) = test obj || any test objects

any-Permᴰ : (test : Object → Bool) {xs ys : List Object} → Permᴰ xs ys → any test xs ≡ any test ys
any-Permᴰ test Permᴰ.nil = refl
any-Permᴰ test (Permᴰ.cons e p) = rw (e, any-Permᴰ test p)
any-Permᴰ test (Permᴰ.swap e f) = rw (e, f) (ground arith)
any-Permᴰ test (Permᴰ.trans p q) = any-Permᴰ test p ∙ any-Permᴰ test q

any-Perm : (test : Object → Bool) {xs ys : List Object} → Perm xs ys → any test xs ≡ any test ys
any-Perm test p = ∥∥₁_elim p (hlevel) (any-Permᴰ test)

abbrev pub is_zero : Object → Bool
is_zero obj = obj.id == 0

abbrev is_empty_slice : Option (List ObjId) → Bool
is_empty_slice (some []) = true
is_empty_slice (some (id ∷ ids)) = false
is_empty_slice none = false

-- An object of ID 0 whose slice is nil or has an element.
abbrev pub is_other_zero : Object → Bool
is_other_zero obj = if is_empty_slice obj.ptrs then false else is_zero obj

adj_step :
    (id : ObjId) (ptrs : Option (List ObjId)) (adj : Dict (List ObjId))
    → (if is_empty_slice ptrs then false else (id == 0)) ≡ false
    → (id == 0) ≡ true ⊎ (elements (lookup 0 adj) ≡ [])
    → elements (lookup 0 (add_edges adj id ptrs)) ≡ []
adj_step id none adj h z = ground arith
adj_step id (some []) adj h z = ground (arith, lookup-insert id 0 [] adj)
adj_step id (some (x ∷ xs)) adj h z = ground (arith, lookup-insert id 0 (x ∷ xs) adj)

adj_after :
    (objects : List Object) (adj : Dict (List ObjId))
    → any is_other_zero objects ≡ false
    → any is_zero objects ≡ true ⊎ (elements (lookup 0 adj) ≡ [])
    → elements (lookup 0 (foldl (λ adj obj. add_edges adj obj.id obj.ptrs) adj objects)) ≡ []
adj_after [] adj h (inl z) = cc
adj_after [] adj h (inr e) = e
adj_after (obj ∷ objects) adj h z =
    adj_after objects (add_edges adj obj.id obj.ptrs) (ground arith)
      (elim (Bool-cases (obj.id == 0)) [
        | inl zero_id ↦ inr (adj_step obj.id obj.ptrs adj (ground arith) (inl zero_id))
        | inr other ↦ elim z [
          | inl later ↦ inl (ground arith)
          | inr alone ↦ inr (adj_step obj.id obj.ptrs adj (ground arith) (inr alone))
        ]
      ])

no_successors :
    (objects : List Object) (roots : List ObjId)
    → any is_other_zero objects ≡ false
    → any is_zero objects ≡ true ⊎ (roots ≡ [])
    → elements (lookup 0 (build_adj objects roots)) ≡ []
unfolding build_adj
no_successors objects roots h (inl z) = adj_after objects (root_edges roots) h (inl z)
no_successors objects roots h (inr e) =
    adj_after objects (root_edges roots) h (inr (rw e (unfold lookup in refl)))

run_dominators_alone :
    (fuel : ℕ) (objects : List Object) (roots : List ObjId)
    → elements (lookup 0 (build_adj objects roots)) ≡ []
    → run_dominators (suc fuel) objects roots new_forest ≡ ok [] (number_vertex 0 none new_forest)
unfolding run_dominators ◌>>=◌ dfs new_forest number_vertex update gets for_each lookup insert
    delete process_vertices copy_dominators
run_dominators_alone fuel objects roots e = rw e refl

pub append_all :
    (objects before : List Object)
    → foldl (λ all obj. all ++ obj ∷ []) before objects ≡ before ++ objects
append_all [] before = sym (append-nil before)
append_all (obj ∷ objects) before =
    append_all objects (before ++ obj ∷ []) ∙ append_assoc before (obj ∷ []) objects

-- Where every object of ID 0 has a slice of pointers that is empty and not nil, and either there is such
-- an object or there are no roots, Dominators returns the empty map, whatever the other objects and
-- the roots are.
pub dominators-of_empty_zero :
    (fuel : ℕ) (order : Order Object) (g : MemGraph)
    → any is_other_zero (values g.objects) ≡ false
    → any is_zero (values g.objects) ≡ true ⊎ (g.roots.ids ≡ [])
    → dominators (suc fuel) order g ≡ ok [] (number_vertex 0 none new_forest)
unfolding dominators for_each_object get_roots
dominators-of_empty_zero fuel order g none_other zero_or_none =
    let objects = order.arrange (values g.objects) in
    let perm = order.arrange-perm (values g.objects) in
    rw (append_all objects []) (
      run_dominators_alone fuel objects g.roots.ids (
        no_successors objects g.roots.ids (any-Perm is_other_zero perm ∙ none_other)
          (rw (any-Perm is_zero perm) zero_or_none)))
