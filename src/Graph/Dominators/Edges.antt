-- ===== src/Graph/Dominators/Edges.antt =====
-- graph/dominators.go: the adjacency lists that Dominators works on, against the graph.
use heaplens.Base.{◌≡◌, refl, sym, ap, ◌∙◌, ◌⊎◌, arith, List, [], ◌∷◌, ◌++◌, foldl}
use heaplens.Base.{
  Bool-cases, inl, inr, false, ◌==◌, Option, Option-cases, none, some, if◌then◌else◌,
}
use heaplens.Base.Dict.{Dict, lookup, lookup-insert}
use heaplens.Graph.{
  Object, ObjId, MemGraph, Order, values, elements, for_each_object, get_object, get_roots,
}
use heaplens.Graph.Keyed.{IsKeyed, lookup_of_mem, mem_of_lookup}
use heaplens.Graph.Dominators.{add_edges, root_edges, build_adj, successors}
use heaplens.Graph.Dominators.Empty.{append_all}
use mathlib.Core.List.{Mem, not-mem-nil, mem-cons_of_mem, mem-cons_self, mem_of_ne_of_mem}
use mathlib.Core.List.Perm
use mathlib.Core.Option.{none-ne-some, some-injective}
use mathlib.Core.Path.{subst}

-- The loop of Dominators over the objects.
abbrev all_edges : List Object → Dict (List ObjId) → Dict (List ObjId)
all_edges objects adj = foldl (λ adj obj. add_edges adj obj.id obj.ptrs) adj objects

other_edges :
    (id key : ObjId) (ptrs : Option (List ObjId)) (adj : Dict (List ObjId))
    → (key == id) ≡ false
    → lookup id (add_edges adj key ptrs) ≡ lookup id adj
other_edges id key none adj h = refl
other_edges id key (some ptrs) adj h = ground (arith, lookup-insert key id ptrs adj)

-- Objects of the ID whose pointers are nil leave the entry as it is.
kept_edges :
    (id : ObjId) (objects : List Object) (adj : Dict (List ObjId))
    → ((obj : Object) → Mem obj objects → obj.id ≡ id → obj.ptrs ≡ none)
    → lookup id (all_edges objects adj) ≡ lookup id adj
kept_edges id [] adj nil = refl
kept_edges id (obj ∷ objects) adj nil =
    kept_edges id objects _ (λ o mem. nil o (mem-cons_of_mem obj mem))
    ∙ (elim (Bool-cases (obj.id == id)) [
      | inl own ↦ rw (nil obj mem-cons_self (ground arith)) refl
      | inr other ↦ other_edges id obj.id obj.ptrs adj other
    ])

-- Objects of the ID that all have the same pointers, not nil, set the entry, where there is one.
set_edges :
    (id : ObjId) (ptrs : List ObjId) (objects : List Object) (adj : Dict (List ObjId))
    → ((obj : Object) → Mem obj objects → obj.id ≡ id → obj.ptrs ≡ some ptrs)
    → (lookup id adj ≡ some ptrs) ⊎ ((obj : Object) × Mem obj objects × (obj.id ≡ id))
    → lookup id (all_edges objects adj) ≡ some ptrs
set_edges id ptrs [] adj same (inl e) = e
set_edges id ptrs [] adj same (inr (o, mem, e)) = absurd (not-mem-nil mem)
set_edges id ptrs (obj ∷ objects) adj same h =
    set_edges id ptrs objects _ (λ o mem. same o (mem-cons_of_mem obj mem))
      (elim (Bool-cases (obj.id == id)) [
        | inl own ↦ inl (
            rw (same obj mem-cons_self (ground arith))
              (ground (arith, lookup-insert obj.id id ptrs adj)))
        | inr other ↦ elim h [
          | inl e ↦ inl (other_edges id obj.id obj.ptrs adj other ∙ e)
          | inr (o, mem, e) ↦ inr (
            o,
            mem_of_ne_of_mem
                (λ here. let own : obj.id ≡ id = ap (λ x. x.id) (sym here) ∙ e in ground arith) mem,
            e,
          )
        ]
      ])

-- What the code collects of the graph with ForEachObject.
abbrev pub collected : Order Object → MemGraph → List Object
collected order g = for_each_object order g (λ all obj. all ++ obj ∷ []) []

pub collected_lem :
    (order : Order Object) (g : MemGraph) → collected order g ≡ order.arrange (values g.objects)
unfolding for_each_object
collected_lem order g = append_all (order.arrange (values g.objects)) []

-- The pointers of an object, none where there is no object.
abbrev pub pointers_of : Option Object → List ObjId
pointers_of none = []
pointers_of (some obj) = elements obj.ptrs

root_edges_zero : (roots : List ObjId) → elements (lookup 0 (root_edges roots)) ≡ roots
unfolding lookup
root_edges_zero [] = refl
root_edges_zero (id ∷ roots) = refl

root_edges_other :
    (id : ObjId) (roots : List ObjId) → (id == 0) ≡ false → lookup id (root_edges roots) ≡ none
unfolding lookup
root_edges_other id [] h = refl
root_edges_other id (root ∷ roots) h = ground arith

module _ (order : Order Object) (g : MemGraph) (keyed : IsKeyed g.objects) where
  collected_found : (obj : Object) → Mem obj (collected order g) → get_object g obj.id ≡ some obj
  unfolding get_object
  collected_found obj mem = lookup_of_mem obj g.objects keyed (
      (Perm.mem_iff (order.arrange-perm (values g.objects))).0
        (subst (Mem obj) (collected_lem order g) mem))

  pub found_collected :
      (id : ObjId) (obj : Object)
      → get_object g id ≡ some obj
      → Mem obj (collected order g) × (obj.id ≡ id)
  unfolding get_object
  found_collected id obj e =
      let (mem, own) = mem_of_lookup id obj g.objects keyed e in
      (
        subst (Mem obj) (sym (collected_lem order g))
            ((Perm.mem_iff (order.arrange-perm (values g.objects))).1 mem),
        own,
      )

  -- An object of the list with the ID is what GetObject gives for it.
  pub collected_at :
      (id : ObjId) (obj : Object)
      → Mem obj (collected order g)
      → obj.id ≡ id
      → get_object g id ≡ some obj
  collected_at id obj mem own = subst (λ k. get_object g k ≡ some obj) own (collected_found obj mem)

  module _ (id : ObjId) (adj : Dict (List ObjId)) where
    missing_edges :
        get_object g id ≡ none → lookup id (all_edges (collected order g) adj) ≡ lookup id adj
    missing_edges gone =
        kept_edges id (collected order g) adj
          (λ o mem own. absurd (none-ne-some o (sym gone ∙ collected_at id o mem own)))

    object_edges :
        (obj : Object)
        → lookup id adj ≡ none
        → get_object g id ≡ some obj
        → elements (lookup id (all_edges (collected order g) adj)) ≡ elements obj.ptrs
    object_edges obj fresh found =
        let only = λ (o : Object) (mem : Mem o (collected order g)) (own : o.id ≡ id).
          ap (λ x. x.ptrs) (some-injective o obj (sym (collected_at id o mem own) ∙ found)) in
        elim (Option-cases obj.ptrs) [
          | inl nil ↦
              ap elements
                (kept_edges id (collected order g) adj (λ o mem own. only o mem own ∙ nil) ∙ fresh)
              ∙ rw nil refl
          | inr (ptrs, set) ↦
              ap elements (
                set_edges id ptrs (collected order g) adj (λ o mem own. only o mem own ∙ set)
                  (inr (obj, (found_collected id obj found).0, (found_collected id obj found).1)))
              ∙ rw set refl
        ]

  -- The adjacency lists that Dominators works on are the graph with the super-root on top: from 0 to the
  -- roots, from every other ID to the pointers of its object, in whatever order the objects are visited.
  -- The graph keeps each object under its own ID, and none under 0.
  pub build_adj_edges :
      get_object g 0 ≡ none
      → (id : ObjId)
      → successors (build_adj (collected order g) (get_roots g).ids) id
        ≡ (if id == 0 then (get_roots g).ids else pointers_of (get_object g id))
  unfolding build_adj
  build_adj_edges no_zero id = elim (Bool-cases (id == 0)) [
    | inl zero_id ↦
        let e : id ≡ 0 = ground arith in
        rw (e) (
          ap elements (missing_edges 0 (root_edges (get_roots g).ids) no_zero)
          ∙ root_edges_zero (get_roots g).ids)
    | inr other ↦ rw other (elim (Option-cases (get_object g id)) [
      | inl gone ↦ rw gone (
          ap elements (
            missing_edges id (root_edges (get_roots g).ids) gone
            ∙ root_edges_other id (get_roots g).ids other))
      | inr (obj, found) ↦ rw found (
          object_edges id (root_edges (get_roots g).ids) obj
            (root_edges_other id (get_roots g).ids other) found)
    ])
  ]
