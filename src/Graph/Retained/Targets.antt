-- ===== src/Graph/Retained/Targets.antt =====
-- graph/retained.go: the table of sizes against the graph, and which targets RetainedSizeSubsets takes.
use heaplens.Base.{ℕ, ◌≡◌, refl, sym, ap, ◌∙◌, ◌⊎◌, arith, List, [], ◌∷◌, foldl, Bool, not, ◌&&◌}
use heaplens.Base.{Bool-cases, inl, inr, true, false, ◌==◌, Option-cases, none, some}
use heaplens.Base.{if◌then◌else◌}
use heaplens.Base.Dict.{lookup, insert, lookup-insert}
use heaplens.Graph.{Object, ObjId, MemGraph, Order, for_each_object, get_object}
use heaplens.Graph.Keyed.{IsKeyed}
use heaplens.Graph.Dominators.Edges.{collected, collected_lem, found_collected, collected_at}
use heaplens.Graph.Retained.{Sizes, object_sizes, is_target}
use mathlib.Core.List.{Mem, not-mem-nil, mem-cons_of_mem, mem-cons_self, mem_of_ne_of_mem}
use mathlib.Core.Option
use mathlib.Core.Option.{none-ne-some, some-injective}
use mathlib.Core.Path.{subst}

abbrev sized : List Object → Sizes → Sizes
sized objects sizes = foldl (λ sizes obj. insert obj.id obj.size sizes) sizes objects

-- Objects of other IDs leave the entry as it is.
kept_size :
    (id : ObjId) (objects : List Object) (sizes : Sizes)
    → ((obj : Object) → Mem obj objects → (obj.id == id) ≡ false)
    → lookup id (sized objects sizes) ≡ lookup id sizes
kept_size id [] sizes other = refl
kept_size id (obj ∷ objects) sizes other =
    let differs = other obj mem-cons_self in
    kept_size id objects (insert obj.id obj.size sizes) (λ o mem. other o (mem-cons_of_mem obj mem))
    ∙ ground (arith, lookup-insert obj.id id obj.size sizes)

-- Objects of the ID that all have the same size set the entry, where there is one.
set_size :
    (id : ObjId) (size : ℕ) (objects : List Object) (sizes : Sizes)
    → ((obj : Object) → Mem obj objects → obj.id ≡ id → obj.size ≡ size)
    → (lookup id sizes ≡ some size) ⊎ ((obj : Object) × Mem obj objects × (obj.id ≡ id))
    → lookup id (sized objects sizes) ≡ some size
set_size id size [] sizes same (inl e) = e
set_size id size [] sizes same (inr (o, mem, e)) = absurd (not-mem-nil mem)
set_size id size (obj ∷ objects) sizes same h =
    set_size id size objects (insert obj.id obj.size sizes)
      (λ o mem. same o (mem-cons_of_mem obj mem))
      (elim (Bool-cases (obj.id == id)) [
        | inl own ↦
            let right = same obj mem-cons_self (ground arith) in
            inl (ground (arith, lookup-insert obj.id id obj.size sizes))
        | inr other ↦ elim h [
          | inl e ↦ inl (ground (arith, lookup-insert obj.id id obj.size sizes))
          | inr (o, mem, e) ↦ inr (
            o,
            mem_of_ne_of_mem
                (λ here. let own : obj.id ≡ id = ap (λ x. x.id) (sym here) ∙ e in ground arith) mem,
            e,
          )
        ]
      ])

-- The object is in the graph.
abbrev pub is_object : MemGraph → ObjId → Bool
is_object g id = elim (get_object g id) [ none ↦ false | some obj ↦ true ]

module _ (order : Order Object) (g : MemGraph) (keyed : IsKeyed g.objects) where
  collected_size :
      (id : ObjId)
      → lookup id (sized (collected order g) []) ≡ Option.map (λ o. o.size) (get_object g id)
  unfolding lookup
  collected_size id = elim (Option-cases (get_object g id)) [
    | inl gone ↦
        kept_size id (collected order g) [] (λ o mem. elim (Bool-cases (o.id == id)) [
          | inl own ↦
              let found = collected_at order g keyed id o mem (ground arith) in
              absurd (none-ne-some o (sym gone ∙ found))
          | inr other ↦ other
        ])
        ∙ rw gone refl
    | inr (obj, found) ↦
        set_size id obj.size (collected order g) []
          (λ o mem own.
            ap (λ x. x.size)
              (some-injective o obj (sym (collected_at order g keyed id o mem own) ∙ found)))
          (inr (
            obj,
            (found_collected order g keyed id obj found).0,
            (found_collected order g keyed id obj found).1,
          ))
        ∙ rw found refl
  ]

  -- The super-root has size 0, and every object its own.
  lookup-object_sizes :
      (id : ObjId)
      → lookup id (object_sizes order g)
        ≡ (if id == 0 then some 0 else Option.map (λ o. o.size) (get_object g id))
  unfolding object_sizes for_each_object
  lookup-object_sizes id =
      let size =
        subst (λ os. lookup id (sized os []) ≡ Option.map (λ o. o.size) (get_object g id))
          (collected_lem order g) (collected_size id) in
      lookup-insert 0 id 0 _ ∙ (elim (Bool-cases (id == 0)) [
        | inl zero_id ↦
            let other_way : (0 == id) ≡ true = ground arith in rw (zero_id, other_way) refl
        | inr other ↦ let other_way : (0 == id) ≡ false = ground arith in rw (other, other_way) size
      ])

  -- The targets that are taken: the objects, but not the super-root.
  pub is_target_lem :
      (id : ObjId) → is_target (object_sizes order g) id ≡ (not (id == 0) && is_object g id)
  unfolding is_target
  is_target_lem id =
      let size = lookup-object_sizes id in
      elim (Bool-cases (id == 0)) [
        | inl zero_id ↦ rw zero_id refl
        | inr other ↦ elim (Option-cases (get_object g id)) [
          | inl gone ↦
              let none_there : lookup id (object_sizes order g) ≡ none = rw (other, gone) at size in
              rw (other, none_there, is_object, gone) refl
          | inr (obj, found) ↦
              let there : lookup id (object_sizes order g) ≡ some obj.size =
                rw (other, found) at size in
              rw (other, there, is_object, found) refl
        ]
      ]
