-- ===== src/Graph/Keyed.antt =====
-- graph/graph.go: the map of a MemGraph as objects under their own IDs.
use heaplens.Base.{◌≡◌, refl, sym, ap, ◌∙◌, arith, [], ◌∷◌, Bool-cases, inl, inr}
use heaplens.Base.{◌==◌, none, some}
use heaplens.Base.Dict.{Dict, lookup, insert, lookup-insert}
use heaplens.Graph.{Object, ObjId, values}
use mathlib.Core.List.{
  Mem, not-mem-nil, mem-cons_of_mem, mem-cons_self, mem_of_ne_of_mem, eq-or-mem_of_mem-cons,
}
use mathlib.Core.Logic.{∥∥₁_elim}
use mathlib.Core.Path.{subst}

abbrev pub IsKeyed : Dict Object → Type 0
IsKeyed [] = Unit
IsKeyed ((k, obj) ∷ m) = (obj.id ≡ k) × (lookup k m ≡ none) × IsKeyed m

pub insert-IsKeyed : (obj : Object) (m : Dict Object) → IsKeyed m → IsKeyed (insert obj.id obj m)
unfolding insert lookup
insert-IsKeyed obj [] h = (refl, refl, tt)
insert-IsKeyed obj ((k, other) ∷ m) (e, fresh, h) = elim (Bool-cases (k == obj.id)) [
  | inl same ↦ let eq : k ≡ obj.id = ground arith in rw same (refl, rw (← eq) fresh, h)
  | inr differs ↦
      rw differs (e, ground (arith, lookup-insert obj.id k obj m), insert-IsKeyed obj m h)
]

-- What ranges over the map meets exactly the objects that it can be asked for.
pub lookup_of_mem :
    (obj : Object) (m : Dict Object) → IsKeyed m → Mem obj (values m) → lookup obj.id m ≡ some obj
unfolding lookup
lookup_of_mem obj [] h mem = absurd (not-mem-nil mem)
lookup_of_mem obj ((k, other) ∷ m) (e, fresh, h) mem = elim (Bool-cases (k == obj.id)) [
  | inl same ↦ rw same (
      ∥∥₁_elim (eq-or-mem_of_mem-cons mem) (hlevel) (λ where_it_is. elim where_it_is [
        | inl here ↦ ap some (sym here)
        | inr later ↦ let found = lookup_of_mem obj m h later in ground arith
      ]))
  | inr differs ↦ rw differs (
      lookup_of_mem obj m h (
        mem_of_ne_of_mem
          (λ here. let eq : other.id ≡ obj.id = ap (λ o. o.id) (sym here) in ground arith) mem))
]

pub mem_of_lookup :
    (id : ObjId) (obj : Object) (m : Dict Object)
    → IsKeyed m
    → lookup id m ≡ some obj
    → Mem obj (values m) × (obj.id ≡ id)
unfolding lookup
mem_of_lookup id obj [] h e = cc
mem_of_lookup id obj ((k, other) ∷ m) (e, fresh, h) found = elim (Bool-cases (k == id)) [
  | inl same ↦
      let here : obj ≡ other = ground arith in
      let keyed : other.id ≡ id = ground arith in
      (subst (λ o. Mem o (other ∷ values m)) (sym here) mem-cons_self, ap (λ o. o.id) here ∙ keyed)
  | inr differs ↦
      let (mem, keyed) = mem_of_lookup id obj m h (ground arith) in
      (mem-cons_of_mem other mem, keyed)
]
