-- ===== src/Graph.antt =====
-- graph/types.go and graph/graph.go: the object graph in memory. The lock makes each method one step.
-- A type name is its list of bytes. The pointers of an object are `none` where the Go slice is nil,
-- which Dominators tells apart from a slice of length 0.
pub mod Reverse
pub mod Paths
pub mod Dominators
pub mod Tree
pub mod Retained
pub mod Keyed
pub mod Examples
use heaplens.Base.{ℕ, List, [], ◌∷◌, Option, none, some, map, foldl, length}
use heaplens.Base.Dict.{Dict, lookup, insert}
use mathlib.Core.List.{Perm}

abbrev pub ObjId : Type 0
ObjId = ℕ

pub record Object : Type 0 where
  pub id : ObjId
  pub typ : List ℕ
  pub size : ℕ
  pub ptrs : Option (List ObjId)

pub record Roots : Type 0 where
  pub ids : List ObjId

pub record MemGraph : Type 0 where
  pub objects : Dict Object
  pub roots : Roots

-- `range` over a slice that may be nil.
abbrev pub elements : Option (List ObjId) → List ObjId
elements none = []
elements (some ids) = ids

unfoldable pub new_mem_graph : MemGraph
new_mem_graph = record { objects = []; roots = record { ids = [] } }

unfoldable pub add_object : Object → MemGraph → MemGraph
add_object obj g = record g { objects = insert obj.id obj g.objects }

unfoldable pub get_object : MemGraph → ObjId → Option Object
get_object g id = lookup id g.objects

unfoldable pub num_objects : MemGraph → ℕ
num_objects g = length g.objects

abbrev pub values {ℓ} : {V : Type ℓ} → Dict V → List V
values [] = []
values ((k, v) ∷ m) = v ∷ values m

abbrev pub keys {ℓ} : {V : Type ℓ} → Dict V → List ℕ
keys [] = []
keys ((k, v) ∷ m) = k ∷ keys m

-- The order in which Go's range visits a map is not specified, and is an argument here: any
-- rearrangement of the entries.
pub record Order (A : Type 0) : Type 0 where
  pub arrange : List A → List A
  pub arrange-perm : (xs : List A) → Perm (arrange xs) xs

unfoldable pub for_each_object {ℓ} :
    {S : Type ℓ} → Order Object → MemGraph → (S → Object → S) → S → S
for_each_object order g fn s = foldl fn s (order.arrange (values g.objects))

unfoldable pub set_roots : Roots → MemGraph → MemGraph
set_roots roots g = record g { roots = roots }

unfoldable pub get_roots : MemGraph → Roots
get_roots g = g.roots
