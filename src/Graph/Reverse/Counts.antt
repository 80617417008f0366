-- ===== src/Graph/Reverse/Counts.antt =====
-- The reversed edges hold every pointer of every object, as often as it is there, in whatever order
-- the map of objects is visited.
use heaplens.Base.{ℕ, ◌+◌, ◌≡◌, refl, ◌∙◌, arith, List, [], ◌∷◌, ◌++◌, foldl, All, All-imp, ◌<◌}
use heaplens.Base.{◌==◌, if◌then◌else◌}
use heaplens.Base.Dict.{lookup, lookup-insert}
use heaplens.Graph.{Object, ObjId, MemGraph, Order, for_each_object, elements, values}
use heaplens.Graph.Reverse.{ReverseEdges, referrers, add_referrer, add_referrers}
use heaplens.Graph.Reverse.{build_reverse_edges}
use mathlib.Core.List.{Perm, Permᴰ}
use mathlib.Core.Logic.{∥∥₁_elim}
use native.Mathlib.Nat.{ℕ_set}

-- How often `v` stands in the list.
unfoldable pub count : ℕ → List ℕ → ℕ
count v [] = 0
count v (x ∷ xs) = (if x == v then 1 else 0) + count v xs

pub count-pos : (xs : List ℕ) → All (λ x. 0 < count x xs) xs
unfolding count
count-pos [] = tt
count-pos (x ∷ xs) = (ground arith, All-imp xs (λ r h. omega arith) (count-pos xs))

pub count-append :
    (v : ℕ) (xs : List ℕ) (y : ℕ) → count v (xs ++ y ∷ []) ≡ count v xs + count v (y ∷ [])
unfolding count
count-append v [] y = omega arith
count-append v (x ∷ xs) y = omega (arith, count-append v xs y)

-- The pointers to `target` in the objects of ID `v`.
unfoldable pub pointers_between : List Object → ObjId → ObjId → ℕ
pointers_between [] v target = 0
pointers_between (obj ∷ objects) v target =
    (if obj.id == v then count target (elements obj.ptrs) else 0)
    + pointers_between objects v target

pub referrers-add :
    (id target x : ObjId) (reverse : ReverseEdges)
    → referrers (add_referrer id reverse target) x
      ≡ (if target == x then referrers reverse x ++ id ∷ [] else referrers reverse x)
unfolding referrers add_referrer
referrers-add id target x reverse =
    ground (arith, lookup-insert target x (elements (lookup target reverse) ++ id ∷ []) reverse)

count-add_referrer :
    (v x id target : ObjId) (reverse : ReverseEdges)
    → count v (referrers (add_referrer id reverse target) x)
      ≡ count v (referrers reverse x) + (if target == x then (if id == v then 1 else 0) else 0)
unfolding count
count-add_referrer v x id target reverse =
    ground (arith, referrers-add id target x reverse, count-append v (referrers reverse x) id)

count-add_all :
    (v x id : ObjId) (targets : List ObjId) (reverse : ReverseEdges)
    → count v (referrers (foldl (add_referrer id) reverse targets) x)
      ≡ count v (referrers reverse x) + (if id == v then count x targets else 0)
unfolding count
count-add_all v x id [] reverse = ground arith
count-add_all v x id (target ∷ targets) reverse = ground (
  arith,
  count-add_all v x id targets (add_referrer id reverse target),
  count-add_referrer v x id target reverse,
)

count-object :
    (v x : ObjId) (obj : Object) (reverse : ReverseEdges)
    → count v (referrers (add_referrers reverse obj) x)
      ≡ count v (referrers reverse x) + (if obj.id == v then count x (elements obj.ptrs) else 0)
unfolding add_referrers
count-object v x obj reverse = count-add_all v x obj.id (elements obj.ptrs) reverse

count-objects :
    (v x : ObjId) (objects : List Object) (reverse : ReverseEdges)
    → count v (referrers (foldl add_referrers reverse objects) x)
      ≡ count v (referrers reverse x) + pointers_between objects v x
unfolding pointers_between
count-objects v x [] reverse = omega arith
count-objects v x (obj ∷ objects) reverse =
    omega
      (arith, count-objects v x objects (add_referrers reverse obj), count-object v x obj reverse)

pointers_between-Permᴰ :
    (v x : ObjId) {xs ys : List Object}
    → Permᴰ xs ys
    → pointers_between xs v x ≡ pointers_between ys v x
unfolding pointers_between
pointers_between-Permᴰ v x Permᴰ.nil = refl
pointers_between-Permᴰ v x (Permᴰ.cons e p) = rw (e, pointers_between-Permᴰ v x p)
pointers_between-Permᴰ v x (Permᴰ.swap e f) = rw (e, f) (omega arith)
pointers_between-Permᴰ v x (Permᴰ.trans p q) =
    pointers_between-Permᴰ v x p ∙ pointers_between-Permᴰ v x q

pointers_between-Perm :
    (v x : ObjId) {xs ys : List Object}
    → Perm xs ys
    → pointers_between xs v x ≡ pointers_between ys v x
pointers_between-Perm v x p = ∥∥₁_elim p (ℕ_set _ _) (pointers_between-Permᴰ v x)

nothing : (v x : ObjId) → count v (referrers [] x) ≡ 0
unfolding count referrers lookup
nothing v x = refl

-- Every pointer from an object of ID `from` to `to` is one entry `from` among the referrers of `to`,
-- and there are no other entries, whatever the order in which the objects are visited.
pub count-build_reverse_edges :
    (order : Order Object) (g : MemGraph) (from to : ObjId)
    → count from (referrers (build_reverse_edges order g) to)
      ≡ pointers_between (values g.objects) from to
unfolding build_reverse_edges for_each_object
count-build_reverse_edges order g from to =
    count-objects from to (order.arrange (values g.objects)) []
    ∙ omega (
      arith,
      nothing from to,
      pointers_between-Perm from to (order.arrange-perm (values g.objects)),
    )
