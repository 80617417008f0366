-- ===== src/Graph/Reverse/Bounds.antt =====
-- How many referrers an object can have, and which.
use heaplens.Base.{ℕ, ◌+◌, ◌≤◌, arith, List, [], ◌∷◌, foldl}
use heaplens.Base.{Bool, true, false, ◌==◌, if◌then◌else◌, length, All}
use heaplens.Base.{length-append, All-snoc}
use heaplens.Graph.{Object, ObjId, elements}
use heaplens.Graph.Reverse.{ReverseEdges, referrers, add_referrer, add_referrers}
use heaplens.Graph.Reverse.Counts.{referrers-add}

-- The pointers of all the objects.
pub total_pointers : List Object → ℕ
total_pointers [] = 0
total_pointers (obj ∷ objects) = length (elements obj.ptrs) + total_pointers objects

length-add_all :
    (x id : ObjId) (targets : List ObjId) (reverse : ReverseEdges)
    → length (referrers (foldl (add_referrer id) reverse targets) x)
      ≤ length (referrers reverse x) + length targets
length-add_all x id [] reverse = omega arith
length-add_all x id (target ∷ targets) reverse = ground (
  arith,
  length-add_all x id targets (add_referrer id reverse target),
  referrers-add id target x reverse,
  length-append (referrers reverse x) (id ∷ []),
)

length-add_referrers :
    (x : ObjId) (obj : Object) (reverse : ReverseEdges)
    → length (referrers (add_referrers reverse obj) x)
      ≤ length (referrers reverse x) + length (elements obj.ptrs)
unfolding add_referrers
length-add_referrers x obj reverse = length-add_all x obj.id (elements obj.ptrs) reverse

pub length-referrers :
    (x : ObjId) (objects : List Object) (reverse : ReverseEdges)
    → length (referrers (foldl add_referrers reverse objects) x)
      ≤ length (referrers reverse x) + total_pointers objects
unfolding total_pointers
length-referrers x [] reverse = omega arith
length-referrers x (obj ∷ objects) reverse = omega (
  arith,
  length-referrers x objects (add_referrers reverse obj),
  length-add_referrers x obj reverse,
)

module _ (P : ObjId → Type 0) where
  All-choice : (b : Bool) (xs ys : List ObjId) → All P xs → All P ys → All P (if b then xs else ys)
  All-choice true xs ys hx hy = hx
  All-choice false xs ys hx hy = hy

  -- Every list of referrers has the property.
  abbrev AllReferrers : ReverseEdges → Type 0
  AllReferrers reverse = (x : ObjId) → All P (referrers reverse x)

  AllReferrers-add :
      (id target : ObjId) (reverse : ReverseEdges)
      → P id
      → AllReferrers reverse
      → AllReferrers (add_referrer id reverse target)
  AllReferrers-add id target reverse p h x =
      rw (referrers-add id target x reverse)
        (All-choice (target == x) _ _ (All-snoc P (referrers reverse x) id (h x) p) (h x))

  AllReferrers-all :
      (id : ObjId) (targets : List ObjId) (reverse : ReverseEdges)
      → P id
      → AllReferrers reverse
      → AllReferrers (foldl (add_referrer id) reverse targets)
  AllReferrers-all id [] reverse p h = h
  AllReferrers-all id (target ∷ targets) reverse p h =
      AllReferrers-all id targets (add_referrer id reverse target) p
        (AllReferrers-add id target reverse p h)

  AllReferrers-object :
      (obj : Object) (reverse : ReverseEdges)
      → P obj.id
      → AllReferrers reverse
      → AllReferrers (add_referrers reverse obj)
  unfolding add_referrers
  AllReferrers-object obj reverse p h = AllReferrers-all obj.id (elements obj.ptrs) reverse p h

  pub AllReferrers-objects :
      (objects : List Object) (reverse : ReverseEdges)
      → All (λ obj. P obj.id) objects
      → AllReferrers reverse
      → AllReferrers (foldl add_referrers reverse objects)
  AllReferrers-objects [] reverse p h = h
  AllReferrers-objects (obj ∷ objects) reverse (p, ps) h =
      AllReferrers-objects objects (add_referrers reverse obj) ps
        (AllReferrers-object obj reverse p h)
